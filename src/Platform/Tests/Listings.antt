-- ===== src/Platform/Tests/Listings.antt =====
-- Stores of two tenants or of two matches, each walked in two orders.
use cricket_drs_system.Prelude.{
  String, ◌≡◌, refl, false, [], ◌∷◌, ◌==◌, string_eq, pair_eq, arith, Comparable, none,
}
use cricket_drs_system.Prelude.Int.{pos}
use cricket_drs_system.Table.{Table, lookup}
use cricket_drs_system.Table.Order.{Distinct, SameMap}
use cricket_drs_system.MatchTournament.Domain.{Team, RosterEntry}
use cricket_drs_system.MatchTournament.Store.{RosterStore, list_by_organization, list_by_match}
use cricket_drs_system.MediaIngest.Domain.{Clip}
use cricket_drs_system.MediaIngest.Store.{ClipStore, list_clips_by_match}
use cricket_drs_system.CameraCalibration.Domain.{Camera}
use cricket_drs_system.CameraCalibration.Store.{CameraStore, cameras_of}
use cricket_drs_system.Platform.Listings.{Collects, listings-Collects}

-- Two entries in one order and in the other.
abbrev two : {K V : Type 0} → K × V → K × V → Table K V
two a b = a ∷ b ∷ []

swapped :
    {K V : Type 0} ⦃e : Comparable K⦄ (a b : K × V)
    → (a.0 == b.0) ≡ false
    → (b.0 == a.0) ≡ false
    → Distinct (two a b) × (Distinct (two b a) × SameMap (two a b) (two b a))
unfolding lookup
swapped ⦃e⦄ a b h g = (
  (ground (arith, g), (refl, tt)),
  (
    (ground (arith, h), (refl, tt)),
    λ k. ground (arith, e.equal_iff a.0 k, e.equal_iff b.0 k, e.equal_iff a.0 b.0),
  ),
)

abbrev team : String → (String × String) × Team
team org = ((org, "team_1"), record { id = "team_1"; organization_id = org; name = "Home" })

abbrev entry : String → (String × (String × String)) × RosterEntry
entry match_id = (
  ("club", (match_id, "p")),
  record {
    organization_id = "club";
    match_id = match_id;
    team_id = "team_1";
    user_id = "p";
    added_at = pos 5;
    added_by = "user_0";
  },
)

abbrev clip : String → (String × (String × String)) × Clip String
clip match_id = (
  ("club", (match_id, "clip_1")),
  record {
    id = "clip_1";
    organization_id = "club";
    match_id = match_id;
    camera_id = "cam";
    storage_key = "k";
    content_hash = "h";
    size_bytes = 1;
    uploaded_at = pos 5;
    uploaded_by = "user_0";
    sync = none;
  },
)

abbrev camera : String → (String × String) × Camera
camera org = (
  (org, "cam"),
  record {
    id = "cam";
    organization_id = org;
    venue_id = "v";
    model = "m";
    registered_at = pos 0;
    registered_by = "user_0";
  },
)

abbrev teams : Table (String × String) Team
teams = two (team "club") (team "guest")

abbrev teams' : Table (String × String) Team
teams' = two (team "guest") (team "club")

abbrev rosters : RosterStore
rosters = two (entry "final") (entry "semi")

abbrev rosters' : RosterStore
rosters' = two (entry "semi") (entry "final")

abbrev clips : ClipStore String
clips = two (clip "final") (clip "semi")

abbrev clips' : ClipStore String
clips' = two (clip "semi") (clip "final")

abbrev cameras : CameraStore
cameras = two (camera "club") (camera "guest")

abbrev cameras' : CameraStore
cameras' = two (camera "guest") (camera "club")

listings-Collects_example :
    Collects
      (λ k. k.0 ≡ "club")
      teams
      (list_by_organization "club" teams)
      (list_by_organization "club" teams')
    × Collects
        (λ k. (k.0 ≡ "club") × (k.1.0 ≡ "final"))
        rosters
        (list_by_match "club" "final" rosters)
        (list_by_match "club" "final" rosters')
    × Collects
        (λ k. (k.0 ≡ "club") × (k.1.0 ≡ "final"))
        clips
        (list_clips_by_match "club" "final" clips)
        (list_clips_by_match "club" "final" clips')
    × Collects (λ k. k.0 ≡ "club") cameras (cameras_of "club" cameras) (cameras_of "club" cameras')
listings-Collects_example =
    listings-Collects "club" "final" teams teams' rosters rosters' clips clips' cameras cameras'
      (swapped (team "club") (team "guest") refl refl)
      (swapped (entry "final") (entry "semi") refl refl)
      (swapped (clip "final") (clip "semi") refl refl)
      (swapped (camera "club") (camera "guest") refl refl)
