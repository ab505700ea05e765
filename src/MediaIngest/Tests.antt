-- ===== src/MediaIngest/Tests.antt =====
-- The theorems of media-ingest-gateway at a club whose admin uploads two clips of one match. Scores
-- are natural numbers here, of which all up to 100 are in range, and the hash is constant.
mod S3
use cricket_drs_system.Prelude.{
  ℕ, String, ◌≡◌, refl, false, some, none, List, [], ◌∷◌, length, leb, ltb, ◌==◌, string_eq,
  pair_eq,
}
use cricket_drs_system.Prelude.Int.{pos}
use cricket_drs_system.Exec.{ok}
use cricket_drs_system.Table.{lookup, put}
use cricket_drs_system.Platformauth.{organizer_admin, player}
use cricket_drs_system.MediaIngest.Domain.{Scores, Clip, new_clip, can_upload_clips}
use cricket_drs_system.MediaIngest.Store.{clip_key, create_clip, put_object, get_clip, get_object}
use cricket_drs_system.MediaIngest.Service.{
  State, Caller, CameraRegistry, new_id, storage_key_of, upload_clip, get_clip_of, download_clip,
  authenticate,
}
use cricket_drs_system.MediaIngest.Uploads.{
  Accepted, upload_clip-Accepted, download_clip-upload_clip,
}
use cricket_drs_system.Bearer.{after, after_bearer}
use cricket_drs_system.MediaIngest.Http
use cricket_drs_system.MediaIngest.Http.{
  Environment, Route, no_connection, handle, serve, bearer_token,
}
use cricket_drs_system.MediaIngest.Http.Integrity.{Reachable, request, reachable-IsIntact}
use cricket_drs_system.MediaIngest.Integrity.{IsIntact, download_clip-intact}

abbrev pub scores : Scores
scores = record {
  Score = ℕ;
  below_least = λ n. false;
  above_greatest = λ n. ltb 100 n;
  enough = λ n. leb 75 n;
}

abbrev pub hash : List ℕ → String
hash bytes = "h"

abbrev pub cameras : CameraRegistry
cameras token org camera = ok (camera == "cam")

abbrev pub admin : Caller
admin = record { organization_id = "club"; user_id = "user_0"; role = organizer_admin }

abbrev pub member : Caller
member = record { organization_id = "club"; user_id = "user_1"; role = player }

abbrev clip_of : String → Clip ℕ
clip_of fresh = record {
  id = new_id "clip" fresh;
  organization_id = "club";
  match_id = "final";
  camera_id = "cam";
  storage_key = storage_key_of "club" "final" (new_id "clip" fresh);
  content_hash = "h";
  size_bytes = 2;
  uploaded_at = pos 5;
  uploaded_by = "user_0";
  sync = none;
}

-- One clip is there, the other comes.
abbrev start : State ℕ
start = record {
  clips = (clip_key (clip_of "1"), clip_of "1") ∷ [];
  objects = (storage_key_of "club" "final" (new_id "clip" "1"), 7 ∷ 8 ∷ []) ∷ [];
}

start-IsIntact : IsIntact scores hash start
unfolding lookup storage_key_of new_id
start-IsIntact =
    (record { keyed = refl; bytes = 7 ∷ 8 ∷ []; stored = refl; hashed = refl; sized = refl }, tt)

uploaded :
    (upload_clip scores cameras hash admin "t" "club" "final" "cam"
      (some (3 ∷ 4 ∷ []))
      "2"
      (pos 5)
      start).0
    ≡ ok (clip_of "2")
unfolding upload_clip new_clip put_object create_clip can_upload_clips
uploaded = refl

abbrev both : State ℕ
both = record {
  clips = (clip_key (clip_of "1"), clip_of "1") ∷ (clip_key (clip_of "2"), clip_of "2") ∷ [];
  objects =
      (storage_key_of "club" "final" (new_id "clip" "1"), 7 ∷ 8 ∷ [])
      ∷ (storage_key_of "club" "final" (new_id "clip" "2"), 3 ∷ 4 ∷ [])
      ∷ [];
}

both-IsIntact : IsIntact scores hash both
unfolding lookup storage_key_of new_id
both-IsIntact = (
  record { keyed = refl; bytes = 7 ∷ 8 ∷ []; stored = refl; hashed = refl; sized = refl },
  (record { keyed = refl; bytes = 3 ∷ 4 ∷ []; stored = refl; hashed = refl; sized = refl }, tt),
)

downloaded :
    (download_clip scores member "club" "final" (new_id "clip" "2") both).0
    ≡ ok (clip_of "2", 3 ∷ 4 ∷ [])
unfolding download_clip get_clip_of get_clip get_object lookup new_id storage_key_of
downloaded = refl

abbrev pub empty : State ℕ
empty = record { clips = []; objects = [] }

abbrev pub env : Environment
env = record {
  fresh = "1";
  now = pos 5;
  verify =
      λ t. some (record { user_id = "user_0"; organization_id = "club"; role = organizer_admin });
  cameras = cameras;
  hash = hash;
  accept = λ offer. no_connection;
}

abbrev uploading : Route ℕ
uploading = Http.upload_clip "club" "final" "cam" (some (7 ∷ 8 ∷ []))

abbrev one_upload : State ℕ
one_upload = record {
  clips = (clip_key (clip_of "1"), clip_of "1") ∷ [];
  objects = (storage_key_of "club" "final" (new_id "clip" "1"), 7 ∷ 8 ∷ []) ∷ [];
}

one_upload-Reachable : Reachable scores hash one_upload
unfolding lookup serve handle bearer_token after_bearer after authenticate upload_clip new_clip
    put_object create_clip can_upload_clips put new_id storage_key_of
one_upload-Reachable =
    request env "Bearer t" uploading (record { same_hash = refl; unused = λ org match_id. refl })
      Reachable.empty refl

reachable-IsIntact_example : IsIntact scores hash one_upload
reachable-IsIntact_example = reachable-IsIntact scores hash one_upload one_upload-Reachable
