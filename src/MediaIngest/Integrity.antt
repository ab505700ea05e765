-- ===== src/MediaIngest/Integrity.antt =====
-- That the recorded hash and size of a stored clip fit its bytes.
use cricket_drs_system.Prelude.{
  String, ℕ, ◌≡◌, ◌≢◌, refl, inl, inr, Option, some, none, List, length, All, All-imp, string_eq,
  pair_eq, arith, eq_iff, eq_refl, Option-cases, sym, ◌∙◌,
}
use mathlib.Core.Path.{subst}
use cricket_drs_system.Prelude.Int.{ℤ, Time}
use cricket_drs_system.Exec.{ok, Result-cases}
use cricket_drs_system.Table.{lookup, put, lookup-put}
use cricket_drs_system.Table.Select.{All-put, All-lookup}
use cricket_drs_system.MediaIngest.Domain.{
  OrganizationId, MatchId, CameraId, ClipId, Scores, Clip, apply_sync_offset,
}
use cricket_drs_system.MediaIngest.Store.{
  ClipKey, clip_key, MemoryStore, create_clip, get_clip, get_object,
}
use cricket_drs_system.MediaIngest.Service.{
  State, Caller, CameraRegistry, new_id, storage_key_of, upload_clip, get_clip_of, download_clip,
  submit_sync_offset,
}
use cricket_drs_system.MediaIngest.Uploads.{
  upload_clip-Accepted, upload_clip_failed, upload_clip_key,
}

module _ (f : Scores) (hash : List ℕ → String) where
  -- A clip under its own key, whose stored bytes have the recorded hash and size.
  pub record IntactClip (objects : MemoryStore) (e : ClipKey × Clip f.Score) : Type 0 where
    pub keyed : e.0 ≡ clip_key e.1
    pub bytes : List ℕ
    pub stored : lookup e.1.storage_key objects ≡ some bytes
    pub hashed : hash bytes ≡ e.1.content_hash
    pub sized : length bytes ≡ e.1.size_bytes

  abbrev pub IsIntact : State f.Score → Type 0
  IsIntact s = All (IntactClip s.objects) s.clips

  -- An object under a key that was not taken leaves the clips intact.
  IntactClip-put :
      (key : String) (bytes : List ℕ) (objects : MemoryStore) (e : ClipKey × Clip f.Score)
      → lookup key objects ≡ none
      → IntactClip objects e
      → IntactClip (put key bytes objects) e
  IntactClip-put key bytes objects e free i = record {
    keyed = i.keyed;
    bytes = i.bytes;
    stored =
        ground (
          arith,
          i.stored,
          lookup-put key e.1.storage_key bytes objects,
          eq_iff key e.1.storage_key,
        );
    hashed = i.hashed;
    sized = i.sized;
  }

  -- Where all stored clips have bytes that fit their hashes and sizes, they still do after an
  -- upload, whatever it comes to, if no object stands under the storage key that it draws.
  pub upload_clip-IsIntact :
      (cameras : CameraRegistry) (caller : Caller) (token : String) (org_id : OrganizationId)
      (match_id : MatchId) (camera_id : CameraId) (content : Option (List ℕ)) (fresh : String)
      (now : Time) (s : State f.Score)
      → lookup (storage_key_of org_id match_id (new_id "clip" fresh)) s.objects ≡ none
      → IsIntact s
      → IsIntact
          (upload_clip f cameras hash caller token org_id match_id camera_id content fresh now s).1
  upload_clip-IsIntact cameras caller token org_id match_id camera_id content fresh now s free h =
      elim (Result-cases
        (upload_clip f cameras hash caller token org_id match_id camera_id content fresh now s).0) [
          | inr (e, failed) ↦
              subst IsIntact
                (sym (
                  upload_clip_failed f hash cameras caller token org_id match_id camera_id content
                    fresh now s e failed))
                h
          | inl (c, done) ↦
              let a =
                upload_clip-Accepted f hash cameras caller token org_id match_id camera_id content
                  fresh now s c done in
              let key =
                upload_clip_key f hash cameras caller token org_id match_id camera_id content fresh
                  now s c done in
              let unused : lookup c.storage_key s.objects ≡ none = rw key free in
              let after = put c.storage_key a.bytes s.objects in
              let entry : IntactClip after (clip_key c, c) = record {
                keyed = refl;
                bytes = a.bytes;
                stored = ground (
                  arith,
                  lookup-put c.storage_key c.storage_key a.bytes s.objects,
                  eq_refl c.storage_key,
                );
                hashed = a.hashed;
                sized = a.sized;
              } in
              let kept =
                All-imp (IntactClip s.objects) (IntactClip after) s.clips
                  (λ e i. IntactClip-put c.storage_key a.bytes s.objects e unused i) h in
              rw (a.clips, a.objects) (All-put (IntactClip after) (clip_key c) c s.clips kept entry)
        ]

  -- What a sync offset leaves of the clip that it is recorded on.
  apply_sync_offset_ok :
      (c : Clip f.Score) (reference : ClipId) (offset_ms : ℤ) (score : f.Score) (now : Time)
      (c' : Clip f.Score)
      → apply_sync_offset f c reference offset_ms score now ≡ ok c'
      → (reference ≢ c.id)
        × (clip_key c' ≡ clip_key c)
        × (c'.storage_key ≡ c.storage_key)
        × (c'.content_hash ≡ c.content_hash)
        × (c'.size_bytes ≡ c.size_bytes)
  unfolding apply_sync_offset
  apply_sync_offset_ok c reference offset_ms score now c' applied =
      ground (arith, eq_iff reference c.id)

  -- Recording a sync offset, whatever it comes to, leaves all stored clips with bytes that fit
  -- their hashes and sizes.
  pub submit_sync_offset-IsIntact :
      (caller : Caller) (org_id : OrganizationId) (match_id : MatchId) (clip_id reference : ClipId)
      (offset_ms : ℤ) (score : f.Score) (now : Time) (s : State f.Score)
      → IsIntact s
      → IsIntact
          (submit_sync_offset f caller org_id match_id clip_id reference offset_ms score now s).1
  unfolding submit_sync_offset get_clip create_clip
  submit_sync_offset-IsIntact caller org_id match_id clip_id reference offset_ms score now s h =
      elim (Option-cases (lookup (org_id, (match_id, clip_id)) s.clips)) [
        | inl missing ↦ ground arith
        | inr (c, found) ↦ elim (Option-cases (lookup (org_id, (match_id, reference)) s.clips)) [
          | inl missing ↦ ground arith
          | inr (r, known) ↦
              elim (Result-cases (apply_sync_offset f c reference offset_ms score now)) [
                | inr (e, refused) ↦ ground arith
                | inl (c', applied) ↦
                    let old =
                      All-lookup (IntactClip s.objects) (org_id, (match_id, clip_id)) c s.clips h
                        found in
                    let (other, key, storage, hashed, sized) =
                      apply_sync_offset_ok c reference offset_ms score now c' applied in
                    let entry : IntactClip s.objects (clip_key c', c') = record {
                      keyed = refl;
                      bytes = old.bytes;
                      stored = rw storage old.stored;
                      hashed = old.hashed ∙ sym hashed;
                      sized = old.sized ∙ sym sized;
                    } in
                    ground (arith, All-put (IntactClip s.objects) (clip_key c') c' s.clips h entry)
              ]
        ]
      ]

  -- Of a state whose clips have bytes that fit their hashes and sizes, what a download gives fits
  -- the record beside it, and that record is of the tenant, the match and the clip asked for.
  pub download_clip-intact :
      (caller : Caller) (org_id : OrganizationId) (match_id : MatchId) (clip_id : ClipId)
      (s : State f.Score) (c : Clip f.Score) (bytes : List ℕ)
      → IsIntact s
      → (download_clip f caller org_id match_id clip_id s).0 ≡ ok (c, bytes)
      → (hash bytes ≡ c.content_hash)
        × (length bytes ≡ c.size_bytes)
        × (clip_key c ≡ (org_id, (match_id, clip_id)))
        × (caller.organization_id ≡ org_id)
  unfolding download_clip get_clip_of get_clip get_object
  download_clip-intact caller org_id match_id clip_id s c bytes h done =
      elim (Option-cases (lookup (org_id, (match_id, clip_id)) s.clips)) [
        | inl missing ↦ absurd (ground arith)
        | inr (c', found) ↦
            let entry =
              All-lookup (IntactClip s.objects) (org_id, (match_id, clip_id)) c' s.clips h found in
            elim (Option-cases (lookup c'.storage_key s.objects)) [
              | inl missing ↦ absurd (ground arith)
              | inr (bytes', stored) ↦ ground (
                arith,
                entry.stored,
                entry.hashed,
                entry.sized,
                entry.keyed,
                eq_iff caller.organization_id org_id,
              )
            ]
      ]
