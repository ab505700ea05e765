-- ===== src/MediaIngest/Uploads.antt =====
-- What an upload checks and writes, and that its bytes come back.
use cricket_drs_system.Prelude.{
  String, ℕ, ◌<◌, ◌≡◌, refl, inl, inr, true, false, Option, some, none, List, length, string_eq,
  pair_eq, arith, eq_iff, eq_refl,
}
use cricket_drs_system.Prelude.Int.{Time}
use cricket_drs_system.Exec.{ok, err, Result-cases}
use cricket_drs_system.Table.{lookup, put, lookup-put}
use cricket_drs_system.Platformauth.{organizer_admin}
use cricket_drs_system.MediaIngest.Domain.{
  OrganizationId, MatchId, CameraId, Scores, Clip, Error, new_clip, can_upload_clips,
}
use cricket_drs_system.MediaIngest.Store.{clip_key, create_clip, get_clip, put_object, get_object}
use cricket_drs_system.MediaIngest.Service.{
  State, Caller, CameraRegistry, new_id, storage_key_of, upload_clip, download_clip,
}

module _ (f : Scores) (hash : List ℕ → String) where
  -- What an upload that succeeds has checked, and what it has written.
  pub record Accepted (cameras : CameraRegistry) (caller : Caller) (token : String)
      (org_id : OrganizationId) (match_id : MatchId) (camera_id : CameraId)
      (content : Option (List ℕ)) (now : Time) (s s' : State f.Score) (c : Clip f.Score)
      : Type 0 where
    pub own_tenant : caller.organization_id ≡ org_id
    pub manager : caller.role ≡ organizer_admin
    pub registered : cameras token org_id camera_id ≡ ok true
    pub bytes : List ℕ
    pub read : content ≡ some bytes
    pub some_bytes : 0 < length bytes
    pub tenant : c.organization_id ≡ org_id
    pub of_match : c.match_id ≡ match_id
    pub of_camera : c.camera_id ≡ camera_id
    pub hashed : hash bytes ≡ c.content_hash
    pub sized : length bytes ≡ c.size_bytes
    pub by_caller : c.uploaded_by ≡ caller.user_id
    pub at_time : c.uploaded_at ≡ now
    pub objects : s'.objects ≡ put c.storage_key bytes s.objects
    pub clips : s'.clips ≡ put (clip_key c) c s.clips

  -- An upload that succeeds was by an organizer admin of the tenant, from a camera that the registry
  -- confirmed for the caller's token, of content that is not empty; it stores that content and a
  -- record of it, with its hash, its size, the caller and the time.
  pub upload_clip-Accepted :
      (cameras : CameraRegistry) (caller : Caller) (token : String) (org_id : OrganizationId)
      (match_id : MatchId) (camera_id : CameraId) (content : Option (List ℕ)) (fresh : String)
      (now : Time) (s : State f.Score) (c : Clip f.Score)
      → (upload_clip f cameras hash caller token org_id match_id camera_id content fresh now s).0
        ≡ ok c
      → Accepted cameras caller token org_id match_id camera_id content now s
          (upload_clip f cameras hash caller token org_id match_id camera_id content fresh now s).1
          c
  unfolding upload_clip new_clip put_object create_clip can_upload_clips
  upload_clip-Accepted cameras caller token org_id match_id camera_id none fresh now s c done =
      absurd (elim (Result-cases (cameras token org_id camera_id)) [
        | inl (a, e) ↦ ground arith
        | inr (x, e) ↦ ground arith
      ])
  upload_clip-Accepted cameras caller token org_id match_id camera_id (some bytes) fresh now s c
        done =
      elim (Result-cases (cameras token org_id camera_id)) [
        | inr (x, failed) ↦ absurd (ground arith)
        | inl (false, refused) ↦ absurd (ground arith)
        | inl (true, confirmed) ↦ record {
          own_tenant = ground (arith, eq_iff caller.organization_id org_id);
          manager = ground (arith, eq_iff caller.role organizer_admin);
          registered = confirmed;
          bytes = bytes;
          read = refl;
          some_bytes = ground arith;
          tenant = ground arith;
          of_match = ground arith;
          of_camera = ground arith;
          hashed = ground arith;
          sized = ground arith;
          by_caller = ground arith;
          at_time = ground arith;
          objects = ground arith;
          clips = ground arith;
        }
      ]

  -- A clip that was uploaded is downloaded by any member of its tenant right after it: the same
  -- record, and the bytes of the upload.
  pub download_clip-upload_clip :
      (cameras : CameraRegistry) (caller reader : Caller) (token : String) (org_id : OrganizationId)
      (match_id : MatchId) (camera_id : CameraId) (bytes : List ℕ) (fresh : String) (now : Time)
      (s : State f.Score) (c : Clip f.Score)
      → reader.organization_id ≡ org_id
      → (upload_clip f cameras hash caller token org_id match_id camera_id
          (some bytes)
          fresh
          now
          s).0
        ≡ ok c
      → let s' =
          (upload_clip f cameras hash caller token org_id match_id camera_id
            (some bytes)
            fresh
            now
            s).1 in
        download_clip f reader org_id match_id c.id s' ≡ (ok (c, bytes), s')
  unfolding download_clip get_clip get_object
  download_clip-upload_clip cameras caller reader token org_id match_id camera_id bytes fresh now s
        c member done =
      let a =
        upload_clip-Accepted cameras caller token org_id match_id camera_id (some bytes) fresh now s
          c done in
      let s' =
        (upload_clip f cameras hash caller token org_id match_id camera_id (some bytes) fresh now
          s).1 in
      let content : a.bytes ≡ bytes = ground (arith, a.read) in
      let record_found : lookup (org_id, (match_id, c.id)) s'.clips ≡ some c = rw a.clips (
        ground (
          arith,
          a.tenant,
          a.of_match,
          lookup-put (clip_key c) (org_id, (match_id, c.id)) c s.clips,
          eq_refl c.id,
          eq_refl org_id,
          eq_refl match_id,
        )) in
      let bytes_found : lookup c.storage_key s'.objects ≡ some bytes = rw a.objects (
        ground (
          arith,
          content,
          lookup-put c.storage_key c.storage_key a.bytes s.objects,
          eq_refl c.storage_key,
        )) in
      ground (arith, eq_refl org_id)

  pub upload_clip_failed :
      (cameras : CameraRegistry) (caller : Caller) (token : String) (org_id : OrganizationId)
      (match_id : MatchId) (camera_id : CameraId) (content : Option (List ℕ)) (fresh : String)
      (now : Time) (s : State f.Score) (e : Error)
      → (upload_clip f cameras hash caller token org_id match_id camera_id content fresh now s).0
        ≡ err e
      → (upload_clip f cameras hash caller token org_id match_id camera_id content fresh now s).1
        ≡ s
  unfolding upload_clip put_object create_clip
  upload_clip_failed cameras caller token org_id match_id camera_id none fresh now s e failed =
      ground arith
  upload_clip_failed cameras caller token org_id match_id camera_id (some bytes) fresh now s e
        failed =
      elim (Result-cases (
        new_clip {Score = f.Score} (new_id "clip" fresh) org_id match_id camera_id
          (storage_key_of org_id match_id (new_id "clip" fresh)) (hash bytes) (length bytes)
          caller.user_id now)) [ inl (c, made) ↦ ground arith | inr (x, refused) ↦ ground arith ]

  pub upload_clip_key :
      (cameras : CameraRegistry) (caller : Caller) (token : String) (org_id : OrganizationId)
      (match_id : MatchId) (camera_id : CameraId) (content : Option (List ℕ)) (fresh : String)
      (now : Time) (s : State f.Score) (c : Clip f.Score)
      → (upload_clip f cameras hash caller token org_id match_id camera_id content fresh now s).0
        ≡ ok c
      → c.storage_key ≡ storage_key_of org_id match_id (new_id "clip" fresh)
  unfolding upload_clip new_clip
  upload_clip_key cameras caller token org_id match_id camera_id none fresh now s c done =
      ground arith
  upload_clip_key cameras caller token org_id match_id camera_id (some bytes) fresh now s c done =
      ground arith
