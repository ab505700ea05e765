-- ===== src/MediaIngest/S3/Refines.antt =====
-- The service over S3 against the service over the object store in memory.
use cricket_drs_system.Prelude.{
  ℕ, String, ◌≡◌, refl, ◌⊎◌, inl, inr, Option, List, [], ◌∷◌, ◌++◌, arith, string_eq, ap,
}
use cricket_drs_system.Prelude.Int.{Time, ℤ}
use cricket_drs_system.Exec.{Result, ok, err}
use cricket_drs_system.MediaIngest.Domain.{
  OrganizationId, MatchId, CameraId, ClipId, Scores, Clip, Error, dependency,
}
use cricket_drs_system.MediaIngest.Store.{ObjectStore, memory_objects, create_clip, put_object}
use cricket_drs_system.MediaIngest.Service.{
  State, StateOver, Caller, CameraRegistry, new_id, storage_key_of, upload_clip_to, get_clip_of,
  download_clip_from, list_clips, submit_sync_offset,
}
use cricket_drs_system.MediaIngest.S3.{Api, Laws, s3_objects}
use cricket_drs_system.MediaIngest.S3.Objects.{SameObjects, put_cases, get_cases}
use cricket_drs_system.MediaIngest.S3.Stages.{
  checks, store_clip, upload-checks, fetch, download-fetch,
}

-- What the service is asked for.
pub data Operation (Score : Type 0) : Type 0 where
  upload :
      Caller
      → String
      → OrganizationId
      → MatchId
      → CameraId
      → Option (List ℕ)
      → String
      → Time
      → Operation Score
  download get : Caller → OrganizationId → MatchId → ClipId → Operation Score
  listing : Caller → OrganizationId → MatchId → Operation Score
  sync : Caller → OrganizationId → MatchId → ClipId → ClipId → ℤ → Score → Time → Operation Score

pub data Answer (Score : Type 0) : Type 0 where
  clip : Result Error (Clip Score) → Answer Score
  content : Result Error (Clip Score × List ℕ) → Answer Score
  clips : Result Error (List (Clip Score)) → Answer Score

module _ (f : Scores) (cameras : CameraRegistry) (hash : List ℕ → String) {Objects : Type 0}
    (store : ObjectStore Objects) where
  unfoldable pub perform :
      Operation f.Score → StateOver f.Score Objects → Answer f.Score × StateOver f.Score Objects
  perform (upload caller token org match camera bytes fresh now) s =
      let (r, s') =
        upload_clip_to f store cameras hash caller token org match camera bytes fresh now s in
      (clip r, s')
  perform (download caller org match id) s =
      let (r, s') = download_clip_from f store caller org match id s in (content r, s')
  perform (get caller org match id) s =
      let (r, s') = get_clip_of f caller org match id s in (clip r, s')
  perform (listing caller org match) s =
      let (r, s') = list_clips f caller org match s in (clips r, s')
  perform (sync caller org match id reference offset_ms score now) s =
      let (r, s') = submit_sync_offset f caller org match id reference offset_ms score now s in
      (clip r, s')

  -- The answers to a history of requests, and the state after it.
  unfoldable pub run :
      List (Operation f.Score)
      → StateOver f.Score Objects
      → List (Answer f.Score) × StateOver f.Score Objects
  run [] s = ([], s)
  run (o ∷ os) s = let (a, s') = perform o s in let (more, s2) = run os s' in (a ∷ more, s2)

-- An answer that says that S3 was not available.
abbrev pub Unavailable : {Score : Type 0} → Answer Score → Type 0
Unavailable a =
    (a ≡ clip (err (dependency "objectstore: s3 put")))
    ⊎ (a ≡ content (err (dependency "objectstore: s3 get")))

module _ {World : Type 0} (api : Api World) (laws : Laws api) (bucket : String) (f : Scores)
    (cameras : CameraRegistry) (hash : List ℕ → String) where
  abbrev pub Same : StateOver f.Score World → State f.Score → Type 0
  Same s t = (s.clips ≡ t.clips) × SameObjects api laws bucket s.objects t.objects

  store_clip-Same :
      (key : String) (r : Result Error (Clip f.Score × List ℕ)) (s : StateOver f.Score World)
      (t : State f.Score)
      → Same s t
      → let (a, s') = store_clip f (s3_objects api bucket) key r s in
        let (b, t') = store_clip f memory_objects key r t in
        ((a ≡ b) × Same s' t')
        ⊎ ((a ≡ err (dependency "objectstore: s3 put")) × (s'.clips ≡ s.clips))
  unfolding store_clip create_clip put_object
  store_clip-Same key (err e) s t same = inl (refl, same)
  store_clip-Same key (ok (c, bytes)) s t (records, objects) =
      elim (put_cases api laws bucket key bytes s.objects t.objects objects) [
        | inl (stored, same) ↦ inl (
          ground (arith, stored),
          rw (stored, store_clip) (ap (λ cs. (create_clip c cs).1) records, same),
        )
        | inr (refused, left) ↦ inr (ground (arith, refused), ground (arith, refused))
      ]

  fetch-Same :
      (r : Result Error (Clip f.Score)) (s : StateOver f.Score World) (t : State f.Score)
      → Same s t
      → let (a, s') = fetch f (s3_objects api bucket) r s in
        let (b, t') = fetch f memory_objects r t in
        ((a ≡ b) × Same s' t')
        ⊎ ((a ≡ err (dependency "objectstore: s3 get")) × (s'.clips ≡ s.clips))
  unfolding fetch
  fetch-Same (err e) s t same = inl (refl, same)
  fetch-Same (ok c) s t (records, objects) =
      let (same, answer) = get_cases api laws bucket c.storage_key s.objects t.objects objects in
      elim answer [
        | inl equal ↦ inl (ground (arith, equal), (records, same))
        | inr refused ↦ inr (ground (arith, refused), refl)
      ]

  get_local :
      (caller : Caller) (org : OrganizationId) (match : MatchId) (id : ClipId)
      (s : StateOver f.Score World) (t : State f.Score)
      → s.clips ≡ t.clips
      → ((get_clip_of f caller org match id s).0 ≡ (get_clip_of f caller org match id t).0)
        × ((get_clip_of f caller org match id s).1.clips
            ≡ (get_clip_of f caller org match id t).1.clips)
        × ((get_clip_of f caller org match id s).1.objects ≡ s.objects)
        × ((get_clip_of f caller org match id t).1.objects ≡ t.objects)
  unfolding get_clip_of
  get_local caller org match id s t same = ground arith

  listing_local :
      (caller : Caller) (org : OrganizationId) (match : MatchId) (s : StateOver f.Score World)
      (t : State f.Score)
      → s.clips ≡ t.clips
      → ((list_clips f caller org match s).0 ≡ (list_clips f caller org match t).0)
        × ((list_clips f caller org match s).1.clips ≡ (list_clips f caller org match t).1.clips)
        × ((list_clips f caller org match s).1.objects ≡ s.objects)
        × ((list_clips f caller org match t).1.objects ≡ t.objects)
  unfolding list_clips
  listing_local caller org match s t same = ground arith

  sync_local :
      (caller : Caller) (org : OrganizationId) (match : MatchId) (id reference : ClipId)
      (offset_ms : ℤ) (score : f.Score) (now : Time) (s : StateOver f.Score World)
      (t : State f.Score)
      → s.clips ≡ t.clips
      → ((submit_sync_offset f caller org match id reference offset_ms score now s).0
          ≡ (submit_sync_offset f caller org match id reference offset_ms score now t).0)
        × ((submit_sync_offset f caller org match id reference offset_ms score now s).1.clips
            ≡ (submit_sync_offset f caller org match id reference offset_ms score now t).1.clips)
        × ((submit_sync_offset f caller org match id reference offset_ms score now s).1.objects
            ≡ s.objects)
        × ((submit_sync_offset f caller org match id reference offset_ms score now t).1.objects
            ≡ t.objects)
  unfolding submit_sync_offset create_clip
  sync_local caller org match id reference offset_ms score now s t same = ground arith

  -- One request.
  perform-Same :
      (o : Operation f.Score) (s : StateOver f.Score World) (t : State f.Score)
      → Same s t
      → let (a, s') = perform f cameras hash (s3_objects api bucket) o s in
        let (b, t') = perform f cameras hash memory_objects o t in
        ((a ≡ b) × Same s' t') ⊎ (Unavailable a × (s'.clips ≡ s.clips))
  unfolding perform
  perform-Same (upload caller token org match camera bytes fresh now) s t same =
      rw
        (
          upload-checks f (s3_objects api bucket) cameras hash caller token org match camera bytes
              fresh now s,
          upload-checks f memory_objects cameras hash caller token org match camera bytes fresh now
              t,
        )
        (elim (store_clip-Same (storage_key_of org match (new_id "clip" fresh))
          (checks f cameras hash caller token org match camera bytes fresh now) s t same) [
            | inl (equal, after) ↦ inl (ap clip equal, after)
            | inr (refused, kept) ↦ inr (inl (ap clip refused), kept)
          ])
  perform-Same (download caller org match id) s t same =
      let (looked_up, records, left, right) = get_local caller org match id s t same.0 in
      rw
        (
          download-fetch f (s3_objects api bucket) caller org match id s,
          download-fetch f memory_objects caller org match id t,
          looked_up,
        )
        (elim (fetch-Same (get_clip_of f caller org match id t).0 s t same) [
          | inl (equal, after) ↦ inl (ap content equal, after)
          | inr (refused, kept) ↦ inr (inr (ap content refused), kept)
        ])
  perform-Same (get caller org match id) s t same =
      let (equal, records, left, right) = get_local caller org match id s t same.0 in
      inl (ap clip equal, (records, rw (left, right) same.1))
  perform-Same (listing caller org match) s t same =
      let (equal, records, left, right) = listing_local caller org match s t same.0 in
      inl (ap clips equal, (records, rw (left, right) same.1))
  perform-Same (sync caller org match id reference offset_ms score now) s t same =
      let (equal, records, left, right) =
        sync_local caller org match id reference offset_ms score now s t same.0 in
      inl (ap clip equal, (records, rw (left, right) same.1))

  -- A history that S3 cuts short: up to some request the answers and the state are those of the
  -- object store in memory; that request is told that S3 was not available, and no clip's record is
  -- changed by it.
  pub record Interrupted (os : List (Operation f.Score)) (s : StateOver f.Score World)
      (t : State f.Score) : Type 0 where
    pub before : List (Operation f.Score)
    pub request : Operation f.Score
    pub later : List (Operation f.Score)
    pub parts : os ≡ before ++ (request ∷ later)
    pub as_expected :
        (run f cameras hash (s3_objects api bucket) before s).0
        ≡ (run f cameras hash memory_objects before t).0
    pub same :
        Same
          (run f cameras hash (s3_objects api bucket) before s).1
          (run f cameras hash memory_objects before t).1
    pub unavailable :
        let s' = (run f cameras hash (s3_objects api bucket) before s).1 in
        let (a, after) = perform f cameras hash (s3_objects api bucket) request s' in
        Unavailable a × (after.clips ≡ s'.clips)

  -- The service over S3 answers a history of requests of all kinds, with any arguments, just as it
  -- does over the object store in memory, and holds the same clips and the same objects after it;
  -- or it does so up to a request that is told that S3 was not available, which changes no clip's
  -- record. This is for a bucket that held the same objects before, and an S3 that finds at once
  -- what was put and changes only the key of a call.
  pub run-Refines :
      (os : List (Operation f.Score)) (s : StateOver f.Score World) (t : State f.Score)
      → Same s t
      → let (answers, s') = run f cameras hash (s3_objects api bucket) os s in
        let (expected, t') = run f cameras hash memory_objects os t in
        ((answers ≡ expected) × Same s' t') ⊎ Interrupted os s t
  unfolding run
  run-Refines [] s t same = inl (refl, same)
  run-Refines (o ∷ os) s t same = elim (perform-Same o s t same) [
    | inr refused ↦ inr (record {
      before = [];
      request = o;
      later = os;
      parts = refl;
      as_expected = refl;
      same = same;
      unavailable = refused;
    })
    | inl (equal, after) ↦ elim (run-Refines os _ _ after) [
      | inl (rest, same') ↦ inl (ground (arith, equal, rest), same')
      | inr cut ↦ inr (record {
        before = o ∷ cut.before;
        request = cut.request;
        later = cut.later;
        parts = ap (λ xs. o ∷ xs) cut.parts;
        as_expected = ground (arith, equal, cut.as_expected);
        same = cut.same;
        unavailable = cut.unavailable;
      })
    ]
  ]
