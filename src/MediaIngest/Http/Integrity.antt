-- ===== src/MediaIngest/Http/Integrity.antt =====
-- That every state which requests and data channels lead to has clips with the bytes of their
-- records.
use mathlib.Core.Path.{subst}
use cricket_drs_system.Prelude.{
  String, ℕ, ◌≡◌, Option, some, none, List, [], take, arith, string_eq,
}
use cricket_drs_system.Table.{lookup}
use cricket_drs_system.MediaIngest.Domain.{OrganizationId, MatchId, CameraId, Scores}
use cricket_drs_system.MediaIngest.Service
use cricket_drs_system.MediaIngest.Service.{State, Caller, new_id, storage_key_of}
use cricket_drs_system.MediaIngest.Integrity.{
  IsIntact, upload_clip-IsIntact, submit_sync_offset-IsIntact,
}
use cricket_drs_system.MediaIngest.Http
use cricket_drs_system.MediaIngest.Http.{Environment, Route, handle, serve}
use cricket_drs_system.MediaIngest.Http.Channel.{Receiver, handle_clip_data_channel}

module _ (f : Scores) (hash : List ℕ → String) where
  -- The surroundings of a step: the one hash, and random text that no storage key ends in yet.
  pub record Suits (env : Environment) (s : State f.Score) : Type 0 where
    pub same_hash : env.hash ≡ hash
    pub unused :
        (org : OrganizationId) (match_id : MatchId)
        → lookup (storage_key_of org match_id (new_id "clip" env.fresh)) s.objects ≡ none

  -- What requests, and the data channels that offers open, lead to from empty stores.
  pub data Reachable : State f.Score → Type 0 where
    empty : Reachable (record { clips = []; objects = [] })
    request :
        {s s' : State f.Score} (env : Environment) (header : String) (route : Route f.Score)
        → Suits env s
        → Reachable s
        → (serve f env header route s).1 ≡ s'
        → Reachable s'
    channel :
        {s s' : State f.Score} (env : Environment) (caller : Caller) (token : String)
        (org : OrganizationId) (match_id : MatchId) (camera_id : CameraId) (r : Receiver)
        → Suits env s
        → Reachable s
        → (handle_clip_data_channel f env caller token org match_id camera_id r s).1 ≡ s'
        → Reachable s'

  upload-IsIntact :
      (env : Environment) (caller : Caller) (token : String) (org : OrganizationId)
      (match_id : MatchId) (camera_id : CameraId) (content : Option (List ℕ)) (s : State f.Score)
      → Suits env s
      → IsIntact f hash s
      → IsIntact f hash
          (Service.upload_clip f env.cameras env.hash caller token org match_id camera_id content
            env.fresh env.now s).1
  upload-IsIntact env caller token org match_id camera_id content s suits h = rw suits.same_hash (
      upload_clip-IsIntact f hash env.cameras caller token org match_id camera_id content env.fresh
        env.now s (suits.unused org match_id) h)

  handle-IsIntact :
      (env : Environment) (caller : Caller) (token : String) (route : Route f.Score)
      (s : State f.Score)
      → Suits env s
      → IsIntact f hash s
      → IsIntact f hash (handle f env caller token route s).1
  unfolding handle Service.get_clip_of Service.list_clips Service.download_clip
  handle-IsIntact env caller token (Http.upload_clip org match_id camera_id bytes) s suits h =
      ground (arith, upload-IsIntact env caller token org match_id camera_id bytes s suits h)
  handle-IsIntact env caller token (Http.webrtc_offer org match_id camera_id size offer) s suits h =
      h
  handle-IsIntact env caller token (Http.list_clips org match_id) s suits h = ground arith
  handle-IsIntact env caller token (Http.get_clip org match_id id) s suits h = ground arith
  handle-IsIntact env caller token (Http.download_clip org match_id id) s suits h = ground arith
  handle-IsIntact env caller token (Http.submit_sync org match_id id none) s suits h = h
  handle-IsIntact env caller token (Http.submit_sync org match_id id (some req)) s suits h =
      ground (
        arith,
        submit_sync_offset-IsIntact f hash caller org match_id id req.reference_clip_id
            req.offset_ms req.correlation_score env.now s h,
      )

  serve-IsIntact :
      (env : Environment) (header : String) (route : Route f.Score) (s : State f.Score)
      → Suits env s
      → IsIntact f hash s
      → IsIntact f hash (serve f env header route s).1
  unfolding serve
  serve-IsIntact env header route s suits h = grind (arith, handle-IsIntact)

  handle_clip_data_channel-IsIntact :
      (env : Environment) (caller : Caller) (token : String) (org : OrganizationId)
      (match_id : MatchId) (camera_id : CameraId) (r : Receiver) (s : State f.Score)
      → Suits env s
      → IsIntact f hash s
      → IsIntact f hash (handle_clip_data_channel f env caller token org match_id camera_id r s).1
  unfolding handle_clip_data_channel
  handle_clip_data_channel-IsIntact env caller token org match_id camera_id r s suits h = ground (
    arith,
    upload-IsIntact env caller token org match_id camera_id (some (take r.size r.buf)) s suits h,
  )

  -- In every state that requests with any headers and bodies, and data channels with any messages,
  -- lead to from empty stores, every stored clip is under its own key and has bytes of the recorded
  -- hash and size. This is for random identifiers that no storage key ends in when they are drawn.
  pub reachable-IsIntact : (s : State f.Score) → Reachable s → IsIntact f hash s
  reachable-IsIntact s empty = tt
  reachable-IsIntact s (request env header route suits before same) =
      subst (IsIntact f hash) same
        (serve-IsIntact env header route _ suits (reachable-IsIntact _ before))
  reachable-IsIntact s (channel env caller token org match_id camera_id r suits before same) =
      subst (IsIntact f hash) same (
        handle_clip_data_channel-IsIntact env caller token org match_id camera_id r _ suits
          (reachable-IsIntact _ before))
