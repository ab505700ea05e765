-- ===== src/Platform/Clips.antt =====
-- A clip from edge-agent to whoever downloads it: the trigger of edge-agent/cmd/main.go, over the
-- HTTP uploader of edge-agent/internal/uploader, into the handlers of
-- services/media-ingest-gateway/internal/httpapi. The world of the uploader is the gateway's state.
use cricket_drs_system.Prelude.{
  ℕ, ◌<◌, ◌^◌, String, ◌≡◌, sym, Option, some, none, List, map, length, All, arith, ap, string_eq,
  Option-cases, inl, inr,
}
use mathlib.Core.Path.{subst}
use cricket_drs_system.Exec.{ok}
use cricket_drs_system.Bearer.{bearer_header}
use cricket_drs_system.EdgeAgent.Buffer.{snapshot}
use cricket_drs_system.EdgeAgent.ClipFormat
use cricket_drs_system.EdgeAgent.ClipFormat.{Jpeg}
use cricket_drs_system.EdgeAgent.ClipFormat.RoundTrip.{Fits, as_stored}
use cricket_drs_system.EdgeAgent.Config.{Config}
use cricket_drs_system.EdgeAgent.Upload.{Post, Reply, Escapes, Uploader, endpoint, classify, upload}
use cricket_drs_system.EdgeAgent.Upload.Retry.{after}
use cricket_drs_system.EdgeAgent.Server.{Server, triggered, handle_trigger}
use cricket_drs_system.EdgeAgent.Server.Trigger.{attempt, handle_trigger-Uploaded}
use cricket_drs_system.MediaIngest.Domain.{Scores, Clip}
use cricket_drs_system.MediaIngest.Service.{State, Caller, download_clip}
use cricket_drs_system.MediaIngest.Http.{
  Environment, Response, Body, ClipResponse, error, clip, clips, content, answer, serve,
  to_clip_response,
}
use cricket_drs_system.MediaIngest.Http
use cricket_drs_system.MediaIngest.Http.Created.{caller_of, serve-Created}
use cricket_drs_system.MediaIngest.Uploads.{download_clip-upload_clip}

-- What a client reads of a response: `none` where the body is no JSON object.
abbrev pub id_of : {Score : Type 0} → Body Score → Option String
id_of (error e) = some ""
id_of (clip c) = some c.id
id_of (clips cs) = none
id_of (content n bytes) = none
id_of (answer sdp) = some ""

abbrev pub error_of : {Score : Type 0} → Body Score → Option String
error_of (error e) = some e
error_of (clip c) = some ""
error_of (clips cs) = none
error_of (content n bytes) = none
error_of (answer sdp) = some ""

abbrev pub reply_of : {Score : Type 0} → (Response Score → String) → Response Score → Reply
reply_of text r = record {
  status = r.status;
  body = text r;
  id = id_of r.body;
  error = error_of r.body;
}

-- The agent's posts of clips reach the gateway's handler, in the state of that moment, with the
-- surroundings of that moment.
abbrev pub Reaches :
    (f : Scores)
    → Post (State f.Score)
    → Escapes
    → Config
    → (State f.Score → Environment)
    → (Response f.Score → String)
    → Type 0
Reaches f post escapes cfg env_in text =
    (bytes : List ℕ) (m : State f.Score)
    → let answered =
        serve f (env_in m) (bearer_header cfg.bearer_token)
          (Http.upload_clip cfg.org_id cfg.match_id cfg.camera_id (some bytes)) m in
      post (endpoint escapes cfg.gateway_url cfg.org_id cfg.match_id cfg.camera_id)
        (bearer_header cfg.bearer_token) bytes m
      ≡ (some (reply_of text answered.0), answered.1)

classify_ok :
    (r : Reply) (id : String) → classify (some r) ≡ ok id → (r.status ≡ 201) × (r.id ≡ some id)
unfolding classify
classify_ok r id h = elim (Option-cases r.id) [
  | inl missing ↦
      absurd (elim (Option-cases r.error) [ inl a ↦ ground arith | inr b ↦ ground arith ])
  | inr (i, named) ↦ elim (Option-cases r.error) [
    | inl a ↦ (ground arith, ground arith)
    | inr b ↦ (ground arith, ground arith)
  ]
]

module _ (f : Scores) (post : Post (State f.Score)) (escapes : Escapes) (cfg : Config)
    (env_in : State f.Score → Environment) (text : Response f.Score → String)
    (reaches : Reaches f post escapes cfg env_in text) where
  abbrev client : Uploader (State f.Score)
  client = upload post escapes cfg.gateway_url

  -- One attempt that the gateway accepts, and a download right after it.
  upload-download :
      (bytes : List ℕ) (m : State f.Score) (id : String) (reader : Caller)
      → reader.organization_id ≡ cfg.org_id
      → (attempt client cfg bytes m).0 ≡ ok id
      → (c : Clip f.Score) × ((download_clip f reader cfg.org_id cfg.match_id id
            (attempt client cfg bytes m).1).0
          ≡ ok (c, bytes))
  unfolding upload to_clip_response
  upload-download bytes m id reader member accepted =
      let env = env_in m in
      let answered =
        serve f env (bearer_header cfg.bearer_token)
          (Http.upload_clip cfg.org_id cfg.match_id cfg.camera_id (some bytes)) m in
      let reached = reaches bytes m in
      let (created, named) = classify_ok (reply_of text answered.0) id (rw reached at accepted) in
      let k =
        serve-Created f env cfg.bearer_token cfg.org_id cfg.match_id cfg.camera_id (some bytes) m
          created in
      let same_id : k.stored.id ≡ id = ground (arith, k.response, named) in
      let back =
        download_clip-upload_clip f env.hash env.cameras (caller_of k.claims) reader
          cfg.bearer_token cfg.org_id cfg.match_id cfg.camera_id bytes env.fresh env.now m k.stored
          member k.done in
      (k.stored, rw (reached, k.after, sym same_id) (ap (λ p. p.0) back))

  -- When a trigger is answered with a clip, any member of the agent's tenant who downloads the clip of
  -- that identifier right after it gets bytes that decode to the frames that the buffer held when
  -- the trigger came, all of them in order, as JPEG compression leaves them. This is where the
  -- agent's posts reach the gateway, for fewer than 2^32 frames that the clip format can hold.
  pub trigger-download :
      {Image : Type 0} (jpeg : Jpeg Image) (s : Server Image) (m : State f.Score) (id : String)
      (n : ℕ) (reader : Caller)
      → s.cfg ≡ cfg
      → All (Fits jpeg) (snapshot s.ring)
      → length (snapshot s.ring) < 2 ^ 32
      → reader.organization_id ≡ cfg.org_id
      → (handle_trigger jpeg client s m).0 ≡ record { status = 200; body = triggered id n }
      → (c : Clip f.Score) × (bytes : List ℕ) × (((download_clip f reader cfg.org_id cfg.match_id id
              (handle_trigger jpeg client s m).1).0
            ≡ ok (c, bytes))
          × (ClipFormat.decode jpeg bytes ≡ ok (map (as_stored jpeg) (snapshot s.ring))))
  trigger-download jpeg s m id n reader same fits few member answered =
      let d = handle_trigger-Uploaded jpeg client s m id n fits few answered in
      let before = after (attempt client cfg d.bytes) d.earlier m in
      let accepted : (attempt client cfg d.bytes before).0 ≡ ok id =
        subst
          (λ k. (attempt client k d.bytes (after (attempt client k d.bytes) d.earlier m)).0 ≡ ok id)
          same d.accepted in
      let left : (handle_trigger jpeg client s m).1 ≡ (attempt client cfg d.bytes before).1 =
        subst
          (λ k.
            (handle_trigger jpeg client s m).1
            ≡ (attempt client k d.bytes (after (attempt client k d.bytes) d.earlier m)).1)
          same d.left in
      let (c, back) = upload-download d.bytes before id reader member accepted in
      (c, d.bytes, (rw left back, d.content))
