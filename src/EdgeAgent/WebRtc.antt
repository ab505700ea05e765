-- ===== src/EdgeAgent/WebRtc.antt =====
-- edge-agent/internal/webrtcupload/client.go: the other transport. The WebRTC library, JSON and the
-- time limits are the calls of the record `Peer`; `World` is the network and what is behind it.
pub mod Chunks
pub mod Delivery
use Prim.Native.String.{◌++◌ as text_append}
use cricket_drs_system.Prelude.{
  ℕ, zero, suc, ◌+◌, ◌*◌, ◌-◌, min, String, Bool, not, Option, some, none, List, [], ◌∷◌, length,
  take, drop, ltb, leb, nat_eq, ◌==◌, string_eq, if◌then◌else◌,
}
use cricket_drs_system.Exec.{Result, ok, err}
use cricket_drs_system.Bearer.{bearer_header}
use cricket_drs_system.EdgeAgent.Upload.{UploadError, rejected, failed, Uploader}

abbrev pub chunk_size : ℕ
chunk_size = 16 * 1024

-- `ackMessage`; a field that the message leaves out is an empty text
pub record AckMessage : Type 0 where
  pub clip_id : String
  pub error : String

-- A response to an offer: its status, and the answer that its body decodes to.
pub record Signal (Answer : Type 0) : Type 0 where
  pub status : ℕ
  pub answer : Option Answer

-- What `Upload` calls. `error_text` is the text of the library's error.
pub record Peer (World : Type 0) : Type 1 where
  pub Answer : Type 0
  -- from `NewPeerConnection` to the end of gathering: the encoded local description
  pub offer : World → Result String (List ℕ) × World
  -- `httpClient.Do`: URL, `Authorization` header, body; `none` where the request fails
  pub do_request : String → String → List ℕ → World → Option (Signal Answer) × World
  -- `SetRemoteDescription`, and the wait until the channel is open
  pub connect : Answer → World → Result String (Unit {0}) × World
  -- `DataChannel.Send`
  pub send : List ℕ → World → Result String (Unit {0}) × World
  -- the first message that decodes, or `none` after `ackTimeout`
  pub wait_ack : World → Option AckMessage × World

-- `url.PathEscape`, and `url.Values.Encode` of a camera and a size
pub record Escapes : Type 0 where
  pub path_escape : String → String
  pub offer_query : String → ℕ → String

-- `clipBytes[start:end]`
unfoldable pub slice : ℕ → ℕ → List ℕ → List ℕ
slice start end bytes = take (end - start) (drop start bytes)

-- The chunks that the loop of `Upload` sends from `start` on, in at most so many rounds.
unfoldable pub chunks_from : ℕ → List ℕ → ℕ → List (List ℕ)
unfolding slice
chunks_from zero bytes start = []
chunks_from (suc rounds) bytes start =
    let rest = chunks_from rounds bytes (start + chunk_size) in
    if ltb start (length bytes)
    then slice start (min (start + chunk_size) (length bytes)) bytes ∷ rest
    else []

-- All chunks: no more rounds than bytes are needed.
unfoldable pub chunks : List ℕ → List (List ℕ)
unfolding chunks_from
chunks bytes = chunks_from (length bytes) bytes 0

-- What `Upload` makes of the ack
unfoldable pub classify_ack : Option AckMessage → Result UploadError String
classify_ack none = err (failed "webrtcupload: timed out waiting for gateway ack")
classify_ack (some ack) =
    if not (ack.error == "")
    then err (rejected 0 ack.error)
    else if ack.clip_id == ""
    then err (failed "webrtcupload: gateway ack missing clip id")
    else ok ack.clip_id

-- What `signal` makes of the response
unfoldable pub classify_signal :
    {Answer : Type 0} → Option (Signal Answer) → Result UploadError Answer
classify_signal none = err (failed "webrtcupload: signaling request failed")
classify_signal (some r) =
    if not (nat_eq r.status 200)
    then err (rejected r.status "signaling rejected")
    else elim r.answer [ none ↦ err (failed "webrtcupload: decode answer") | some a ↦ ok a ]

-- The endpoint of `signal`
unfoldable pub offer_endpoint : Escapes → String → String → String → String → ℕ → String
offer_endpoint escapes base_url org_id match_id camera_id size = text_append base_url (
    text_append "/v1/organizations/" (
      text_append (escapes.path_escape org_id) (
        text_append "/matches/" (
          text_append (escapes.path_escape match_id)
            (text_append "/clips/webrtc-offer?" (escapes.offer_query camera_id size))))))

module _ {World : Type 0} (peer : Peer World) where
  -- `Send` of one chunk after the other, up to the first that fails
  unfoldable pub send_all : List (List ℕ) → World → Result UploadError (Unit {0}) × World
  send_all [] w = (ok tt, w)
  send_all (c ∷ cs) w =
      let (sent, w') = peer.send c w in
      let further = send_all cs w' in
      elim sent [
        | err e ↦ (err (failed (text_append "webrtcupload: send chunk: " e)), w')
        | ok u ↦ further
      ]

  finish : Result UploadError (Unit {0}) × World → Result UploadError String × World
  unfolding classify_ack
  finish (err e, w) = (err e, w)
  finish (ok u, w) = let (ack, w') = peer.wait_ack w in (classify_ack ack, w')

  transfer : List ℕ → Result String (Unit {0}) × World → Result UploadError String × World
  unfolding send_all finish chunks
  transfer bytes (err e, w) = (err (failed e), w)
  transfer bytes (ok u, w) = finish (send_all (chunks bytes) w)

  open_channel : List ℕ → Result UploadError peer.Answer × World → Result UploadError String × World
  unfolding transfer
  open_channel bytes (err e, w) = (err e, w)
  open_channel bytes (ok a, w) = transfer bytes (peer.connect a w)

  -- `signal`
  unfoldable pub signal :
      Escapes
      → String
      → String
      → String
      → String
      → String
      → ℕ
      → List ℕ
      → World
      → Result UploadError peer.Answer × World
  unfolding classify_signal offer_endpoint
  signal escapes base_url token org_id match_id camera_id size description w =
      let (r, w') =
        peer.do_request (offer_endpoint escapes base_url org_id match_id camera_id size)
          (bearer_header token) description w in
      (classify_signal r, w')

  offered :
      Escapes
      → String
      → String
      → String
      → String
      → String
      → List ℕ
      → Result String (List ℕ) × World
      → Result UploadError String × World
  unfolding signal open_channel
  offered escapes base_url token org_id match_id camera_id bytes (err e, w) = (err (failed e), w)
  offered escapes base_url token org_id match_id camera_id bytes (ok d, w) =
      open_channel bytes
        (signal escapes base_url token org_id match_id camera_id (length bytes) d w)

  -- `Client.Upload`
  unfoldable pub upload : Escapes → String → Uploader World
  unfolding offered
  upload escapes base_url token org_id match_id camera_id bytes w =
      offered escapes base_url token org_id match_id camera_id bytes (peer.offer w)
