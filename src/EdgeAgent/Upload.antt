-- ===== src/EdgeAgent/Upload.antt =====
-- edge-agent's transports: internal/transport, internal/uploader, and the retry loop of cmd/main.go.
-- `World` is what an attempt can change: the network and the gateway behind it.
pub mod Retry
use Prim.Native.String.{◌++◌ as text_append}
use cricket_drs_system.Prelude.{
  ℕ, zero, suc, not, String, Bool, Option, some, none, List, ◌==◌, string_eq, nat_eq, if◌then◌else◌,
}
use cricket_drs_system.Bearer.{bearer_header}
use cricket_drs_system.Exec.{Result, ok, err}

-- `transport.RejectedError`, and any other error, which is a failure that may pass.
pub data UploadError : Type 0 where
  rejected : ℕ → String → UploadError
  failed : String → UploadError

-- A response whose body was read: the text, and what decodes of it as `uploadResponse` and as
-- `errorResponse`.
pub record Reply : Type 0 where
  pub status : ℕ
  pub body : String
  pub id : Option String
  pub error : Option String

-- `httpClient.Do` of a POST: URL, `Authorization` header and body; `none` where the request, or
-- reading the response, fails.
abbrev pub Post : Type 0 → Type 0
Post World = String → String → List ℕ → World → Option Reply × World

-- `url.PathEscape` and `url.Values.Encode` of the one parameter
pub record Escapes : Type 0 where
  pub path_escape : String → String
  pub camera_query : String → String

-- What `Upload` makes of a response.
unfoldable pub classify : Option Reply → Result UploadError String
classify none = err (failed "uploader: request failed")
classify (some r) =
    if not (nat_eq r.status 201)
    then elim r.error [
      | none ↦ err (rejected r.status r.body)
      | some e ↦ if e == "" then err (rejected r.status r.body) else err (rejected r.status e)
    ]
    else elim r.id [
      | none ↦ err (failed "uploader: decode response")
      | some id ↦
          if id == "" then err (failed "uploader: gateway response missing clip id") else ok id
    ]

-- The endpoint of `Upload`
unfoldable pub endpoint : Escapes → String → String → String → String → String
endpoint escapes base_url org_id match_id camera_id = text_append base_url (
    text_append "/v1/organizations/" (
      text_append (escapes.path_escape org_id) (
        text_append "/matches/" (
          text_append (escapes.path_escape match_id)
            (text_append "/clips?" (escapes.camera_query camera_id))))))

-- `Uploader`: one attempt with the token, the tenant, the match, the camera and the bytes.
abbrev pub Uploader : Type 0 → Type 0
Uploader World =
    String → String → String → String → List ℕ → World → Result UploadError String × World

-- `Client.Upload` of internal/uploader
unfoldable pub upload : {World : Type 0} → Post World → Escapes → String → Uploader World
unfolding classify endpoint
upload post escapes base_url token org_id match_id camera_id bytes w =
    let (reply, w') =
      post (endpoint escapes base_url org_id match_id camera_id) (bearer_header token) bytes w in
    (classify reply, w')

-- What follows one attempt, with what the further attempts would give.
abbrev pub settled :
    {World : Type 0}
    → Result UploadError String
    → World
    → Result UploadError String × World
    → Result UploadError String × World
settled (ok id) w further = (ok id, w)
settled (err (rejected status message)) w further = (err (rejected status message), w)
settled (err (failed what)) w further = further

-- The loop of `uploadWithRetry`, with so many attempts left, after the last one's result.
unfoldable pub attempts :
    {World : Type 0}
    → (World → Result UploadError String × World)
    → ℕ
    → Result UploadError String
    → World
    → Result UploadError String × World
attempts try zero last w = (last, w)
attempts try (suc left) last w =
    let (r, w') = try w in let further = attempts try left r w' in settled r w' further

abbrev pub max_upload_attempts : ℕ
max_upload_attempts = 3

-- `uploadWithRetry`. The loop runs, so the result that it starts with is never returned.
unfoldable pub upload_with_retry :
    {World : Type 0}
    → Uploader World
    → String
    → String
    → String
    → String
    → List ℕ
    → World
    → Result UploadError String × World
upload_with_retry u token org_id match_id camera_id encoded w =
    attempts (u token org_id match_id camera_id encoded) max_upload_attempts (err (failed "")) w
