-- ===== src/MediaIngest/Http/Created.antt =====
-- What lies behind an upload over HTTP that is answered with 201.
use cricket_drs_system.Prelude.{
  ℕ, String, ◌≡◌, ◌≢◌, Option, some, List, arith, string_eq, eq_iff, Option-cases, inl, inr,
}
use cricket_drs_system.Exec.{Result, ok, Result-cases}
use cricket_drs_system.Bearer.{bearer_header, after_bearer-bearer_header}
use cricket_drs_system.Platformauth.Tokens.{Claims}
use cricket_drs_system.MediaIngest.Domain.{OrganizationId, MatchId, CameraId, Scores, Clip, Error}
use cricket_drs_system.MediaIngest.Service
use cricket_drs_system.MediaIngest.Service.{State, Caller, authenticate}
use cricket_drs_system.MediaIngest.Http.{
  Environment, Response, upload_clip, clip, to_clip_response, write_service_error, handle, serve,
}

abbrev pub caller_of : Claims → Caller
caller_of c = record { organization_id = c.organization_id; user_id = c.user_id; role = c.role }

module _ (f : Scores) (env : Environment) (token : String) (org : OrganizationId)
    (match_id : MatchId) (id : CameraId) (content : Option (List ℕ)) (s : State f.Score) where
  -- `UploadClip` of the token's claims, and the whole request.
  abbrev pub run : Claims → Result Error (Clip f.Score) × State f.Score
  run c =
      Service.upload_clip f env.cameras env.hash (caller_of c) token org match_id id content
        env.fresh env.now s

  abbrev pub answered : Response f.Score × State f.Score
  answered = serve f env (bearer_header token) (upload_clip org match_id id content) s

  -- The claims of the token, the clip, and that the request did what `UploadClip` does.
  pub record Created : Type 0 where
    pub claims : Claims
    pub verified : env.verify token ≡ some claims
    pub some_token : token ≢ ""
    pub stored : Clip f.Score
    pub done : (run claims).0 ≡ ok stored
    pub response : answered.0 ≡ record { status = 201; body = clip (to_clip_response f stored) }
    pub after : answered.1 ≡ (run claims).1

  wrong_status : (e : Error) → (write_service_error {Score = f.Score} e).status ≢ 201
  unfolding write_service_error
  wrong_status e h = ground arith

  -- An upload that is answered with 201 was of a token that verifies, and gave the clip that
  -- `UploadClip` stored for its claims.
  pub serve-Created : answered.0.status ≡ 201 → Created
  unfolding serve handle write_service_error authenticate
  serve-Created created =
      let bearer = after_bearer-bearer_header token in
      let empty = eq_iff token "" in
      elim (Option-cases (env.verify token)) [
        | inl refused ↦ absurd (ground (arith, bearer))
        | inr (c, verified) ↦ elim (Result-cases (run c).0) [
          | inr (e, failed) ↦ absurd (wrong_status e (ground (arith, bearer, empty)))
          | inl (k, done) ↦ record {
            claims = c;
            verified = verified;
            some_token = ground (arith, bearer, empty);
            stored = k;
            done = done;
            response = ground (arith, bearer, empty);
            after = ground (arith, bearer, empty);
          }
        ]
      ]
