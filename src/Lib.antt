-- ===== src/Lib.antt =====
-- A model of the Go code of the cricket DRS system, and what holds of it.
--
-- The parts. identity-access keeps organizations, users and the consents of players, and issues the
-- tokens that every service verifies with the shared key of platformauth. match-tournament keeps
-- tournaments, teams, matches and rosters; before it puts a player on a roster it asks
-- identity-access, with the caller's own token, whether the player has consented. edge-agent runs
-- at a venue: it keeps the last seconds of video and sound, and on a trigger packs the frames into
-- a clip and uploads it. media-ingest-gateway takes the clips: it asks camera-calibration whether
-- the camera is registered, and keeps a clip's bytes in an object store and its record with their
-- hash. A clip comes over HTTP, or in chunks over a WebRTC data channel that an HTTP request opens.
-- camera-calibration keeps the cameras of a tenant and their calibration profiles.
--
-- The files.
-- - Prelude, Exec, Table, Bearer: shared names, lists, integers; methods that may fail and that
--   keep what they wrote (Exec/Related: run from two related states); Go maps, as association lists
--   in an arbitrary order (Table/Order: one map in two orders); the `Authorization` header.
--   Startup: the environment and the outcome of the services' programs.
-- - Platformauth: services/platformauth/role.go and devkey.go. Platformauth/Tokens: verifier.go and
--   issuer.go, over a JWT library that is given by the laws of the record `Jwt`.
-- - IdentityAccess/Domain, Store, Service, Http: services/identity-access/internal/domain,
--   memstore, service and httpapi, one function for each Go function; `serve` is a whole request.
--   Security: internal/security. Interleaving: InviteUser of service/user.go cut at its store calls,
--   with two at the same time. Captures: the same of CaptureConsent of service/consent.go. Proofs:
--   Invariant, Isolation, Consent, Accounts, Interleaving/Kept, Interleaving/Race,
--   Captures/Entries, Captures/Lost, Order (what does not depend on the order of a map; Order/View
--   is the quotient of the stores by that order).
-- - MatchTournament/Domain, Store, Service, Http, Client: the same of
--   services/match-tournament/internal, with identityaccess/client.go and security (Security).
--   Proofs: Invariant, Roster, Conditions.
-- - EdgeAgent/Buffer, Capture, ClipFormat, Wav, Config, Upload, WebRtc, Server, Agent, Main:
--   edge-agent/internal/buffer, capture (the microphone, and the choice of a device; Capture/Devices
--   lists, opens and closes the devices), clipformat, wav, config, transport and uploader,
--   webrtcupload, and cmd/main.go (Server: the local server; Agent: the capture loops and the choice
--   of a transport; Main: `main`). Bytes: encoding/binary. Proofs: Buffer/Window, Capture/Mix,
--   Capture/Pinned, ClipFormat/RoundTrip, ClipFormat/Truncated, Upload/Retry, WebRtc/Chunks,
--   WebRtc/Delivery, Agent/Timeline, Server/Trigger, Server/Audio, Config/Overflow.
-- - MediaIngest/Domain, Store, Service, Client, Http, Security:
--   services/media-ingest-gateway/internal/domain, memstore and objectstore/memory.go, service,
--   cameracalibration, httpapi, security. The use-cases that move bytes are over the interface
--   `ObjectStore`, which Store fills in memory and S3, objectstore/s3.go, over a bucket.
--   Http/Channel is the data channel of httpapi/webrtc.go. Proofs: Uploads, Integrity,
--   Http/Integrity, Http/Created, S3/Refines.
-- - CameraCalibration/Domain, Store, Service, Http, Security:
--   services/camera-calibration/internal/domain, memstore, service, httpapi, security. Proofs:
--   Invariant, Status.
-- - Main in each of the four services: its cmd/main.go, from the environment to what is served.
-- - Observability: services/observability, the CORS middleware of identity-access and
--   camera-calibration, and the order in which the routers mount them. Proofs:
--   Observability/Transparent.
-- - Platform: what holds of services together. Platform itself, the consent check of match-tournament
--   against identity-access; Cameras, the camera check of media-ingest-gateway against
--   camera-calibration; Clips, a trigger of edge-agent into media-ingest-gateway; Channel, the same
--   over WebRTC, as a relation of moves (Channel/Outcome: beside an upload over HTTP); Identity, a login at identity-access used at every service;
--   Deployment, identity-access and match-tournament as their programs start them; Listings, the
--   stores' listings, in any order; Url, the texts that are one plain segment of a path.
-- - The Tests of each part apply its theorems to concrete inputs.
--
-- How the code is read. A repository's method runs under its lock, so it is one step, and a
-- request is a function of the state before it. What a request draws from its surroundings (random
-- identifiers, the clock, the answer of another service) is an argument. A body is absent where
-- its JSON does not decode. Libraries are parameters with the laws that the code relies on: the
-- JWT library, the password hasher, SHA-256, floating-point numbers, JPEG, HTTP, WebRTC, S3, the
-- media devices, chi's Recoverer, otelhttp, escaping, strconv.Atoi. An error of S3 may be told
-- after the object was stored. Times are integers of nanoseconds. The 64-bit, 32-bit and 16-bit
-- fields of the file formats, and the product that makes a `time.Duration`, keep their
-- wrap-around. Every loop is a structural recursion: the retry loop on the attempts that are left,
-- which start at three, and the decoder's on the number of frames. The send loop over a clip's
-- chunks has as many rounds as the clip has bytes, which are enough, since every round sends a
-- byte at least.
--
-- Two clients put an identifier into a URL without escaping it: the consent checker of
-- match-tournament and the camera client of media-ingest-gateway. What a router makes of any other
-- identifier than one of ASCII letters and digits, "-" and "_" is not modelled, but for a camera's
-- name that ends in "/calibration". So the results that go through these clients are for such
-- identifiers, and they suppose that a request for a path, written out in the record or synonym
-- `Reaches`, is answered by the handler that the router of the other service has for it.
--
-- Not modelled: the router's matching of a path to a handler, the rendering of the metrics, the
-- exporter of the traces, the programs' own logs, the copy of a frame's pixels, the time limits of
-- a transfer except as outcomes, the stubs review-orchestration and analytics-reporting, and the
-- parts of the repository that are not in Go. Two requests that run at the same time are two
-- requests one after the other here, though the Go code takes the locks method by method; only the
-- two invitations of IdentityAccess/Interleaving and the two captures of IdentityAccess/Captures
-- are cut at their store calls.
pub mod Prelude
pub mod Exec
pub mod Startup
pub mod Observability
pub mod Table
pub mod Bearer
pub mod Platformauth
pub mod IdentityAccess
pub mod MatchTournament
pub mod Platform
pub mod EdgeAgent
pub mod MediaIngest
pub mod CameraCalibration
