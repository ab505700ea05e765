-- ===== src/Platform/Tests/Channel.antt =====
-- A clip of two bytes over a channel.
use cricket_drs_system.Prelude.{
  ℕ, String, some, texts_differ, ◌*◌, ◌≤◌, ◌≡◌, refl, ◌⊎◌, true, [], ◌∷◌, List, length, arith,
}
use cricket_drs_system.Prelude.Int.{pos}
use cricket_drs_system.EdgeAgent.WebRtc.{chunks, chunks_from, slice}
use cricket_drs_system.MediaIngest.Http.Channel.{Receiver, new_receiver, on_message}
use cricket_drs_system.Platformauth.{organizer_admin}
use cricket_drs_system.Platformauth.Tokens.{Claims}
use cricket_drs_system.MediaIngest.Http.{Environment, Response}
use cricket_drs_system.MediaIngest.Http
use cricket_drs_system.MediaIngest.Tests.{scores, hash, cameras, empty}
use cricket_drs_system.Platform.Channel.{
  Link, Moves, sends, delivers, After, at_start, then_moves, After-progress,
}
use cricket_drs_system.Platform.Channel.Outcome.{
  ToldAlike, channel_upload, http_upload, channel_outcome, http_outcome, channel-upload,
}

abbrev clip : List ℕ
clip = 7 ∷ 8 ∷ []

one_chunk : chunks clip ≡ clip ∷ []
unfolding chunks chunks_from slice
one_chunk = refl

abbrev sent : Link
sent = record { unsent = []; in_flight = clip ∷ []; receiver = new_receiver 2 }

abbrev received : Receiver
received = record { size = 2; buf = clip; done = true }

abbrev delivered : Link
delivered = record { unsent = []; in_flight = []; receiver = received }

sent-After : After clip 1 sent
sent-After = then_moves at_start (sends clip [] one_chunk refl refl refl)

all_there : received ≡ on_message clip (new_receiver 2)
unfolding on_message new_receiver
all_there = refl

delivered-After : After clip 2 delivered
delivered-After = then_moves sent-After (delivers clip [] refl refl refl all_there)

After-progress_example :
    (1 ≤ 2 * length (chunks clip)) × ((sent.receiver.done ≡ true) ⊎ ((l : Link) × Moves sent l))
After-progress_example = After-progress clip 1 sent (omega arith) sent-After

abbrev identity : Claims
identity = record { organization_id = "club"; user_id = "user_0"; role = organizer_admin }

-- The body of a response as text, which edge-agent reads only where it is no JSON.
abbrev text : Response scores.Score → String
text r = ""

abbrev env : Environment
env = record {
  fresh = "1";
  now = pos 5;
  verify = λ t. some identity;
  cameras = cameras;
  hash = hash;
  accept = λ offer. Http.no_connection;
}

channel-upload_example :
    ((channel_upload scores env identity "t" "club" "final" "cam" text delivered empty).1
      ≡ (http_upload scores env identity "t" "club" "final" "cam" text clip empty).1)
    × ToldAlike
        (channel_outcome scores env identity "t" "club" "final" "cam" text
          (channel_upload scores env identity "t" "club" "final" "cam" text delivered empty).0)
        (http_outcome scores env identity "t" "club" "final" "cam" text
          (http_upload scores env identity "t" "club" "final" "cam" text clip empty).0)
channel-upload_example =
    channel-upload scores env identity "t" "club" "final" "cam" text clip 2 delivered empty
      (texts_differ "t" "" refl) refl (omega arith) delivered-After refl
