-- ===== src/EdgeAgent/WebRtc/Delivery.antt =====
-- What a WebRTC upload that succeeds has done.
use Prim.Native.String.{◌++◌ as text_append}
use cricket_drs_system.Prelude.{
  All, ℕ, String, ◌≡◌, ◌≢◌, refl, Option, some, none, List, [], ◌∷◌, length, arith, string_eq,
  eq_iff, inl, inr, Option-cases, sym, ap,
}
use mathlib.Core.Path.{subst}
use cricket_drs_system.EdgeAgent.WebRtc.Chunks.{joined, IsChunk, chunks-joined}
use cricket_drs_system.Exec.{ok, Result-cases}
use cricket_drs_system.Bearer.{bearer_header}
use cricket_drs_system.EdgeAgent.WebRtc.{
  Peer, AckMessage, Signal, Escapes, chunks, classify_ack, classify_signal, offer_endpoint,
  send_all, finish, transfer, open_channel, offered, signal, upload,
}

module _ {World : Type 0} (peer : Peer World) where
  -- Every one of the messages was sent, in this order, between the two worlds.
  pub data Sent : List (List ℕ) → World → World → Type 0 where
    nothing : {w w' : World} → w ≡ w' → Sent [] w w'
    one_more :
        {c : List ℕ} {cs : List (List ℕ)} {w w' : World}
        → (peer.send c w).0 ≡ ok tt
        → Sent cs (peer.send c w).1 w'
        → Sent (c ∷ cs) w w'

  -- The clip was sent in parts that are, one after the other, exactly its bytes, none of them empty
  -- or larger than 16 KiB; and the gateway's ack named the clip and no error.
  pub record Finished (bytes : List ℕ) (w : World) (id : String) : Type 0 where
    pub parts : List (List ℕ)
    pub whole : joined parts ≡ bytes
    pub small : All IsChunk parts
    pub sent_in : World
    pub sent : Sent parts w sent_in
    pub ack : AckMessage
    pub acknowledged : (peer.wait_ack sent_in).0 ≡ some ack
    pub no_error : ack.error ≡ ""
    pub named : ack.clip_id ≡ id
    pub some_id : id ≢ ""

  -- The offer was described and answered with status 200, the channel opened, and the transfer
  -- finished.
  pub record Delivered (escapes : Escapes) (base_url token org match_id camera_id : String)
      (bytes : List ℕ) (w : World) (id : String) : Type 0 where
    pub description : List ℕ
    pub described : (peer.offer w).0 ≡ ok description
    pub response : Signal peer.Answer
    pub answered_in : World
    pub signalled :
        peer.do_request
          (text_append base_url (
            text_append "/v1/organizations/" (
              text_append (escapes.path_escape org) (
                text_append "/matches/" (
                  text_append (escapes.path_escape match_id) (
                    text_append "/clips/webrtc-offer?"
                      (escapes.offer_query camera_id (length bytes))))))))
          (bearer_header token)
          description
          (peer.offer w).1
        ≡ (some response, answered_in)
    pub ok_status : response.status ≡ 200
    pub answer : peer.Answer
    pub decoded : response.answer ≡ some answer
    pub connected : (peer.connect answer answered_in).0 ≡ ok tt
    pub finished : Finished bytes (peer.connect answer answered_in).1 id

  send_all-Sent :
      (cs : List (List ℕ)) (w : World)
      → (send_all peer cs w).0 ≡ ok tt
      → Sent cs w (send_all peer cs w).1
  unfolding send_all
  send_all-Sent [] w h = nothing refl
  send_all-Sent (c ∷ cs) w h = elim (Result-cases (peer.send c w).0) [
    | inr (e, refused) ↦ absurd (ground arith)
    | inl (u, gone) ↦
        let w' = (peer.send c w).1 in
        let rest : send_all peer (c ∷ cs) w ≡ send_all peer cs w' = ground arith in
        subst (Sent (c ∷ cs) w) (sym (ap (λ p. p.1) rest))
          (one_more gone (send_all-Sent cs w' (ground (arith, rest, h))))
  ]

  classify_ack_ok :
      (a : Option AckMessage) (id : String)
      → classify_ack a ≡ ok id
      → (m : AckMessage) × ((a ≡ some m) × (m.error ≡ "") × (m.clip_id ≡ id) × (id ≢ ""))
  unfolding classify_ack
  classify_ack_ok none id h = absurd (ground arith)
  classify_ack_ok (some m) id h = (
    m,
    (
      refl,
      ground (arith, eq_iff m.error ""),
      ground (arith, eq_iff m.clip_id ""),
      ground (arith, eq_iff m.clip_id ""),
    ),
  )

  classify_signal_ok :
      (r : Option (Signal peer.Answer)) (a : peer.Answer)
      → classify_signal r ≡ ok a
      → (m : Signal peer.Answer) × ((r ≡ some m) × (m.status ≡ 200) × (m.answer ≡ some a))
  unfolding classify_signal
  classify_signal_ok none a h = absurd (ground arith)
  classify_signal_ok (some m) a h = elim (Option-cases m.answer) [
    | inl missing ↦ absurd (ground arith)
    | inr (b, there) ↦ (m, (refl, ground arith, ground arith))
  ]

  finish-Finished :
      (bytes : List ℕ) (w : World) (id : String)
      → (finish peer (send_all peer (chunks bytes) w)).0 ≡ ok id
      → Finished bytes w id
  unfolding finish
  finish-Finished bytes w id done =
      let s = send_all peer (chunks bytes) w in
      elim (Result-cases s.0) [
        | inr (e, failed) ↦ absurd (ground arith)
        | inl (u, sent) ↦
            let (k, (acked, no_error, named, some_id)) =
              classify_ack_ok (peer.wait_ack s.1).0 id (ground arith) in
            record {
              parts = chunks bytes;
              whole = (chunks-joined bytes).0;
              small = (chunks-joined bytes).1;
              sent_in = s.1;
              sent = send_all-Sent (chunks bytes) w sent;
              ack = k;
              acknowledged = acked;
              no_error = no_error;
              named = named;
              some_id = some_id;
            }
      ]

  -- An upload over WebRTC that succeeds has had its offer answered with status 200 at the URL of
  -- the match, whose query names the camera and the clip's number of bytes, with the caller's token;
  -- it has then sent, over the channel that the answer opened, parts that are in order exactly the
  -- bytes of the clip, none empty or larger than 16 KiB; and it gives the identifier, not empty, that
  -- the gateway acknowledged without an error.
  pub upload-Delivered :
      (escapes : Escapes) (base_url token org match_id camera_id : String) (bytes : List ℕ)
      (w : World) (id : String)
      → (upload peer escapes base_url token org match_id camera_id bytes w).0 ≡ ok id
      → Delivered escapes base_url token org match_id camera_id bytes w id
  unfolding upload offered signal open_channel transfer offer_endpoint
  upload-Delivered escapes base_url token org match_id camera_id bytes w id done =
      elim (Result-cases (peer.offer w).0) [
        | inr (e, failed) ↦ absurd (ground arith)
        | inl (d, described) ↦
            let r =
              peer.do_request
                (offer_endpoint escapes base_url org match_id camera_id (length bytes))
                (bearer_header token) d (peer.offer w).1 in
            elim (Result-cases (classify_signal r.0)) [
              | inr (e, failed) ↦ absurd (ground arith)
              | inl (a, signalled) ↦ elim (Result-cases (peer.connect a r.1).0) [
                | inr (e, failed) ↦ absurd (ground arith)
                | inl (u, opened) ↦
                    let (m, (same, status, answer)) = classify_signal_ok r.0 a signalled in
                    record {
                      description = d;
                      described = described;
                      response = m;
                      answered_in = r.1;
                      signalled = ground arith;
                      ok_status = status;
                      answer = a;
                      decoded = answer;
                      connected = opened;
                      finished = finish-Finished bytes (peer.connect a r.1).1 id (ground arith);
                    }
              ]
            ]
      ]
