-- ===== src/Platform/Channel.antt =====
-- A clip on its way over a WebRTC data channel: the send loop of
-- edge-agent/internal/webrtcupload/client.go against `OnMessage` of
-- services/media-ingest-gateway/internal/httpapi/webrtc.go. The channel keeps the order of messages
-- and loses none, as WebRTC says of its default; sending and delivering interleave in any way.
pub mod Outcome
use cricket_drs_system.Prelude.{
  ℕ, zero, suc, ◌+◌, ◌*◌, ◌≤◌, ◌<◌, ◌≡◌, refl, sym, ◌∙◌, ◌⊎◌, inl, inr, Bool, true, false, ◌||◌,
  List, [], ◌∷◌, ◌++◌, length, length-append, take, take_all, leb, arith, ap, Bool-cases,
  append_assoc, append-nil,
}
use cricket_drs_system.EdgeAgent.WebRtc.{chunks}
use cricket_drs_system.EdgeAgent.WebRtc.Chunks.{joined, joined-append, chunks-joined}
use cricket_drs_system.MediaIngest.Http.Channel.{Receiver, new_receiver, on_message}

-- What is still to be sent, what is on its way, and the receiver's buffer.
pub record Link : Type 0 where
  pub unsent : List (List ℕ)
  pub in_flight : List (List ℕ)
  pub receiver : Receiver

-- One of the two sides moves.
pub data Moves (l l' : Link) : Type 0 where
  sends :
      (c : List ℕ) (cs : List (List ℕ))
      → l.unsent ≡ c ∷ cs
      → l'.unsent ≡ cs
      → l'.in_flight ≡ l.in_flight ++ (c ∷ [])
      → l'.receiver ≡ l.receiver
      → Moves l l'
  delivers :
      (m : List ℕ) (ms : List (List ℕ))
      → l.in_flight ≡ m ∷ ms
      → l'.unsent ≡ l.unsent
      → l'.in_flight ≡ ms
      → l'.receiver ≡ on_message m l.receiver
      → Moves l l'

abbrev pub opened : List ℕ → Link
opened clip = record { unsent = chunks clip; in_flight = []; receiver = new_receiver (length clip) }

-- What so many moves lead to from the opening of the channel for a clip.
pub data After (clip : List ℕ) : ℕ → Link → Type 0 where
  at_start : After clip 0 (opened clip)
  then_moves : {n : ℕ} {l l' : Link} → After clip n l → Moves l l' → After clip (suc n) l'

module _ (clip : List ℕ) where
  -- The clip is what was received, then what is on its way, then what is not sent yet.
  record Carries (n : ℕ) (l : Link) : Type 0 where
    pub whole : l.receiver.buf ++ (joined l.in_flight ++ joined l.unsent) ≡ clip
    pub size : l.receiver.size ≡ length clip
    pub done : l.receiver.done ≡ leb (length clip) (length l.receiver.buf)
    pub budget : n + (length l.in_flight + 2 * length l.unsent) ≡ 2 * length (chunks clip)

  -- Sending a chunk changes nothing of the bytes in front of the receiver.
  joined_sent :
      (flying : List (List ℕ)) (c : List ℕ) (cs : List (List ℕ))
      → joined (flying ++ (c ∷ [])) ++ joined cs ≡ joined flying ++ joined (c ∷ cs)
  unfolding joined
  joined_sent flying c cs =
      rw (joined-append flying (c ∷ []), append-nil c) (append_assoc (joined flying) c (joined cs))

  opened-Carries : 0 < length clip → Carries 0 (opened clip)
  unfolding new_receiver
  opened-Carries some_bytes = record {
    whole = unfold joined in (chunks-joined clip).0;
    size = refl;
    done = ground arith;
    budget = ground arith;
  }

  Carries-Moves : (n : ℕ) (l l' : Link) → Carries n l → Moves l l' → Carries (suc n) l'
  unfolding on_message joined
  Carries-Moves n l l' h (sends c cs was unsent flying same) = record {
    whole = rw (same, flying, unsent, joined_sent l.in_flight c cs) (rw was at h.whole);
    size = rw same h.size;
    done = rw same h.done;
    budget = ground (arith, h.budget, length-append l.in_flight (c ∷ []));
  }
  Carries-Moves n l l' h (delivers m ms was unsent flying now) = record {
    whole =
        rw (now, unsent, flying)
          (append_assoc l.receiver.buf m (joined ms ++ joined l.unsent)
            ∙ ap (λ xs. l.receiver.buf ++ xs) (sym (append_assoc m (joined ms) (joined l.unsent)))
            ∙ rw was at h.whole);
    size = rw now h.size;
    done = rw now (ground (arith, h.done, h.size, length-append l.receiver.buf m));
    budget = ground (arith, h.budget);
  }

  After-Carries : (n : ℕ) (l : Link) → 0 < length clip → After clip n l → Carries n l
  After-Carries zero l some_bytes at_start = opened-Carries some_bytes
  After-Carries (suc n) l some_bytes (then_moves before move) =
      Carries-Moves n _ l (After-Carries n _ some_bytes before) move

  nothing_left : (xs ys : List ℕ) → xs ++ ys ≡ clip → length clip ≤ length xs → xs ≡ clip
  nothing_left xs [] h enough = sym (append-nil xs) ∙ h
  nothing_left xs (y ∷ ys) h enough =
      let sizes : length (xs ++ (y ∷ ys)) ≡ length clip = ap (λ zs. length zs) h in
      absurd (omega (arith, sizes, length-append xs (y ∷ ys)))

  -- Of a clip that is not empty, however sending and delivering interleave: when the receiver has
  -- marked the transfer as done, the bytes that it hands on are exactly the clip.
  pub After-intact :
      (n : ℕ) (l : Link)
      → 0 < length clip
      → After clip n l
      → l.receiver.done ≡ true
      → take l.receiver.size l.receiver.buf ≡ clip
  After-intact n l some_bytes a finished =
      let h = After-Carries n l some_bytes a in
      let whole =
        nothing_left l.receiver.buf (joined l.in_flight ++ joined l.unsent) h.whole
          (ground (arith, h.done)) in
      rw (h.size, whole) (take_all (length clip) clip (omega arith))

  go_on_or_done :
      (n : ℕ) (unsent flying : List (List ℕ)) (r : Receiver)
      → let l : Link = record { unsent = unsent; in_flight = flying; receiver = r } in
        Carries n l → (r.done ≡ true) ⊎ ((l' : Link) × Moves l l')
  unfolding joined
  go_on_or_done n (c ∷ cs) flying r h = inr (
    record { unsent = cs; in_flight = flying ++ (c ∷ []); receiver = r },
    sends c cs refl refl refl refl,
  )
  go_on_or_done n [] (m ∷ ms) r h = inr (
    record { unsent = []; in_flight = ms; receiver = on_message m r },
    delivers m ms refl refl refl refl,
  )
  go_on_or_done n [] [] r h =
      let whole : r.buf ≡ clip = sym (append-nil r.buf) ∙ h.whole in inl (ground (arith, h.done))

  -- Of a clip that is not empty, however sending and delivering interleave: there are at most twice
  -- as many moves as the clip has chunks, and as long as the transfer is not done one of the two
  -- sides can move; so it is done after finitely many moves.
  pub After-progress :
      (n : ℕ) (l : Link)
      → 0 < length clip
      → After clip n l
      → (n ≤ 2 * length (chunks clip)) × ((l.receiver.done ≡ true) ⊎ ((l' : Link) × Moves l l'))
  After-progress n l some_bytes a =
      let h = After-Carries n l some_bytes a in
      (omega (arith, h.budget), go_on_or_done n l.unsent l.in_flight l.receiver h)
