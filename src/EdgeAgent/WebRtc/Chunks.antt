-- ===== src/EdgeAgent/WebRtc/Chunks.antt =====
-- The chunks of a clip: together they are the clip, and none is larger than a message may be.
use cricket_drs_system.Prelude.{
  ℕ, zero, suc, ◌+◌, ◌-◌, ◌≤◌, ◌<◌, min, ◌≡◌, refl, ◌∙◌, Bool-cases, inl, inr, List, [], ◌∷◌, ◌++◌,
  length, take, drop, length-drop, length-take, drop-drop, drop_all, take_all, take-append-drop,
  All, ltb, leb, arith, sym, append_assoc,
}
use cricket_drs_system.EdgeAgent.WebRtc.{chunk_size, slice, chunks_from, chunks}

-- All of the parts, one after the other.
unfoldable pub joined : List (List ℕ) → List ℕ
joined [] = []
joined (c ∷ cs) = c ++ joined cs

-- A chunk that the loop may send: not empty, and within the limit.
abbrev pub IsChunk : List ℕ → Type 0
IsChunk c = (0 < length c) × (length c ≤ chunk_size)

slice-take :
    (start : ℕ) (bytes : List ℕ)
    → slice start (min (start + chunk_size) (length bytes)) bytes
      ≡ take chunk_size (drop start bytes)
unfolding slice
slice-take start bytes = elim (Bool-cases (leb (start + chunk_size) (length bytes))) [
  | inl within ↦
      let same : min (start + chunk_size) (length bytes) - start ≡ chunk_size = ground arith in
      rw same refl
  | inr beyond ↦
      let same : min (start + chunk_size) (length bytes) - start ≡ length bytes - start =
        ground arith in
      rw same (
        take_all (length bytes - start) (drop start bytes) (omega (arith, length-drop start bytes))
        ∙ sym (take_all chunk_size (drop start bytes) (ground (arith, length-drop start bytes))))
]

chunks_from-joined :
    (rounds : ℕ) (bytes : List ℕ) (start : ℕ)
    → length bytes ≤ start + rounds
    → (joined (chunks_from rounds bytes start) ≡ drop start bytes)
      × All IsChunk (chunks_from rounds bytes start)
unfolding chunks_from joined
chunks_from-joined zero bytes start h = (sym (drop_all start bytes (omega arith)), tt)
chunks_from-joined (suc rounds) bytes start h = elim (Bool-cases (ltb start (length bytes))) [
  | inr over ↦ rw over (sym (drop_all start bytes (ground arith)), tt)
  | inl more ↦
      let (rest, small) = chunks_from-joined rounds bytes (start + chunk_size) (ground arith) in
      let whole = take-append-drop chunk_size (drop start bytes) in
      rw (more, slice-take start bytes)
        (
          rw (rest, sym (drop-drop start chunk_size bytes)) whole,
          (
            ground (arith, length-take chunk_size (drop start bytes), length-drop start bytes),
            small,
          ),
        )
]

-- The loop sends chunks that are, one after the other, exactly the clip, none of them empty or
-- larger than 16 KiB, in at most as many rounds as the clip has bytes.
pub chunks-joined : (bytes : List ℕ) → (joined (chunks bytes) ≡ bytes) × All IsChunk (chunks bytes)
unfolding chunks
chunks-joined bytes = chunks_from-joined (length bytes) bytes 0 (omega arith)

pub joined-append : (cs ds : List (List ℕ)) → joined (cs ++ ds) ≡ joined cs ++ joined ds
unfolding joined
joined-append [] ds = refl
joined-append (c ∷ cs) ds = rw (joined-append cs ds) (sym (append_assoc c (joined cs) (joined ds)))
