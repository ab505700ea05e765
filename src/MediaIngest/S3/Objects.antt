-- ===== src/MediaIngest/S3/Objects.antt =====
-- A bucket that holds what the object store in memory holds, through the calls of both.
use cricket_drs_system.Prelude.{
  ℕ, String, ◌≡◌, refl, ◌⊎◌, inl, inr, some, none, List, arith, ◌==◌, string_eq, eq_refl,
  Bool-cases, ◌&&◌, ◌∙◌, sym, if◌then◌else◌,
}
use cricket_drs_system.Exec.{ok, err}
use cricket_drs_system.Table.{lookup, put, lookup-put}
use cricket_drs_system.MediaIngest.Domain.{dependency}
use cricket_drs_system.MediaIngest.Store.{MemoryStore, get_object}
use cricket_drs_system.MediaIngest.S3.{Got, found, no_such_key, failed, Api, Laws, s3_put, s3_get}

Got-cases : (g : Got) → ((bytes : List ℕ) × (g ≡ found bytes)) ⊎ ((g ≡ no_such_key) ⊎ (g ≡ failed))
Got-cases (found bytes) = inl (bytes, refl)
Got-cases no_such_key = inr (inl refl)
Got-cases failed = inr (inr refl)

module _ {World : Type 0} (api : Api World) (laws : Laws api) (bucket : String) where
  -- The bucket holds just what the memory holds.
  abbrev pub SameObjects : World → MemoryStore → Type 0
  SameObjects w m = (key : String) → laws.contents w bucket key ≡ lookup key m

  put-SameObjects :
      (key : String) (bytes : List ℕ) (w w' : World) (m : MemoryStore)
      → SameObjects w m
      → ((b k : String)
          → laws.contents w' b k
            ≡ (if bucket == b && key == k then some bytes else laws.contents w b k))
      → SameObjects w' (put key bytes m)
  put-SameObjects key bytes w w' m same stored k =
      ground (arith, stored bucket k, same k, lookup-put key k bytes m, eq_refl bucket)

  pub put_cases :
      (key : String) (bytes : List ℕ) (w : World) (m : MemoryStore)
      → SameObjects w m
      → ((s3_put api bucket key bytes w).0 ≡ ok tt
          × SameObjects (s3_put api bucket key bytes w).1 (put key bytes m))
        ⊎ (((s3_put api bucket key bytes w).0 ≡ err (dependency "objectstore: s3 put"))
            × (SameObjects (s3_put api bucket key bytes w).1 m
                ⊎ SameObjects (s3_put api bucket key bytes w).1 (put key bytes m)))
  unfolding s3_put
  put_cases key bytes w m same =
      let w' = (api.put_object bucket key bytes w).1 in
      elim (Bool-cases (api.put_object bucket key bytes w).0) [
        | inl done ↦ inl (
          rw done refl,
          put-SameObjects key bytes w w' m same
              (λ b k. laws.put_stored bucket key bytes w b k done),
        )
        | inr refused ↦ elim (laws.put_failed bucket key bytes w refused) [
          | inl kept ↦ inr (rw refused refl, inl (λ k. kept bucket k ∙ same k))
          | inr stored ↦ inr (rw refused refl, inr (put-SameObjects key bytes w w' m same stored))
        ]
      ]

  pub get_cases :
      (key : String) (w : World) (m : MemoryStore)
      → SameObjects w m
      → SameObjects (s3_get api bucket key w).1 m
        × (((s3_get api bucket key w).0 ≡ get_object key m)
            ⊎ ((s3_get api bucket key w).0 ≡ err (dependency "objectstore: s3 get")))
  unfolding s3_get get_object
  get_cases key w m same = (
    (λ k. laws.get_keeps bucket key w bucket k ∙ same k),
    elim (Got-cases (api.get_object bucket key w).0) [
      | inl (bytes, e) ↦
          let held : lookup key m ≡ some bytes =
            sym (same key) ∙ laws.get_found bucket key w bytes e in
          inl (ground (arith, e, held))
      | inr (inl e) ↦
          let free : lookup key m ≡ none = sym (same key) ∙ laws.get_missing bucket key w e in
          inl (ground (arith, e, free))
      | inr (inr e) ↦ inr (rw e refl)
    ],
  )
