-- ===== src/MediaIngest/Tests/S3.antt =====
-- A bucket as a table that takes every object but an empty one, and a club that uploads a clip,
-- downloads it, and then uploads an empty one.
use cricket_drs_system.Prelude.{
  String, ℕ, ◌≡◌, refl, ◌⊎◌, inl, true, false, Option, some, none, List, [], ◌∷◌, arith, ◌==◌,
  string_eq, pair_eq, ◌&&◌, if◌then◌else◌,
}
use cricket_drs_system.Prelude.Int.{pos}
use cricket_drs_system.Table.{Table, lookup, put, delete, lookup-put}
use cricket_drs_system.MediaIngest.Store.{memory_objects}
use cricket_drs_system.MediaIngest.Service.{StateOver, State, new_id}
use cricket_drs_system.MediaIngest.S3.{Got, found, no_such_key, Api, Laws, s3_objects}
use cricket_drs_system.MediaIngest.S3.Refines.{
  Operation, upload, download, run, Same, Interrupted, run-Refines,
}
use cricket_drs_system.MediaIngest.Tests.{scores, hash, cameras, admin, member}

abbrev Buckets : Type 0
Buckets = Table (String × String) (List ℕ)

abbrev got : Option (List ℕ) → Got
got none = no_such_key
got (some bytes) = found bytes

abbrev api : Api Buckets
api = record {
  put_object = λ bucket key bytes w. elim bytes [
    | [] ↦ (false, w)
    | b ∷ bs ↦ (true, put (bucket, key) (b ∷ bs) w)
  ];
  get_object = λ bucket key w. (got (lookup (bucket, key) w), w);
  delete_object = λ bucket key w. (true, delete (bucket, key) w);
}

put_stored :
    (bucket key : String) (bytes : List ℕ) (w : Buckets) (b k : String)
    → (api.put_object bucket key bytes w).0 ≡ true
    → lookup (b, k) (api.put_object bucket key bytes w).1
      ≡ (if bucket == b && key == k then some bytes else lookup (b, k) w)
put_stored bucket key [] w b k done = absurd (ground arith)
put_stored bucket key (c ∷ cs) w b k done = lookup-put (bucket, key) (b, k) (c ∷ cs) w

put_failed :
    (bucket key : String) (bytes : List ℕ) (w : Buckets)
    → (api.put_object bucket key bytes w).0 ≡ false
    → ((b k : String) → lookup (b, k) (api.put_object bucket key bytes w).1 ≡ lookup (b, k) w)
      ⊎ ((b k : String)
          → lookup (b, k) (api.put_object bucket key bytes w).1
            ≡ (if bucket == b && key == k then some bytes else lookup (b, k) w))
put_failed bucket key [] w refused = inl (λ b k. refl)
put_failed bucket key (c ∷ cs) w refused = absurd (ground arith)

laws : Laws api
laws = record {
  contents = λ w b k. lookup (b, k) w;
  put_stored = put_stored;
  put_failed = put_failed;
  get_keeps = λ bucket key w b k. refl;
  get_found = λ bucket key w bytes e. ground arith;
  get_missing = λ bucket key w e. ground arith;
}

abbrev history : List (Operation ℕ)
history =
    upload admin "t" "club" "final" "cam" (some (3 ∷ 4 ∷ [])) "1" (pos 5)
    ∷ download member "club" "final" (new_id "clip" "1")
    ∷ upload admin "t" "club" "final" "cam" (some []) "2" (pos 6)
    ∷ []

abbrev new_gateway : StateOver ℕ Buckets
new_gateway = record { clips = []; objects = [] }

abbrev new_memory : State ℕ
new_memory = record { clips = []; objects = [] }

run-Refines_example :
    let (answers, s') = run scores cameras hash (s3_objects api "clips") history new_gateway in
    let (expected, t') = run scores cameras hash memory_objects history new_memory in
    ((answers ≡ expected) × Same api laws "clips" scores cameras hash s' t')
    ⊎ Interrupted api laws "clips" scores cameras hash history new_gateway new_memory
unfolding laws lookup
run-Refines_example =
    run-Refines api laws "clips" scores cameras hash history new_gateway new_memory
      (refl, λ key. refl)
