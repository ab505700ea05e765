-- ===== src/MediaIngest/S3.antt =====
-- services/media-ingest-gateway/internal/objectstore/s3.go: the object store over an S3 bucket. The
-- S3 client is a parameter with the laws that the code relies on.
mod Objects
mod Stages
pub mod Refines
use cricket_drs_system.Prelude.{
  ℕ, String, ◌≡◌, ◌⊎◌, Bool, true, false, Option, some, none, List, ◌==◌, ◌&&◌, string_eq,
  if◌then◌else◌,
}
use cricket_drs_system.Exec.{Result, ok, err, Exec}
use cricket_drs_system.MediaIngest.Domain.{Error, dependency}
use cricket_drs_system.MediaIngest.Store.{ObjectStore}

-- What `GetObject` gives: the content, the error `NoSuchKey`, or another error.
pub data Got : Type 0 where
  found : List ℕ → Got
  no_such_key failed : Got

-- `s3API`: each call names the bucket and the key; `false` is an error.
pub record Api (World : Type 0) : Type 0 where
  pub put_object : String → String → List ℕ → World → Bool × World
  pub get_object : String → String → World → Got × World
  pub delete_object : String → String → World → Bool × World

module _ {World : Type 0} (api : Api World) (bucket : String) where
  -- `S3Store.Put`
  unfoldable pub s3_put : String → List ℕ → Exec Error World (Unit {0})
  s3_put key bytes w =
      let (stored, w') = api.put_object bucket key bytes w in
      (if stored then ok tt else err (dependency "objectstore: s3 put"), w')

  -- `S3Store.Get`, with the whole content at once: that reading the stream may fail later is left out
  unfoldable pub s3_get : String → Exec Error World (List ℕ)
  s3_get key w =
      let (got, w') = api.get_object bucket key w in
      (
        elim got [
          | found bytes ↦ ok bytes
          | no_such_key ↦ err (dependency "object not found")
          | failed ↦ err (dependency "objectstore: s3 get")
        ],
        w',
      )

  -- `S3Store.Delete`
  unfoldable pub s3_delete : String → Exec Error World (Unit {0})
  s3_delete key w =
      let (deleted, w') = api.delete_object bucket key w in
      (if deleted then ok tt else err (dependency "objectstore: s3 delete"), w')

  -- `S3Store` as an `ObjectStore`
  abbrev pub s3_objects : ObjectStore World
  s3_objects = record { put = s3_put; get = s3_get; delete = s3_delete }

-- What S3 documents: an object that was put is found at once, and only its own key changes. A put
-- that fails may have stored the object.
pub record Laws {World : Type 0} (api : Api World) : Type 0 where
  pub contents : World → String → String → Option (List ℕ)
  pub put_stored :
      (bucket key : String) (bytes : List ℕ) (w : World) (b k : String)
      → (api.put_object bucket key bytes w).0 ≡ true
      → contents (api.put_object bucket key bytes w).1 b k
        ≡ (if bucket == b && key == k then some bytes else contents w b k)
  pub put_failed :
      (bucket key : String) (bytes : List ℕ) (w : World)
      → (api.put_object bucket key bytes w).0 ≡ false
      → ((b k : String) → contents (api.put_object bucket key bytes w).1 b k ≡ contents w b k)
        ⊎ ((b k : String)
            → contents (api.put_object bucket key bytes w).1 b k
              ≡ (if bucket == b && key == k then some bytes else contents w b k))
  pub get_keeps :
      (bucket key : String) (w : World) (b k : String)
      → contents (api.get_object bucket key w).1 b k ≡ contents w b k
  pub get_found :
      (bucket key : String) (w : World) (bytes : List ℕ)
      → (api.get_object bucket key w).0 ≡ found bytes
      → contents w bucket key ≡ some bytes
  pub get_missing :
      (bucket key : String) (w : World)
      → (api.get_object bucket key w).0 ≡ no_such_key
      → contents w bucket key ≡ none
