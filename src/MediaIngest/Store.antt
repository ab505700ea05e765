-- ===== src/MediaIngest/Store.antt =====
-- services/media-ingest-gateway/internal/memstore and objectstore/memory.go: the clips' records, and
-- their bytes in memory, as an `ObjectStore` of internal/service/ports.go.
use cricket_drs_system.Prelude.{
  ℕ, String, ◌&&◌, none, some, List, [], ◌∷◌, ◌==◌, string_eq, pair_eq, if◌then◌else◌,
}
use cricket_drs_system.Exec.{Result, ok, err, Exec, reads}
use cricket_drs_system.Table.{Table, lookup, put, delete}
use cricket_drs_system.MediaIngest.Domain.{
  OrganizationId, MatchId, ClipId, Clip, Error, clip_not_found, dependency,
}

-- `clipKey`
abbrev pub ClipKey : Type 0
ClipKey = OrganizationId × (MatchId × ClipId)

abbrev pub ClipStore : Type 0 → Type 0
ClipStore Score = Table ClipKey (Clip Score)

abbrev pub clip_key : {Score : Type 0} → Clip Score → ClipKey
clip_key c = (c.organization_id, (c.match_id, c.id))

module _ {Score : Type 0} where
  -- `ClipStore.Create`
  unfoldable pub create_clip : Clip Score → Exec Error (ClipStore Score) (Unit {0})
  create_clip c s = (ok tt, put (clip_key c) c s)

  -- `ClipStore.Get`
  unfoldable pub get_clip :
      OrganizationId → MatchId → ClipId → ClipStore Score → Result Error (Clip Score)
  get_clip org_id match_id clip_id s = elim (lookup (org_id, (match_id, clip_id)) s) [
    | none ↦ err clip_not_found
    | some c ↦ ok c
  ]

  -- `ClipStore.ListByMatch`
  unfoldable pub list_clips_by_match :
      OrganizationId → MatchId → ClipStore Score → List (Clip Score)
  list_clips_by_match org_id match_id [] = []
  list_clips_by_match org_id match_id ((k, c) ∷ s) =
      let rest = list_clips_by_match org_id match_id s in
      if k.0 == org_id && k.1.0 == match_id then c ∷ rest else rest

-- `service.ObjectStore`: what an adapter does to what it keeps.
pub record ObjectStore (Objects : Type 0) : Type 0 where
  pub put : String → List ℕ → Exec Error Objects (Unit {0})
  pub get : String → Exec Error Objects (List ℕ)
  pub delete : String → Exec Error Objects (Unit {0})

abbrev pub MemoryStore : Type 0
MemoryStore = Table String (List ℕ)

-- `MemoryStore.Put`
unfoldable pub put_object : String → List ℕ → Exec Error MemoryStore (Unit {0})
put_object key bytes s = (ok tt, put key bytes s)

-- `MemoryStore.Get`
unfoldable pub get_object : String → MemoryStore → Result Error (List ℕ)
get_object key s = elim (lookup key s) [
  | none ↦ err (dependency "object not found")
  | some bytes ↦ ok bytes
]

-- `MemoryStore.Delete`
unfoldable pub delete_object : String → Exec Error MemoryStore (Unit {0})
delete_object key s = (ok tt, delete key s)

-- `objectstore.MemoryStore` as an `ObjectStore`
abbrev pub memory_objects : ObjectStore MemoryStore
memory_objects = record {
  put = put_object;
  get = λ key. reads (get_object key);
  delete = delete_object;
}
