-- ===== src/Database/Meta/Chunks.antt =====
-- database/src/postgres/state_indexer.rs: what the tables of chunks hold after the chunks of a block
-- are written.
use read_rpc.Prelude.{
  ℕ, ◌≡◌, ◌≢◌, refl, sym, ap, ◌∙◌, true, not, ◌&&◌, inl, inr, Option, none, some, Option-cases, [],
  ◌∷◌, ◌==◌, Eq, eqb, filter, is_empty, get_or, if◌then◌else◌, arith, ℕ_eq,
}
use read_rpc.Prelude.HashMap.{HashMap, IsMap, lookup, insert, lookup-insert}
use read_rpc.Views.{CryptoHash, ShardId}
use read_rpc.Blocks.Latest.{or_else}
use read_rpc.Database.Meta.{
  BlockHeightShardId, ChunkPlace, Chunks, ChunkKey, chunk_key_eq, insert_new, insert_unique,
  insert_duplicates, find_stored, is_included,
}

-- The height at which the chunk of a shard was included, or the block's own.
abbrev pub included_at : ℕ → Option ℕ → ℕ
included_at block_height found = get_or found block_height

unfoldable pub height_included : ShardId → Chunks → Option ℕ
height_included shard_id [] = none
height_included shard_id ((chunk_hash, place) ∷ chunks) =
    if place.0 == shard_id then some place.1 else height_included shard_id chunks

pub insert_new_lem :
    {K V : Type 0} ⦃e : Eq K⦄ (k : K) (v : V) (t : HashMap K V)
    → lookup k t ≡ none
    → insert_new k v t ≡ insert k v t
unfolding insert_new
insert_new_lem k v t new = rw (new, insert_new) refl

first_known :
    {V : Type 0} (g : CryptoHash) (v : V) (m : HashMap CryptoHash V) → lookup g ((g, v) ∷ m) ≢ none
unfolding lookup
first_known g v m absent = ground (arith)

later_known :
    {V : Type 0} (g' g : CryptoHash) (v : V) (m : HashMap CryptoHash V)
    → lookup g' m ≢ none
    → lookup g' ((g, v) ∷ m) ≢ none
unfolding lookup
later_known g' g v m known absent = known (ground arith)

find_stored-insert :
    (h : ℕ) (s : ShardId) (key : ChunkKey) (place : ChunkPlace) (t : HashMap ChunkKey ChunkPlace)
    → lookup key t ≡ none
    → find_stored h s (insert key place t)
      ≡ or_else
          (find_stored h s t)
          (if key.1 == h && place.0 == s then some (place.1, place.0) else none)
unfolding find_stored insert lookup
find_stored-insert h s key place [] new = ground arith
find_stored-insert h s key place (row ∷ t) new = ground (arith, find_stored-insert h s key place t)

abbrev pub placed : ShardId → Option ℕ → Option BlockHeightShardId
placed s none = none
placed s (some i) = some (i, s)

-- No chunk of the block is stored.
abbrev pub IsNew : ℕ → HashMap ChunkKey ChunkPlace → Type 0
IsNew h t = (g : CryptoHash) → lookup (g, h) t ≡ none

known_apart :
    {V : Type 0} (g g' : CryptoHash) (m : HashMap CryptoHash V)
    → lookup g m ≡ none
    → lookup g' m ≢ none
    → g ≢ g'
known_apart g g' m absent known same =
    known (ap (λ (k : CryptoHash). lookup k m) (sym same) ∙ absent)

pub find_stored-insert_duplicates :
    (h : ℕ) (s : ShardId) (chunks : Chunks) (t : HashMap ChunkKey ChunkPlace)
    → IsMap chunks
    → ((g : CryptoHash) → lookup g chunks ≢ none → lookup (g, h) t ≡ none)
    → find_stored h s (insert_duplicates h chunks t)
      ≡ or_else (find_stored h s t) (placed s (height_included s chunks))
unfolding insert_duplicates height_included
find_stored-insert_duplicates h s [] t distinct new =
    ground (arith, Option-cases (find_stored h s t))
find_stored-insert_duplicates h s ((g, place) ∷ chunks) t distinct new =
    let missing : lookup (g, h) t ≡ none = new g (first_known g place chunks) in
    rw (insert_new_lem (g, h) place t missing) (
      find_stored-insert_duplicates h s chunks (insert (g, h) place t) distinct.1 (λ g' known.
        ground (
          arith,
          lookup-insert (g, h) (g', h) place t,
          new g' (later_known g' g place chunks known),
          known_apart g g' chunks distinct.0 known,
          ap (λ (k : ChunkKey). k.0) {x = (g, h)} {y = (g', h)},
        ))
      ∙ ap (λ found. or_else found (placed s (height_included s chunks)))
          (find_stored-insert h s (g, h) place t missing)
      ∙ ground (arith, Option-cases (find_stored h s t)))

pub find_stored-new :
    (h : ℕ) (s : ShardId) (t : HashMap ChunkKey ChunkPlace) → IsNew h t → find_stored h s t ≡ none
unfolding find_stored lookup
find_stored-new h s [] new = refl
find_stored-new h s (((g, k), place) ∷ t) new =
    ground (arith, new g, find_stored-new h s t (λ g'. ground (arith, new g')))

pub lookup-insert_new :
    {K V : Type 0} ⦃e : Eq K⦄ (k j : K) (v : V) (t : HashMap K V)
    → lookup j (insert_new k v t) ≡ or_else (lookup j t) (if eqb k j then some v else none)
unfolding insert_new
lookup-insert_new k j v t = elim (Option-cases (lookup k t)) [
  | inl new ↦
      rw (new, insert_new)
        (lookup-insert k j v t
          ∙ ground (arith, ap (λ i. lookup i t), new, Option-cases (lookup j t)))
  | inr (w, found) ↦
      rw (found, insert_new)
        (ground (arith, ap (λ i. lookup i t), found, Option-cases (lookup j t)))
]

abbrev pub stored_at : Option ChunkPlace → Option BlockHeightShardId
stored_at none = none
stored_at (some place) = some (place.1, place.0)

-- What was stored stays, and of the new chunks with one hash the first is stored.
pub lookup-insert_unique :
    (g : CryptoHash) (chunks : Chunks) (t : HashMap CryptoHash BlockHeightShardId)
    → lookup g (insert_unique chunks t) ≡ or_else (lookup g t) (stored_at (lookup g chunks))
unfolding insert_unique lookup
lookup-insert_unique g [] t = ground (arith, Option-cases (lookup g t))
lookup-insert_unique g ((c, place) ∷ chunks) t =
    lookup-insert_unique g chunks (insert_new c (place.1, place.0) t)
    ∙ ground (arith, lookup-insert_new c g (place.1, place.0) t, Option-cases (lookup g t))

-- The chunks of a block that it includes itself.
abbrev own : ℕ → Chunks → Chunks
own h chunks = filter (is_included h) chunks

pub lookup-own :
    (h : ℕ) (g : CryptoHash) (s : ShardId) (chunks : Chunks)
    → lookup g chunks ≡ some (s, h)
    → lookup g (own h chunks) ≡ some (s, h)
unfolding filter lookup
lookup-own h g s [] found = found
lookup-own h g s (c ∷ chunks) found = ground (
  arith,
  lookup-own h g s chunks,
  ap (λ (found : Option ChunkPlace). (get_or found (s, h)).1) found,
)

-- If a block includes all its chunks itself, each stands at its own height.
pub included_at-own :
    (h : ℕ) (s : ShardId) (chunks : Chunks)
    → is_empty (filter (λ chunk. not (is_included h chunk)) chunks) ≡ true
    → included_at h (height_included s chunks) ≡ h
unfolding filter height_included
included_at-own h s [] all = refl
included_at-own h s (c ∷ chunks) all = ground (arith, included_at-own h s chunks)
