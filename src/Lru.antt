-- ===== src/Lru.antt =====
-- rpc-server/src/cache.rs: `LruMemoryCache`, a least-recently-used cache bounded by the memory that
-- its values take, over the `lru` crate, which is bounded by a number of items. A `usize` has 64
-- bits. `RwLockLruMemoryCache` puts a lock round each method and adds nothing to it.
pub mod Size
pub mod Reads
use read_rpc.Prelude.{
  ℕ, zero, suc, ◌+◌, ◌*◌, ◌-◌, ◌≤◌, ◌<◌, ◌≡◌, Bool, true, false, Option, none, some, List, [], ◌∷◌,
  ◌++◌, Eq, length, ltb, ◌==◌, if◌then◌else◌, add_u64, sub_u64, u64_mod, is_some,
}
use Prim.Native.Nat.{min}
use read_rpc.Prelude.HashMap.{lookup, remove}

-- `lru::LruCache`, by its documented behaviour: `entries` are the items, the most recent first.
pub record LruCrate (K V : Type 0) ⦃e : Eq K⦄ : Type 1 where
  pub State : Type 0
  pub new : ℕ → State
  pub put : K → V → State → Option V × State
  pub pop_lru : State → Option (K × V) × State
  pub peek : K → State → Option V
  pub len : State → ℕ
  pub cap : State → ℕ
  pub resize : ℕ → State → State
  pub entries : State → List (K × V)
  pub entries-new : (c : ℕ) → entries (new c) ≡ []
  pub cap-new : (c : ℕ) → cap (new c) ≡ c
  pub len_entries : (s : State) → len s ≡ length (entries s)
  pub peek_entries : (k : K) (s : State) → peek k s ≡ lookup k (entries s)
  pub entries-resize :
      (c : ℕ) (s : State) → length (entries s) ≤ c → entries (resize c s) ≡ entries s
  pub cap-resize : (c : ℕ) (s : State) → cap (resize c s) ≡ c
  pub put_value : (k : K) (v : V) (s : State) → (put k v s).0 ≡ lookup k (entries s)
  pub entries-put :
      (k : K) (v : V) (s : State)
      → length (entries s) < cap s
      → entries (put k v s).1 ≡ (k, v) ∷ remove k (entries s)
  pub cap-put : (k : K) (v : V) (s : State) → cap (put k v s).1 ≡ cap s
  pub pop_lru_empty : (s : State) → entries s ≡ [] → (pop_lru s).0 ≡ none
  pub pop_lru_value :
      (s : State) (xs : List (K × V)) (x : K × V)
      → entries s ≡ xs ++ x ∷ []
      → (pop_lru s).0 ≡ some x
  pub entries-pop_lru :
      (s : State) (xs : List (K × V)) (x : K × V)
      → entries s ≡ xs ++ x ∷ []
      → entries (pop_lru s).1 ≡ xs
  pub cap-pop_lru : (s : State) → cap (pop_lru s).1 ≡ cap s

abbrev pub initial_capacity : ℕ
initial_capacity = 10

abbrev pub usize_max : ℕ
usize_max = u64_mod - 1

module _ {K V : Type 0} ⦃e : Eq K⦄ (l : LruCrate K V) (size_of_val : V → ℕ) where
  pub record LruMemoryCache : Type 0 where
    pub inner : l.State
    pub current_size : ℕ
    pub max_size : ℕ

  unfoldable pub new : ℕ → LruMemoryCache
  new max_size = record { inner = l.new initial_capacity; current_size = 0; max_size = max_size }

  abbrev pub popped : LruMemoryCache → l.State → K × V → LruMemoryCache
  popped c inner (_, v) = record c {
    inner = inner;
    current_size = sub_u64 c.current_size (size_of_val v);
  }

  -- The `while` loop, on fuel: each round but the last takes an item out.
  unfoldable pub decrease : ℕ → LruMemoryCache → LruMemoryCache
  decrease zero c = c
  decrease (suc fuel) c = elim (ltb c.max_size c.current_size) [
    | true ↦
        let (lru, inner) = l.pop_lru c.inner in
        elim lru [
          | some item ↦ decrease fuel (popped c inner item)
          | none ↦ record c { inner = inner }
        ]
    | false ↦ c
  ]

  -- Twice the capacity, saturating, when the cache is full.
  unfoldable pub grow : l.State → l.State
  grow inner =
      if l.len inner == l.cap inner then l.resize (min (l.cap inner * 2) usize_max) inner else inner

  -- What the displaced value took is given back.
  abbrev pub displaced : ℕ → Option V → ℕ
  displaced size none = size
  displaced size (some v) = sub_u64 size (size_of_val v)

  unfoldable pub store : K → V → LruMemoryCache → LruMemoryCache
  store key val c =
      let (lru, inner) = l.put key val (grow c.inner) in
      record c {
        inner = inner;
        current_size = displaced (add_u64 c.current_size (size_of_val val)) lru;
      }

  -- One round more than there are items: the loop has ended by then.
  unfoldable pub put : K → V → LruMemoryCache → LruMemoryCache
  put key val c = let c' = store key val c in decrease (suc (l.len c'.inner)) c'

  unfoldable pub get : K → LruMemoryCache → Option V
  get key c = l.peek key c.inner

  unfoldable pub contains : K → LruMemoryCache → Bool
  contains key c = is_some (l.peek key c.inner)

  unfoldable pub len : LruMemoryCache → ℕ
  len c = l.len c.inner
