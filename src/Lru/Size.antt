-- ===== src/Lru/Size.antt =====
-- rpc-server/src/cache.rs: the size that the cache keeps is the size of its values, and a `put`
-- evicts from the least recent end, as many items as needed and no more.
use Prim.Native.Nat.{min}
use read_rpc.Prelude.{
  ℕ, zero, suc, ◌+◌, ◌*◌, ◌^◌, ◌≤◌, ◌<◌, ◌≡◌, refl, sym, ap, ◌∙◌, ◌⊎◌, inl, inr, true, false,
  Option, none, some, List, [], ◌∷◌, ◌++◌, Eq, length, length-append, ltb, ◌==◌, add_u64, sub_u64,
  add_u64_exact, sub_u64_exact, u64_mod, first, arith, Bool-cases,
}
use mathlib.Core.List.{append-nil, append_assoc}
use read_rpc.Prelude.HashMap.{IsMap, lookup, remove, remove_absent}
use read_rpc.Lru.{
  LruCrate, LruMemoryCache, popped, decrease, grow, displaced, store, put, usize_max,
}

snoc-cases : {A : Type 0} (l : List A) → (l ≡ []) ⊎ ((xs : List A) × (x : A) × (l ≡ xs ++ x ∷ []))
snoc-cases [] = inl refl
snoc-cases (a ∷ l) = elim (snoc-cases l) [
  | inl e ↦ inr ([], a, ap (◌∷◌ a) e)
  | inr (xs, x, e) ↦ inr (a ∷ xs, x, ap (◌∷◌ a) e)
]

abbrev pub size? : {V : Type 0} → (V → ℕ) → Option V → ℕ
size? size_of_val none = 0
size? size_of_val (some v) = size_of_val v

module _ {K V : Type 0} (size_of_val : V → ℕ) where
  abbrev pub total : List (K × V) → ℕ
  total [] = 0
  total (item ∷ items) = size_of_val item.1 + total items

  total-append : (xs ys : List (K × V)) → total (xs ++ ys) ≡ total xs + total ys
  total-append [] ys = omega arith
  total-append (x ∷ xs) ys = omega (arith, total-append xs ys)

  total-remove :
      ⦃e : Eq K⦄ (k : K) (items : List (K × V))
      → IsMap items
      → total (remove k items) + size? size_of_val (lookup k items) ≡ total items
  unfolding lookup remove
  total-remove k [] h = omega arith
  total-remove ⦃e⦄ k ((j, v) ∷ items) h =
      ground (arith, total-remove k items h.1, remove_absent j items h.0)

  -- `kept` is what is left of `items` within `max`, and one evicted item more would not fit.
  pub record Evicts (max : ℕ) (items kept : List (K × V)) : Type 0 where
    pub evicted : List (K × V)
    pub split : items ≡ kept ++ evicted
    pub fits : total kept ≤ max
    pub needed : (item : K × V) → first evicted ≡ some item → max < total kept + size_of_val item.1

  Evicts-snoc :
      (max : ℕ) (items kept : List (K × V)) (item : K × V)
      → max < total (items ++ item ∷ [])
      → Evicts max items kept
      → Evicts max (items ++ item ∷ []) kept
  Evicts-snoc max items kept item over h = record {
    evicted = h.evicted ++ item ∷ [];
    split =
        ap (λ (xs : List (K × V)). xs ++ item ∷ []) h.split
        ∙ append_assoc kept h.evicted (item ∷ []);
    fits = h.fits;
    needed = needed-snoc h.evicted h.split h.needed;
  }
    where
      needed-snoc :
          (evicted : List (K × V))
          → items ≡ kept ++ evicted
          → ((x : K × V) → first evicted ≡ some x → max < total kept + size_of_val x.1)
          → (x : K × V) → first (evicted ++ item ∷ []) ≡ some x
          → max < total kept + size_of_val x.1
      needed-snoc [] split needed x e =
          ground (arith, total-append items (item ∷ []), append-nil kept)
      needed-snoc (y ∷ evicted) split needed x e = needed x e

module _ {K V : Type 0} ⦃e : Eq K⦄ (l : LruCrate K V) (size_of_val : V → ℕ) where
  abbrev pub items : LruMemoryCache l size_of_val → List (K × V)
  items c = l.entries c.inner

  abbrev Sized : LruMemoryCache l size_of_val → Type 0
  Sized c = (c.current_size ≡ total size_of_val (items c)) × (c.current_size < u64_mod)

  pub record Decreased (c d : LruMemoryCache l size_of_val) : Type 0 where
    pub evicts : Evicts size_of_val c.max_size (items c) (items d)
    pub sized : Sized d
    pub same_max : d.max_size ≡ c.max_size
    pub same_cap : l.cap d.inner ≡ l.cap c.inner

  decrease_over :
      (fuel : ℕ) (c : LruMemoryCache l size_of_val) (xs : List (K × V)) (x : K × V)
      → ltb c.max_size c.current_size ≡ true
      → items c ≡ xs ++ x ∷ []
      → decrease l size_of_val (suc fuel) c
        ≡ decrease l size_of_val fuel (popped l size_of_val c (l.pop_lru c.inner).1 x)
  unfolding decrease
  decrease_over fuel c xs x over e = rw (over, decrease, l.pop_lru_value c.inner xs x e)

  decrease_within :
      (fuel : ℕ) (c : LruMemoryCache l size_of_val)
      → ltb c.max_size c.current_size ≡ false
      → decrease l size_of_val (suc fuel) c ≡ c
  unfolding decrease
  decrease_within fuel c within = rw (within, decrease)

  -- With more fuel than items the loop ends by its test.
  decrease-Decreased :
      (fuel : ℕ) (c : LruMemoryCache l size_of_val)
      → length (items c) < fuel
      → Sized c
      → Decreased c (decrease l size_of_val fuel c)
  decrease-Decreased zero c lt h = absurd (omega arith)
  decrease-Decreased (suc fuel) c lt h = elim (Bool-cases (ltb c.max_size c.current_size)) [
    | inl over ↦ elim (snoc-cases (items c)) [
      | inl e ↦ absurd (ground (arith, h.0, ap (total size_of_val) e))
      | inr (xs, x, e) ↦
          let inner = (l.pop_lru c.inner).1 in
          let d = popped l size_of_val c inner x in
          let sum : total size_of_val (items c) ≡ total size_of_val xs + size_of_val x.1 =
            rw e (omega (arith, total-append size_of_val xs (x ∷ []))) in
          let left : items d ≡ xs = l.entries-pop_lru c.inner xs x e in
          let exact : d.current_size ≡ total size_of_val (items d) =
            rw (left, sub_u64_exact c.current_size (size_of_val x.1) (omega (arith, h.0)) h.1)
              (omega (arith, h.0)) in
          let shorter : length (items d) < fuel =
            rw left (omega (arith, ap length e, length-append xs (x ∷ []))) in
          let rest =
            decrease-Decreased fuel d shorter
              (exact, omega (arith, h.0, exact, ap (total size_of_val) left)) in
          rw (decrease_over fuel c xs x over e) (record {
            evicts = rw e (
                Evicts-snoc size_of_val c.max_size xs _ x
                  (ground (arith, h.0, ap (total size_of_val) e)) (rw left at rest.evicts));
            sized = rest.sized;
            same_max = rest.same_max;
            same_cap = rest.same_cap ∙ l.cap-pop_lru c.inner;
          })
    ]
    | inr within ↦ rw (decrease_within fuel c within) (record {
      evicts = record {
        evicted = [];
        split = sym (append-nil (items c));
        fits = ground (arith, h.0);
        needed = λ x none_evicted. cc;
      };
      sized = h;
      same_max = refl;
      same_cap = refl;
    })
  ]

  pub record IsSized (c : LruMemoryCache l size_of_val) : Type 0 where
    pub unique : IsMap (items c)
    pub exact : c.current_size ≡ total size_of_val (items c)
    pub within : c.current_size ≤ c.max_size
    pub roomy : length (items c) ≤ l.cap c.inner
    pub positive : 0 < l.cap c.inner

  -- A cache that is full is given twice the room, so that the crate never evicts by itself.
  pub grow-roomy :
      (inner : l.State)
      → length (l.entries inner) ≤ l.cap inner
      → 0 < l.cap inner
      → l.cap inner < 2 ^ 63
      → (l.entries (grow l size_of_val inner) ≡ l.entries inner)
        × (length (l.entries inner) < l.cap (grow l size_of_val inner))
  unfolding grow
  grow-roomy inner roomy pos small = elim (Bool-cases (l.len inner == l.cap inner)) [
    | inl full ↦
        let wider : length (l.entries inner) ≤ min (l.cap inner * 2) usize_max =
          omega (arith, roomy) in
        rw (full, l.cap-resize, l.entries-resize (min (l.cap inner * 2) usize_max) inner wider)
          (refl, omega (arith, roomy, pos, small))
    | inr space ↦ rw space (refl, ground (arith, l.len_entries inner))
  ]

  pub store-items :
      (k : K) (v : V) (c : LruMemoryCache l size_of_val)
      → IsSized c
      → l.cap c.inner < 2 ^ 63
      → items (store l size_of_val k v c) ≡ (k, v) ∷ remove k (items c)
  unfolding store
  store-items k v c h small =
      let (same, room) = grow-roomy c.inner h.roomy h.positive small in
      l.entries-put k v (grow l size_of_val c.inner) (rw same room)
      ∙ ap (λ (m : List (K × V)). (k, v) ∷ remove k m) same

  pub store-current_size :
      (k : K) (v : V) (c : LruMemoryCache l size_of_val)
      → IsSized c
      → l.cap c.inner < 2 ^ 63
      → c.max_size + size_of_val v < u64_mod
      → (store l size_of_val k v c).current_size
        ≡ size_of_val v + total size_of_val (remove k (items c))
  unfolding store
  store-current_size k v c h small fits =
      let (same, room) = grow-roomy c.inner h.roomy h.positive small in
      rw (l.put_value k v (grow l size_of_val c.inner), same)
        (displaced_exact (lookup k (items c)) (total-remove size_of_val k (items c) h.unique))
    where
      displaced_exact :
          (old : Option V)
          → total size_of_val (remove k (items c)) + size? size_of_val old
            ≡ total size_of_val (items c)
          → displaced l size_of_val (add_u64 c.current_size (size_of_val v)) old
            ≡ size_of_val v + total size_of_val (remove k (items c))
      displaced_exact none e =
          omega (arith, h.exact, h.within, add_u64_exact c.current_size (size_of_val v))
      displaced_exact (some w) e = omega (
        arith,
        h.exact,
        h.within,
        add_u64_exact c.current_size (size_of_val v) (omega (arith, h.within)),
        sub_u64_exact (c.current_size + size_of_val v) (size_of_val w) (omega (arith, h.exact))
            (omega (arith, h.within)),
        ap (λ (n : ℕ). sub_u64 n (size_of_val w))
            (add_u64_exact c.current_size (size_of_val v) (omega (arith, h.within))),
      )

  pub cap-store :
      (k : K) (v : V) (c : LruMemoryCache l size_of_val)
      → l.cap (store l size_of_val k v c).inner ≡ l.cap (grow l size_of_val c.inner)
  unfolding store
  cap-store k v c = l.cap-put k v (grow l size_of_val c.inner)

  pub max_size-store :
      (k : K) (v : V) (c : LruMemoryCache l size_of_val)
      → (store l size_of_val k v c).max_size ≡ c.max_size
  unfolding store
  max_size-store k v c = refl

  -- `put` moves the item to the front, gives up the value that the key had, and evicts from the
  -- least recent end until the values fit, but no more than that; no size wraps round.
  pub put-Decreased :
      (k : K) (v : V) (c : LruMemoryCache l size_of_val)
      → IsSized c
      → l.cap c.inner < 2 ^ 63
      → c.max_size + size_of_val v < u64_mod
      → Decreased (store l size_of_val k v c) (put l size_of_val k v c)
  unfolding put
  put-Decreased k v c h small fits =
      let c' = store l size_of_val k v c in
      let e = store-items k v c h small in
      decrease-Decreased (suc (l.len c'.inner)) c' (omega (arith, l.len_entries c'.inner)) (
        store-current_size k v c h small fits ∙ ap (total size_of_val) (sym e),
        omega (
          arith,
          h.exact,
          h.within,
          store-current_size k v c h small fits,
          total-remove size_of_val k (items c) h.unique,
        ),
      )
