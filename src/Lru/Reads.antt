-- ===== src/Lru/Reads.antt =====
-- rpc-server/src/cache.rs: the invariant of the cache, and what can be read after a `put`.
use read_rpc.Prelude.{
  ℕ, ◌+◌, ◌^◌, ◌≤◌, ◌<◌, ◌≡◌, ◌≢◌, refl, sym, ap, ◌∙◌, inl, inr, none, some, List, [], ◌∷◌, ◌++◌,
  Eq, first, length, length-append, if_pos, u64_mod, arith, Option-cases,
}
use mathlib.Core.Path.{subst}
use read_rpc.Prelude.HashMap.{IsMap, lookup, remove, lookup-remove, remove-IsMap}
use read_rpc.Lru.{LruCrate, LruMemoryCache, new, store, put, get}
use read_rpc.Lru.Size.{
  Evicts, items, IsSized, Decreased, put-Decreased, store-items, grow-roomy, cap-store,
  max_size-store,
}

module _ {K V : Type 0} ⦃e : Eq K⦄ where
  lookup-append_some :
      (j : K) (xs ys : List (K × V)) (w : V) → lookup j xs ≡ some w → lookup j (xs ++ ys) ≡ some w
  unfolding lookup
  lookup-append_some j [] ys w h = absurd (ground arith)
  lookup-append_some j ((i, v) ∷ xs) ys w h = ground (arith, lookup-append_some j xs ys w)

  IsMap-prefix : (xs ys : List (K × V)) → IsMap (xs ++ ys) → IsMap xs
  IsMap-prefix [] ys h = tt
  IsMap-prefix ((i, v) ∷ xs) ys h = (
    elim (Option-cases (lookup i xs)) [
      | inl missing ↦ missing
      | inr (w, found) ↦ absurd (ground (arith, h.0, lookup-append_some i xs ys w found))
    ],
    IsMap-prefix xs ys h.1,
  )

  length-remove-le : (k : K) (m : List (K × V)) → length (remove k m) ≤ length m
  unfolding remove
  length-remove-le k [] = omega arith
  length-remove-le k ((i, v) ∷ m) = ground (arith, length-remove-le k m)

module _ {K V : Type 0} ⦃e : Eq K⦄ (l : LruCrate K V) (size_of_val : V → ℕ) where
  -- A new cache is empty and within its bound.
  pub new-IsSized : (max_size : ℕ) → IsSized l size_of_val (new l size_of_val max_size)
  unfolding new
  new-IsSized max_size = record {
    unique = rw l.entries-new tt;
    exact = rw l.entries-new refl;
    within = omega arith;
    roomy = rw (l.entries-new, l.cap-new) (omega arith);
    positive = rw l.cap-new (omega arith);
  }

  module _ (k : K) (v : V) (c : LruMemoryCache l size_of_val) (h : IsSized l size_of_val c)
      (small : l.cap c.inner < 2 ^ 63) (fits : c.max_size + size_of_val v < u64_mod) where
    done : Decreased l size_of_val (store l size_of_val k v c) (put l size_of_val k v c)
    done = put-Decreased l size_of_val k v c h small fits

    -- `put` moves the item to the front in place of the value that the key had, then evicts from
    -- the least recent end until the values fit the memory bound: what is left fits, and with the
    -- last item that was evicted it would not. The cache meets its bound before, its capacity is
    -- below 2^63, and its bound with the value's size is below 2^64.
    pub put-Evicts :
        Evicts size_of_val c.max_size
          ((k, v) ∷ remove k (items l size_of_val c))
          (items l size_of_val (put l size_of_val k v c))
    put-Evicts =
        rw (store-items l size_of_val k v c h small, max_size-store l size_of_val k v c) at
          done.evicts

    absent : lookup k (remove k (items l size_of_val c)) ≡ none
    absent = lookup-remove k k (items l size_of_val c) ∙ if_pos (e.dec k k) refl _ _

    -- `put` keeps the cache within its bound, its size exact, its keys unique and the crate's
    -- capacity at or above the number of items, so the crate never evicts an item unaccounted. The
    -- cache meets its bound before, its capacity is below 2^63, and its bound with the value's
    -- size is below 2^64.
    pub put-IsSized : IsSized l size_of_val (put l size_of_val k v c)
    put-IsSized = record {
      unique =
          let all : IsMap ((k, v) ∷ remove k (items l size_of_val c)) =
            (absent, remove-IsMap k (items l size_of_val c) h.unique) in
          IsMap-prefix (items l size_of_val (put l size_of_val k v c)) put-Evicts.evicted
            (subst IsMap put-Evicts.split all);
      exact = done.sized.0;
      within =
          omega (
            arith,
            done.sized.0,
            put-Evicts.fits,
            done.same_max,
            max_size-store l size_of_val k v c,
          );
      roomy = omega (
        arith,
        ap length put-Evicts.split,
        length-append (items l size_of_val (put l size_of_val k v c)) put-Evicts.evicted,
        length-remove-le k (items l size_of_val c),
        (grow-roomy l size_of_val c.inner h.roomy h.positive small).1,
        done.same_cap,
        cap-store l size_of_val k v c,
      );
      positive = omega (
        arith,
        (grow-roomy l size_of_val c.inner h.roomy h.positive small).1,
        done.same_cap,
        cap-store l size_of_val k v c,
      );
    }

    -- A value that fits the bound by itself is read back right after it is put. The cache meets
    -- its bound before, its capacity is below 2^63, and its bound with the value's size is below
    -- 2^64.
    pub get-put_self :
        size_of_val v ≤ c.max_size → get l size_of_val k (put l size_of_val k v c) ≡ some v
    unfolding get lookup
    get-put_self room =
        rw l.peek_entries (front (items l size_of_val (put l size_of_val k v c)) put-Evicts)
      where
        front :
            (kept : List (K × V))
            → Evicts size_of_val c.max_size ((k, v) ∷ remove k (items l size_of_val c)) kept
            → lookup k kept ≡ some v
        front [] ev = absurd (omega (arith, ev.needed (k, v) (ap first (sym ev.split))))
        front ((i, w) ∷ kept) ev = ground (arith, ev.split)

    -- What is read under another key after a `put` was there before it. The cache meets its bound
    -- before, its capacity is below 2^63, and its bound with the value's size is below 2^64.
    pub get-put_ne :
        (j : K) (w : V)
        → j ≢ k
        → get l size_of_val j (put l size_of_val k v c) ≡ some w
        → get l size_of_val j c ≡ some w
    unfolding get lookup
    get-put_ne j w ne found =
        let kept = items l size_of_val (put l size_of_val k v c) in
        rw l.peek_entries (
          ground (
            arith,
            lookup-append_some j kept put-Evicts.evicted w (rw l.peek_entries at found),
            put-Evicts.split,
            lookup-remove k j (items l size_of_val c),
          ))

    -- What is read under the key of a `put` is the value that was put.
    pub get-put_same : (w : V) → get l size_of_val k (put l size_of_val k v c) ≡ some w → w ≡ v
    unfolding get lookup
    get-put_same w found =
        let kept = items l size_of_val (put l size_of_val k v c) in
        ground (
          arith,
          lookup-append_some k kept put-Evicts.evicted w (rw l.peek_entries at found),
          put-Evicts.split,
        )
