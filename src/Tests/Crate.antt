-- ===== src/Tests/Crate.antt =====
-- A list of items with a capacity, which meets the laws of the `lru` crate.
use read_rpc.Prelude.{
  ℕ, ◌<◌, ◌≡◌, refl, Option, none, some, List, [], ◌∷◌, ◌++◌, ℕ_eq, length, ltb, if◌then◌else◌,
  arith,
}
use read_rpc.Prelude.HashMap.{lookup, remove}
use read_rpc.Lru.{LruCrate}

module _ {V : Type 0} where
  -- The last item, and the list without it.
  unfoldable pub unsnoc : List (ℕ × V) → Option (ℕ × V) × List (ℕ × V)
  unsnoc [] = (none, [])
  unsnoc (x ∷ []) = (some x, [])
  unsnoc (x ∷ y ∷ xs) = let (last, rest) = unsnoc (y ∷ xs) in (last, x ∷ rest)

  pub unsnoc-append : (xs : List (ℕ × V)) (x : ℕ × V) → unsnoc (xs ++ x ∷ []) ≡ (some x, xs)
  unfolding unsnoc
  unsnoc-append [] x = refl
  unsnoc-append (a ∷ []) x = refl
  unsnoc-append (a ∷ b ∷ xs) x = rw (unsnoc-append (b ∷ xs) x)

  pub unsnoc-nil : (xs : List (ℕ × V)) → xs ≡ [] → (unsnoc xs).0 ≡ none
  unfolding unsnoc
  unsnoc-nil xs e = rw e

pub record Inner (V : Type 0) : Type 0 where
  pub items : List (ℕ × V)
  pub cap : ℕ

module _ {V : Type 0} where
  -- What the crate drops by itself when it is full and the key is new.
  abbrev pub make_room : Inner V → List (ℕ × V)
  make_room s = if ltb (length s.items) s.cap then s.items else (unsnoc s.items).1

  pub make_room_spare : (s : Inner V) → length s.items < s.cap → make_room s ≡ s.items
  make_room_spare s h = ground arith

  abbrev pub crate : LruCrate ℕ V
  crate = record {
    State = Inner V;
    new = λ c. record { items = []; cap = c };
    put = λ k v s. (lookup k s.items, record s { items = (k, v) ∷ remove k (make_room s) });
    pop_lru = λ s. ((unsnoc s.items).0, record s { items = (unsnoc s.items).1 });
    peek = λ k s. lookup k s.items;
    len = λ s. length s.items;
    cap = λ s. s.cap;
    resize = λ c s. record s { cap = c };
    entries = λ s. s.items;
    entries-new = λ c. refl;
    cap-new = λ c. refl;
    len_entries = λ s. refl;
    peek_entries = λ k s. refl;
    entries-resize = λ c s h. refl;
    cap-resize = λ c s. refl;
    put_value = λ k v s. refl;
    entries-put = λ k v s h. rw (make_room_spare s h);
    cap-put = λ k v s. refl;
    pop_lru_empty = λ s e. unsnoc-nil s.items e;
    pop_lru_value = λ s xs x e. rw (e, unsnoc-append xs x);
    entries-pop_lru = λ s xs x e. rw (e, unsnoc-append xs x);
    cap-pop_lru = λ s. refl;
  }
