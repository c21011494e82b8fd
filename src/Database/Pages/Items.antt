-- ===== src/Database/Pages/Items.antt =====
-- database/src/postgres: the rows of a page in the order of their keys, and the items that they are
-- collected to.
use mathlib.Core.List.{append-nil, append_assoc}
use read_rpc.Prelude.{
  ℕ, zero, suc, ◌+◌, ◌-◌, ◌≡◌, ◌≢◌, ◌≤◌, ◌<◌, refl, sym, ap, ◌∙◌, Bool, Bool-cases, inl, inr, none,
  List, [], ◌∷◌, ◌++◌, Text, Bytes, All, map, length, arith, text_eq, ℕ_eq,
}
use read_rpc.Prelude.HashMap.{HashMap, IsMap, lookup, insert}
use read_rpc.Prelude.Outcome.{ok}
use read_rpc.Database.{Row, DataKey}
use read_rpc.Database.Reads.{Codec, collect_items}
use read_rpc.Database.Pages.{insert_ordered, order_by_key, take, drop}
use read_rpc.Database.Pages.Rows.{item, IsReadable}

module _ (codec : Codec) (before : Text → Text → Bool) where
  abbrev items : List (Row DataKey) → HashMap Bytes Bytes
  items rows = map (item codec) rows

  lookup-insert_ordered :
      (key : Bytes) (row : Row DataKey) (rows : List (Row DataKey))
      → lookup (item codec row).0 (items rows) ≡ none
      → lookup key (items (insert_ordered before row rows)) ≡ lookup key (items (row ∷ rows))
  unfolding insert_ordered lookup
  lookup-insert_ordered key row [] new = refl
  lookup-insert_ordered key row (other ∷ rows) new =
      ground (arith, lookup-insert_ordered key row rows)

  insert_ordered-IsMap :
      (row : Row DataKey) (rows : List (Row DataKey))
      → lookup (item codec row).0 (items rows) ≡ none
      → IsMap (items rows)
      → IsMap (items (insert_ordered before row rows))
  unfolding insert_ordered lookup
  insert_ordered-IsMap row [] new distinct = (refl, tt)
  insert_ordered-IsMap row (other ∷ rows) new distinct =
      ground
        (arith, insert_ordered-IsMap row rows, lookup-insert_ordered (item codec other).0 row rows)

  insert_ordered-All :
      (P : Row DataKey → Type 0) (row : Row DataKey) (rows : List (Row DataKey))
      → P row
      → All P rows
      → All P (insert_ordered before row rows)
  unfolding insert_ordered
  insert_ordered-All P row [] h hs = (h, tt)
  insert_ordered-All P row (other ∷ rows) h hs = elim (Bool-cases (before row.key.1 other.key.1)) [
    | inl first ↦ rw first (h, hs)
    | inr later ↦ rw later (hs.0, insert_ordered-All P row rows h hs.1)
  ]

  pub order_by_key-All :
      (P : Row DataKey → Type 0) (rows : List (Row DataKey))
      → All P rows
      → All P (order_by_key before rows)
  unfolding order_by_key
  order_by_key-All P [] h = tt
  order_by_key-All P (row ∷ rows) h =
      insert_ordered-All P row (order_by_key before rows) h.0 (order_by_key-All P rows h.1)

  -- In the order of the keys, the same items are read.
  pub order_by_key-items :
      (rows : List (Row DataKey))
      → IsMap (items rows)
      → IsMap (items (order_by_key before rows))
        × ((key : Bytes) → lookup key (items (order_by_key before rows)) ≡ lookup key (items rows))
  unfolding order_by_key lookup
  order_by_key-items [] distinct = (tt, λ key. refl)
  order_by_key-items (row ∷ rows) distinct =
      let (ordered, same) = order_by_key-items rows distinct.1 in
      let new = same (item codec row).0 ∙ distinct.0 in
      (
        insert_ordered-IsMap row (order_by_key before rows) new ordered,
        λ key.
            lookup-insert_ordered key row (order_by_key before rows) new ∙ ground (arith, same key),
      )

  length-insert_ordered :
      (row : Row DataKey) (rows : List (Row DataKey))
      → length (insert_ordered before row rows) ≡ suc (length rows)
  unfolding insert_ordered
  length-insert_ordered row [] = refl
  length-insert_ordered row (other ∷ rows) = ground (arith, length-insert_ordered row rows)

  pub length-order_by_key :
      (rows : List (Row DataKey)) → length (order_by_key before rows) ≡ length rows
  unfolding order_by_key
  length-order_by_key [] = refl
  length-order_by_key (row ∷ rows) =
      length-insert_ordered row (order_by_key before rows) ∙ ap suc (length-order_by_key rows)

module _ (codec : Codec) where
  insert_new :
      (key value : Bytes) (m : HashMap Bytes Bytes)
      → lookup key m ≡ none
      → insert key value m ≡ m ++ (key, value) ∷ []
  unfolding lookup insert
  insert_new key value [] new = refl
  insert_new key value (x ∷ m) new = ground (arith, insert_new key value m)

  lookup-append :
      (key : Bytes) (m l : HashMap Bytes Bytes) → lookup key (m ++ l) ≡ none → lookup key m ≡ none
  unfolding lookup
  lookup-append key [] l h = refl
  lookup-append key (x ∷ m) l h = ground (arith, lookup-append key m l)

  missing_apart :
      (j key value : Bytes) (m l : HashMap Bytes Bytes)
      → lookup j (m ++ (key, value) ∷ l) ≡ none
      → j ≢ key
  unfolding lookup
  missing_apart j key value [] l h same = ground arith
  missing_apart j key value (x ∷ m) l h same = missing_apart j key value m l (ground arith) same

  -- The first new key of a list is not among those before it.
  next_new :
      (m l : HashMap Bytes Bytes) (key value : Bytes)
      → IsMap (m ++ (key, value) ∷ l)
      → lookup key m ≡ none
  unfolding lookup
  next_new [] l key value h = refl
  next_new (x ∷ m) l key value h =
      ground (arith, next_new m l key value h.1, missing_apart x.0 key value m l h.0)

  collect_items-from :
      (rows : List (Row DataKey)) (m : HashMap Bytes Bytes)
      → All (IsReadable codec) rows
      → IsMap (m ++ map (item codec) rows)
      → collect_items codec rows m ≡ ok (m ++ map (item codec) rows)
  unfolding collect_items
  collect_items-from [] m all distinct = ap ok (sym (append-nil m))
  collect_items-from (row ∷ rows) m all distinct =
      rw
        (
          all.0.value,
          all.0.key,
          codec.decode-encode,
          insert_new (item codec row).0 (item codec row).1 m
              (next_new m (map (item codec) rows) (item codec row).0 (item codec row).1 distinct),
        )
        (collect_items-from rows (m ++ item codec row ∷ []) all.1
            (rw (append_assoc m (item codec row ∷ []) (map (item codec) rows)) distinct)
          ∙ ap ok (append_assoc m (item codec row ∷ []) (map (item codec) rows)))

  -- Rows that are read without an error, each key once, are collected to their items.
  pub collect_items-map :
      (rows : List (Row DataKey))
      → All (IsReadable codec) rows
      → IsMap (map (item codec) rows)
      → collect_items codec rows [] ≡ ok (map (item codec) rows)
  collect_items-map rows all distinct = collect_items-from rows [] all distinct

  lookup-take :
      (key : Bytes) (n : ℕ) (rows : List (Row DataKey))
      → lookup key (map (item codec) rows) ≡ none
      → lookup key (map (item codec) (take n rows)) ≡ none
  unfolding lookup take
  lookup-take key zero rows h = refl
  lookup-take key (suc n) [] h = refl
  lookup-take key (suc n) (row ∷ rows) h = ground (arith, lookup-take key n rows)

  pub take-IsMap :
      (n : ℕ) (rows : List (Row DataKey))
      → IsMap (map (item codec) rows)
      → IsMap (map (item codec) (take n rows))
  unfolding take
  take-IsMap zero rows h = tt
  take-IsMap (suc n) [] h = tt
  take-IsMap (suc n) (row ∷ rows) h =
      (lookup-take (item codec row).0 n rows h.0, take-IsMap n rows h.1)

  pub drop-IsMap :
      (n : ℕ) (rows : List (Row DataKey))
      → IsMap (map (item codec) rows)
      → IsMap (map (item codec) (drop n rows))
  unfolding drop
  drop-IsMap zero rows h = h
  drop-IsMap (suc n) [] h = tt
  drop-IsMap (suc n) (row ∷ rows) h = drop-IsMap n rows h.1

module _ {A : Type 0} where
  pub take-All : (P : A → Type 0) (n : ℕ) (xs : List A) → All P xs → All P (take n xs)
  unfolding take
  take-All P zero xs h = tt
  take-All P (suc n) [] h = tt
  take-All P (suc n) (x ∷ xs) h = (h.0, take-All P n xs h.1)

  pub drop-All : (P : A → Type 0) (n : ℕ) (xs : List A) → All P xs → All P (drop n xs)
  unfolding drop
  drop-All P zero xs h = h
  drop-All P (suc n) [] h = tt
  drop-All P (suc n) (x ∷ xs) h = drop-All P n xs h.1

  drop_nil : (n : ℕ) → drop {A = A} n [] ≡ []
  unfolding drop
  drop_nil zero = refl
  drop_nil (suc n) = refl

  pub drop-drop : (m n k : ℕ) (xs : List A) → k ≡ m + n → drop n (drop m xs) ≡ drop k xs
  unfolding drop
  drop-drop zero n k xs e = ap {A = ℕ} (λ i. drop i xs) {x = n} {y = k} (omega (arith, e))
  drop-drop (suc m) n zero xs e = absurd (omega (arith, e))
  drop-drop (suc m) n (suc k) [] e = drop_nil n
  drop-drop (suc m) n (suc k) (x ∷ xs) e = drop-drop m n k xs (omega (arith, e))

  pub length-drop : (n : ℕ) (xs : List A) → length (drop n xs) ≡ length xs - n
  unfolding drop
  length-drop zero xs = omega arith
  length-drop (suc n) [] = omega arith
  length-drop (suc n) (x ∷ xs) = length-drop n xs ∙ omega arith

  pub take_full : (n : ℕ) (xs : List A) → n ≤ length (take n xs) → n ≤ length xs
  unfolding take
  take_full zero xs h = omega arith
  take_full (suc n) [] h = absurd (omega (arith, h))
  take_full (suc n) (x ∷ xs) h = omega (arith, take_full n xs (omega (arith, h)))

  -- A page that is not full is the last one.
  pub drop_short : (n : ℕ) (xs : List A) → length (take n xs) < n → drop n xs ≡ []
  unfolding take drop
  drop_short zero xs h = absurd (omega (arith, h))
  drop_short (suc n) [] h = refl
  drop_short (suc n) (x ∷ xs) h = drop_short n xs (omega (arith, h))

pub length-map : {A B : Type 0} (f : A → B) (xs : List A) → length (map f xs) ≡ length xs
length-map f [] = refl
length-map f (x ∷ xs) = ap suc (length-map f xs)

pub map_split :
    {A B : Type 0} (f : A → B) (n : ℕ) (xs : List A)
    → map f (take n xs) ++ map f (drop n xs) ≡ map f xs
unfolding take drop
map_split f zero xs = refl
map_split f (suc n) [] = refl
map_split f (suc n) (x ∷ xs) = ap (λ rest. f x ∷ rest) (map_split f n xs)
