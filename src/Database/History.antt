-- ===== src/Database/History.antt =====
-- database/src/postgres: a table of state changes as the history of each key, from heights to
-- values, and what a write and a read of the latest row are on histories.
use read_rpc.Prelude.{
  ℕ, zero, suc, ◌≤◌, ◌≡◌, refl, sym, ap, ◌∙◌, true, false, Bool-cases, ◌&&◌, inl, inr, Option, none,
  some, Option-cases, List, [], ◌∷◌, ◌==◌, Bytes, Eq, eqb, eqb-true, ltb, leb, if◌then◌else◌, arith,
  ℕ_eq,
}
use read_rpc.Blocks.Latest.{or_else, last_of}
use read_rpc.Database.{Row, conflicts, conflicts_with, upsert_row, upsert_rows, newest, is_at}

-- What is stored at each height, where a row without a value stores a deletion.
abbrev pub History : Type 0
History = ℕ → Option (Option Bytes)

-- The value that an entry leaves to be read.
abbrev pub present : Option (Option Bytes) → Option Bytes
present none = none
present (some value) = value

-- The last entry at a height or below.
unfoldable pub last_entry : History → ℕ → Option (Option Bytes)
last_entry history zero = history zero
last_entry history (suc h) = or_else (history (suc h)) (last_entry history h)

-- The same entry with its height.
abbrev pub Found : Type 0
Found = Option (ℕ × Option Bytes)

abbrev at_height : ℕ → Option (Option Bytes) → Found
at_height h none = none
at_height h (some value) = some (h, value)

abbrev pub entry_found : Found → Option (Option Bytes)
entry_found none = none
entry_found (some (h, value)) = some value

found : History → ℕ → Found
found history zero = at_height zero (history zero)
found history (suc h) = elim (history (suc h)) [
  | some value ↦ some (suc h, value)
  | none ↦ found history h
]

found-last_entry : (f : History) (h : ℕ) → entry_found (found f h) ≡ last_entry f h
unfolding found last_entry
found-last_entry f zero = ground (arith, Option-cases (f zero))
found-last_entry f (suc h) = ground (arith, found-last_entry f h, Option-cases (f (suc h)))

-- What is found stands in the history.
found-entry :
    (f : History) (h k : ℕ) (value : Option Bytes) → found f h ≡ some (k, value) → f k ≡ some value
unfolding found
found-entry f zero k value = by_entry (f zero) refl
  where
    by_entry :
        (entry : Option (Option Bytes))
        → f zero ≡ entry
        → at_height zero entry ≡ some (k, value)
        → f k ≡ some value
    by_entry none e h = absurd cc
    by_entry (some v) e h = ground (arith, e, ap f)
found-entry f (suc h) k value = by_entry (f (suc h)) refl (found-entry f h k value)
  where
    by_entry :
        (entry : Option (Option Bytes))
        → f (suc h) ≡ entry
        → (found f h ≡ some (k, value) → f k ≡ some value)
        → (elim entry as (λ _. Found) [ some v ↦ some (suc h, v) | none ↦ found f h ])
          ≡ some (k, value)
        → f k ≡ some value
    by_entry none e rest h = rest h
    by_entry (some v) e rest h = ground (arith, e, ap f)

abbrev IsBelow : ℕ → Found → Type 0
IsBelow h none = Unit
IsBelow h (some (k, value)) = k ≤ h

found-IsBelow : (f : History) (h : ℕ) → IsBelow h (found f h)
unfolding found
found-IsBelow f zero = by_entry (f zero)
  where
    by_entry : (entry : Option (Option Bytes)) → IsBelow zero (at_height zero entry)
    by_entry none = tt
    by_entry (some value) = omega arith
found-IsBelow f (suc h) = by_entry (f (suc h)) (found f h) (found-IsBelow f h)
  where
    by_entry :
        (entry : Option (Option Bytes)) (rest : Found)
        → IsBelow h rest
        → IsBelow
            (suc h)
            (elim entry as (λ _. Found) [ some value ↦ some (suc h, value) | none ↦ rest ])
    by_entry (some value) rest below = omega arith
    by_entry none none below = tt
    by_entry none (some (k, value)) below = omega arith

found_none : (f : History) → ((h : ℕ) → f h ≡ none) → (h : ℕ) → found f h ≡ none
unfolding found
found_none f empty zero = ground (arith, empty zero)
found_none f empty (suc h) = ground (arith, empty (suc h), found_none f empty h)

found-ext : (f g : History) → ((h : ℕ) → f h ≡ g h) → (h : ℕ) → found f h ≡ found g h
unfolding found
found-ext f g same zero = ground (arith, same zero)
found-ext f g same (suc h) = ground (arith, same (suc h), found-ext f g same h)

abbrev newer : ℕ → Option Bytes → Found → Found
newer h value none = some (h, value)
newer h value (some (k, other)) = if ltb h k then some (k, other) else some (h, value)

-- One more entry at the height `k`, in the place of what stood there.
found-override :
    (f g : History) (k : ℕ) (value : Option Bytes)
    → ((h : ℕ) → g h ≡ (if h == k then some value else f h))
    → (h : ℕ) → found g h ≡ (if leb k h then newer k value (found f h) else found f h)
unfolding found
found-override f g k value at_k zero = ground (arith, at_k zero, Option-cases (f zero))
found-override f g k value at_k (suc h) = ground (
  arith,
  at_k (suc h),
  found-override f g k value at_k h,
  found-IsBelow f h,
  Option-cases (found f h),
  Option-cases (f (suc h)),
)

module _ {K : Type 0} ⦃e : Eq K⦄ where
  -- The first row of a key at a height.
  unfoldable pub history_of : List (Row K) → K → History
  history_of [] key h = none
  history_of (row ∷ rows) key h =
      if eqb key row.key && h == row.block_height
      then some row.data_value
      else history_of rows key h

  -- What a row says of a key at a height.
  abbrev pub entry : K → ℕ → Row K → Option (Option Bytes)
  entry key h row = if eqb key row.key && h == row.block_height then some row.data_value else none

  pub history_of-upsert_row :
      (new : Row K) (rows : List (Row K)) (key : K) (h : ℕ)
      → history_of (upsert_row new rows) key h ≡ or_else (entry key h new) (history_of rows key h)
  unfolding history_of upsert_row conflicts
  history_of-upsert_row new [] key h = ground arith
  history_of-upsert_row new (row ∷ rows) key h =
      ground (arith, history_of-upsert_row new rows key h)

  pub history_of-upsert_rows :
      (news rows : List (Row K)) (key : K) (h : ℕ)
      → history_of (upsert_rows news rows) key h
        ≡ or_else (last_of (entry key h) news) (history_of rows key h)
  unfolding upsert_rows last_of
  history_of-upsert_rows [] rows key h = refl
  history_of-upsert_rows (new ∷ news) rows key h = ground (
    arith,
    history_of-upsert_rows news (upsert_row new rows) key h,
    history_of-upsert_row new rows key h,
  )

  abbrev pub found_row : Option (Row K) → Found
  found_row none = none
  found_row (some row) = some (row.block_height, row.data_value)

  found_row-newest :
      (rows : List (Row K)) (key : K) (h : ℕ)
      → found_row (newest (is_at key h) rows) ≡ found (history_of rows key) h
  unfolding newest history_of
  found_row-newest [] key h = sym (found_none (history_of [] key) (λ k. refl) h)
  found_row-newest (row ∷ rows) key h = elim (Bool-cases (eqb key row.key)) [
    | inl same ↦ ground (
      arith,
      found_row-newest rows key h,
      Option-cases (newest (is_at key h) rows),
      found-override (history_of rows key) (history_of (row ∷ rows) key) row.block_height
          row.data_value
          (λ k. rw same (written row.data_value row.block_height k (history_of rows key k))) h,
    )
    | inr other ↦ ground (
      arith,
      found_row-newest rows key h,
      found-ext (history_of (row ∷ rows) key) (history_of rows key) (λ k. rw other refl) h,
    )
  ]
    where
      written :
          (value : Option Bytes) (height k : ℕ) (rest : Option (Option Bytes))
          → (if true && k == height then some value else rest)
            ≡ (if k == height then some value else rest)
      written value height k rest = refl

  -- The newest row at a height or below is the last entry of the key's history.
  pub newest-last_entry :
      (rows : List (Row K)) (key : K) (h : ℕ)
      → entry_found (found_row (newest (is_at key h) rows)) ≡ last_entry (history_of rows key) h
  newest-last_entry rows key h =
      ap entry_found (found_row-newest rows key h) ∙ found-last_entry (history_of rows key) h

  pub newest-entry :
      (rows : List (Row K)) (key : K) (h : ℕ) (row : Row K)
      → newest (is_at key h) rows ≡ some row
      → history_of rows key row.block_height ≡ some row.data_value
  newest-entry rows key h row is_newest =
      found-entry (history_of rows key) h row.block_height row.data_value
        (sym (found_row-newest rows key h) ∙ ap found_row is_newest)

  -- Each primary key stands in one row.
  abbrev pub IsTable : List (Row K) → Type 0
  IsTable [] = Unit
  IsTable (row ∷ rows) = (conflicts_with row rows ≡ false) × IsTable rows

  history_of_apart :
      (row : Row K) (rows : List (Row K))
      → conflicts_with row rows ≡ false
      → history_of rows row.key row.block_height ≡ none
  unfolding conflicts_with conflicts history_of
  history_of_apart row [] apart = refl
  history_of_apart row (other ∷ rows) apart = ground (arith, history_of_apart row rows)

  -- The last row that has the value of a key at a height is the only one.
  pub last_of-history_of :
      (rows : List (Row K)) (key : K) (h : ℕ)
      → IsTable rows
      → last_of (λ row. present (entry key h row)) rows ≡ present (history_of rows key h)
  unfolding last_of history_of
  last_of-history_of [] key h table = refl
  last_of-history_of (row ∷ rows) key h table = ground (
    arith,
    last_of-history_of rows key h table.1,
    history_of_apart row rows table.0,
    ap (λ k. history_of rows k h),
    ap (λ k. history_of rows row.key k),
    eqb-true key row.key,
  )

  conflicts_sym : (a b : Row K) → conflicts a b ≡ conflicts b a
  unfolding conflicts
  conflicts_sym a b = ground arith

  conflicts_with-upsert_row :
      (row new : Row K) (rows : List (Row K))
      → conflicts row new ≡ false
      → conflicts_with row rows ≡ false
      → conflicts_with row (upsert_row new rows) ≡ false
  unfolding conflicts_with upsert_row conflicts
  conflicts_with-upsert_row row new [] apart free = rw apart refl
  conflicts_with-upsert_row row new (other ∷ rows) apart free =
      elim (Bool-cases (conflicts new other)) [
        | inl same ↦ rw same free
        | inr different ↦
            rw different (ground (arith, conflicts_with-upsert_row row new rows apart))
      ]

  pub upsert_row-IsTable :
      (new : Row K) (rows : List (Row K)) → IsTable rows → IsTable (upsert_row new rows)
  unfolding upsert_row conflicts_with conflicts
  upsert_row-IsTable new [] table = (refl, tt)
  upsert_row-IsTable new (row ∷ rows) table = elim (Bool-cases (conflicts new row)) [
    | inl same ↦ rw same table
    | inr different ↦ rw different (
      conflicts_with-upsert_row row new rows (conflicts_sym row new ∙ different) table.0,
      upsert_row-IsTable new rows table.1,
    )
  ]

  pub upsert_rows-IsTable :
      (news rows : List (Row K)) → IsTable rows → IsTable (upsert_rows news rows)
  unfolding upsert_rows
  upsert_rows-IsTable [] rows table = table
  upsert_rows-IsTable (new ∷ news) rows table =
      upsert_rows-IsTable news (upsert_row new rows) (upsert_row-IsTable new rows table)
