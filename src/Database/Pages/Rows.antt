-- ===== src/Database/Pages/Rows.antt =====
-- database/src/postgres: the rows of the state of an account: no two have one key, and each is read
-- as an item.
use read_rpc.Prelude.{
  ℕ, ◌≡◌, refl, sym, ap, ◌∙◌, Bool, true, false, Bool-cases, ◌||◌, inl, inr, none, some,
  Option-cases, List, [], ◌∷◌, Text, Bytes, All, map, get_or, eqb, eqb-true, eqb_self, filter,
  is_some, arith, text_eq, ℕ_eq,
}
use read_rpc.Prelude.HashMap.{HashMap, IsMap, lookup}
use read_rpc.Prelude.Outcome.{Result, ok}
use read_rpc.Views.{AccountId}
use read_rpc.Database.{Row, DataKey, data_key_eq, conflicts, conflicts_with}
use read_rpc.Database.History.{IsTable}
use read_rpc.Database.Reads.{Codec, is_latest, latest_blocks, latest_rows}
use read_rpc.Database.Whole.{IsEncoded}

unfoldable pub has_key : Text → List (Row DataKey) → Bool
has_key key [] = false
has_key key (row ∷ rows) = eqb key row.key.1 || has_key key rows

-- No two rows have the same key.
abbrev pub IsDistinct : List (Row DataKey) → Type 0
IsDistinct [] = Unit
IsDistinct (row ∷ rows) = (has_key row.key.1 rows ≡ false) × IsDistinct rows

-- Two latest rows with one key have one primary key.
latest_same :
    (id : AccountId) (latest : HashMap Text ℕ) (row other : Row DataKey)
    → is_latest id latest row ≡ true
    → is_latest id latest other ≡ true
    → row.key.1 ≡ other.key.1
    → conflicts row other ≡ true
unfolding conflicts
latest_same id latest row other selected also same = ground (
  arith,
  ap (λ (k : Text). lookup k latest) same,
  Option-cases (lookup row.key.1 latest),
  eqb-true id row.key.0,
  eqb-true id other.key.0,
)

-- A row that is latest has no other with its key after it.
latest_apart :
    (id : AccountId) (latest : HashMap Text ℕ) (row : Row DataKey) (rows : List (Row DataKey))
    → is_latest id latest row ≡ true
    → conflicts_with row rows ≡ false
    → has_key row.key.1 (filter (is_latest id latest) rows) ≡ false
unfolding has_key filter conflicts_with conflicts
latest_apart id latest row [] selected apart = refl
latest_apart id latest row (other ∷ rows) selected apart =
    elim (Bool-cases (is_latest id latest other)) [
      | inl also ↦ rw also (
          ground (
            arith,
            latest_apart id latest row rows selected,
            latest_same id latest row other selected also,
            eqb-true row.key.1 other.key.1,
          ))
      | inr skipped ↦ rw skipped (latest_apart id latest row rows selected (ground arith))
    ]

latest-IsDistinct :
    (id : AccountId) (latest : HashMap Text ℕ) (rows : List (Row DataKey))
    → IsTable rows
    → IsDistinct (filter (is_latest id latest) rows)
unfolding filter
latest-IsDistinct id latest [] table = tt
latest-IsDistinct id latest (row ∷ rows) table = elim (Bool-cases (is_latest id latest row)) [
  | inl selected ↦
      rw selected
        (latest_apart id latest row rows selected table.0, latest-IsDistinct id latest rows table.1)
  | inr skipped ↦ rw skipped (latest-IsDistinct id latest rows table.1)
]

module _ (codec : Codec) where
  abbrev decoded : Result Bytes → Bytes
  decoded (ok bytes) = bytes
  decoded _ = []

  -- What is read of a row.
  abbrev pub item : Row DataKey → Bytes × Bytes
  item row = (decoded (codec.decode row.key.1), get_or row.data_value [])

  -- A row that is read without an error.
  pub record IsReadable (row : Row DataKey) : Type 0 where
    pub key : row.key.1 ≡ codec.hex.encode (item row).0
    pub value : row.data_value ≡ some (item row).1

  readable :
      (row : Row DataKey)
      → (bs : Bytes) × (row.key.1 ≡ codec.hex.encode bs)
      → is_some row.data_value ≡ true
      → IsReadable row
  readable row (bs, encoded) valued = record {
    key =
        encoded
        ∙ ap codec.hex.encode (sym (ap decoded (ap codec.decode encoded ∙ codec.decode-encode bs)));
    value = ground (arith, Option-cases row.data_value);
  }

  latest-IsReadable :
      (id : AccountId) (latest : HashMap Text ℕ) (rows : List (Row DataKey))
      → IsEncoded codec rows
      → All IsReadable (filter (is_latest id latest) rows)
  unfolding filter
  latest-IsReadable id latest [] encoded = tt
  latest-IsReadable id latest (row ∷ rows) encoded = elim (Bool-cases (is_latest id latest row)) [
    | inl selected ↦
        rw selected
          (readable row encoded.0 (ground arith), latest-IsReadable id latest rows encoded.1)
    | inr skipped ↦ rw skipped (latest-IsReadable id latest rows encoded.1)
  ]

  absent :
      (row : Row DataKey) (rows : List (Row DataKey))
      → IsReadable row
      → All IsReadable rows
      → has_key row.key.1 rows ≡ false
      → lookup (item row).0 (map item rows) ≡ none
  unfolding has_key lookup
  absent row [] one all apart = refl
  absent row (other ∷ rows) one all apart = ground (
    arith,
    absent row rows one all.1,
    one.key,
    all.0.key,
    ap codec.hex.encode,
    eqb_self row.key.1,
  )

  distinct-IsMap :
      (rows : List (Row DataKey)) → IsDistinct rows → All IsReadable rows → IsMap (map item rows)
  distinct-IsMap [] distinct all = tt
  distinct-IsMap (row ∷ rows) distinct all =
      (absent row rows all.0 all.1 distinct.0, distinct-IsMap rows distinct.1 all.1)

  -- The rows of the state of an account are read without an error, each key once.
  pub latest_rows-items :
      (id : AccountId) (like : Text → Bool) (h : ℕ) (rows : List (Row DataKey))
      → IsTable rows
      → IsEncoded codec rows
      → All IsReadable (latest_rows id like h rows) × IsMap (map item (latest_rows id like h rows))
  unfolding latest_rows
  latest_rows-items id like h rows table encoded =
      let latest = latest_blocks id like h rows in
      let all = latest-IsReadable id latest rows encoded in
      (
        all,
        distinct-IsMap (filter (is_latest id latest) rows) (latest-IsDistinct id latest rows table)
            all,
      )
