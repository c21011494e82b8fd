-- ===== src/Database/Whole.antt =====
-- database/src/postgres/rpc_server.rs: the whole state of an account, with or without a prefix,
-- against the history of each key.
use read_rpc.Prelude.{
  ℕ, ◌≡◌, refl, sym, ap, ◌∙◌, Bool, true, false, ◌&&◌, Option, none, some, Option-cases, List, [],
  ◌∷◌, Text, Bytes, eqb, eqb-true, filter, All, if◌then◌else◌, arith, text_eq, ℕ_eq,
}
use read_rpc.Prelude.HashMap.{
  HashMap, IsMap, insert-IsMap, lookup, insert, lookup-nil, lookup-upsert, lookup-insert,
}
use read_rpc.Prelude.Outcome.{Result, ok, err, panic, ok-injective, ◌>>=◌}
use read_rpc.Views.{AccountId}
use read_rpc.Blocks.Latest.{or_else, last_of}
use read_rpc.Database.{Row, DataKey, data_key_eq, newest, is_at, fetch_one}
use read_rpc.Database.History.{
  present, last_entry, history_of, entry, found_row, entry_found, newest-last_entry, newest-entry,
  IsTable, last_of-history_of,
}
use read_rpc.Database.Reads.{Codec, higher_of, latest_blocks, joins, is_latest, collect_items}

abbrev height_of : Option (Row DataKey) → Option ℕ
height_of none = none
height_of (some row) = some row.block_height

last_of-ext :
    {A B : Type 0} (f g : A → Option B) (xs : List A)
    → ((x : A) → f x ≡ g x)
    → last_of f xs ≡ last_of g xs
unfolding last_of
last_of-ext f g [] same = refl
last_of-ext f g (x ∷ xs) same = ground (arith, same x, last_of-ext f g xs same)

last_of_none :
    {A B : Type 0} (f : A → Option B) (xs : List A) → ((x : A) → f x ≡ none) → last_of f xs ≡ none
unfolding last_of
last_of_none f [] empty = refl
last_of_none f (x ∷ xs) empty = ground (arith, empty x, last_of_none f xs empty)

module _ (account_id : AccountId) (like : Text → Bool) (h : ℕ) where
  eqb_pair :
      (key : Text) (row : Row DataKey)
      → eqb (account_id, key) row.key ≡ (eqb account_id row.key.0 && eqb key row.key.1)
  eqb_pair key row = ground arith

  -- The join's heights are those of the newest rows.
  lookup-latest_blocks :
      (rows : List (Row DataKey)) (key : Text)
      → lookup key (latest_blocks account_id like h rows)
        ≡ (if like key then height_of (newest (is_at (account_id, key) h) rows) else none)
  unfolding latest_blocks newest
  lookup-latest_blocks [] key = ground (arith, lookup-nil {V = ℕ} key)
  lookup-latest_blocks (row ∷ rows) key = ground (
    arith,
    lookup-latest_blocks rows key,
    lookup-latest_blocks rows row.key.1,
    eqb_pair key row,
    lookup-upsert row.key.1 key (higher_of row.block_height) row.block_height
        (latest_blocks account_id like h rows),
    Option-cases (newest (is_at (account_id, key) h) rows),
    ap like,
  )

  -- What a row that is read says of a key of the account's state.
  abbrev kept : Text → Row DataKey → List (Row DataKey) → Option Bytes
  kept key row rows =
      if eqb key row.key.1 && is_latest account_id (latest_blocks account_id like h rows) row
      then row.data_value
      else none

  -- The same, where the height that the row joins with is known.
  abbrev kept_at : Text → Option ℕ → Row DataKey → Option Bytes
  kept_at key height row =
      if eqb (account_id, key) row.key && joins height row then row.data_value else none

  kept-kept_at :
      (rows : List (Row DataKey)) (key : Text) (height : Option ℕ) (row : Row DataKey)
      → lookup key (latest_blocks account_id like h rows) ≡ height
      → kept key row rows ≡ kept_at key height row
  kept-kept_at rows key height row e = ground (
    arith,
    e,
    eqb_pair key row,
    eqb-true key row.key.1,
    ap (λ k. lookup k (latest_blocks account_id like h rows)),
    Option-cases row.data_value,
    Option-cases height,
  )

  kept_at-entry :
      (key : Text) (height : ℕ) (row : Row DataKey)
      → kept_at key (some height) row ≡ present (entry (account_id, key) height row)
  kept_at-entry key height row = ground arith

  -- The rows that are read hold for each key the value of its last entry.
  pub last_of-kept :
      (rows : List (Row DataKey)) (key : Text)
      → IsTable rows
      → last_of (λ row. kept key row rows) rows
        ≡ (if like key then present (last_entry (history_of rows (account_id, key)) h) else none)
  last_of-kept rows key table =
      by_newest (newest (is_at (account_id, key) h) rows) refl (like key) refl
    where
      by_newest :
          (found : Option (Row DataKey))
          → newest (is_at (account_id, key) h) rows ≡ found
          → (liked : Bool) → like key ≡ liked
          → last_of (λ row. kept key row rows) rows
            ≡ (if liked then present (last_entry (history_of rows (account_id, key)) h) else none)
      by_newest found e false unlike = last_of_none _ rows (λ row.
          kept-kept_at rows key none row (lookup-latest_blocks rows key ∙ rw (unlike) refl)
          ∙ ground (arith))
      by_newest none e true liked =
          last_of_none _ rows (λ row.
            kept-kept_at rows key none row (lookup-latest_blocks rows key ∙ rw (liked, e) refl)
            ∙ ground arith)
          ∙ ap present
              (ap entry_found (ap found_row (sym e)) ∙ newest-last_entry rows (account_id, key) h)
      by_newest (some row') e true liked =
          last_of-ext _ (λ row. present (entry (account_id, key) row'.block_height row)) rows
            (λ row.
              kept-kept_at rows key (some row'.block_height) row
                (lookup-latest_blocks rows key ∙ rw (liked, e) refl)
              ∙ kept_at-entry key row'.block_height row)
          ∙ last_of-history_of rows (account_id, key) row'.block_height table
          ∙ ap present (
              newest-entry rows (account_id, key) h row' e
              ∙ ap entry_found (ap found_row (sym e))
              ∙ newest-last_entry rows (account_id, key) h)

module _ (codec : Codec) where
  -- Every key of the state is stored in hexadecimal.
  abbrev pub IsEncoded : List (Row DataKey) → Type 0
  IsEncoded = All (λ row. (bs : Bytes) × (row.key.1 ≡ codec.hex.encode bs))

  module _ (account_id : AccountId) (latest : HashMap Text ℕ) where
    abbrev kept_by : Bytes → Row DataKey → Option Bytes
    kept_by key row =
        if eqb (codec.hex.encode key) row.key.1 && is_latest account_id latest row
        then row.data_value
        else none

    encode-injective : (a b : Bytes) → codec.hex.encode a ≡ codec.hex.encode b → a ≡ b
    encode-injective a b same =
        ok-injective (sym (codec.decode-encode a) ∙ ap codec.decode same ∙ codec.decode-encode b)

    abbrev selected_rows : List (Row DataKey) → List (Row DataKey)
    selected_rows = filter (is_latest account_id latest)

    collect_selected :
        (row : Row DataKey) (rows : List (Row DataKey)) (items : HashMap Bytes Bytes)
        (value key : Bytes)
        → is_latest account_id latest row ≡ true
        → row.data_value ≡ some value
        → row.key.1 ≡ codec.hex.encode key
        → collect_items codec (selected_rows (row ∷ rows)) items
          ≡ collect_items codec (selected_rows rows) (insert key value items)
    unfolding filter collect_items
    collect_selected row rows items value key selected has_value encoded =
        rw selected (ground (arith, has_value, ap codec.decode encoded, codec.decode-encode key))

    collect_skipped :
        (row : Row DataKey) (rows : List (Row DataKey)) (items : HashMap Bytes Bytes)
        → is_latest account_id latest row ≡ false
        → collect_items codec (selected_rows (row ∷ rows)) items
          ≡ collect_items codec (selected_rows rows) items
    unfolding filter
    collect_skipped row rows items skipped = rw skipped refl

    collect_nil :
        (items : HashMap Bytes Bytes) → collect_items codec (selected_rows []) items ≡ ok items
    unfolding filter collect_items
    collect_nil items = refl

    abbrev pub Holds : List (Row DataKey) → HashMap Bytes Bytes → HashMap Bytes Bytes → Type 0
    Holds rows items out =
        (collect_items codec (selected_rows rows) items ≡ ok out)
        × ((key : Bytes) → lookup key out ≡ or_else (last_of (kept_by key) rows) (lookup key items))

    -- Every row that is selected is decoded, and the last one with a key is what is held under it.
    pub collect_items-kept :
        (rows : List (Row DataKey)) (items : HashMap Bytes Bytes)
        → IsEncoded rows
        → (out : HashMap Bytes Bytes) × Holds rows items out
    unfolding last_of
    collect_items-kept [] items encoded = (items, (collect_nil items, λ key. refl))
    collect_items-kept (row ∷ rows) items encoded =
        by_value row.data_value refl (is_latest account_id latest row) refl
          (λ more. collect_items-kept rows more encoded.1)
      where
        by_value :
            (value : Option Bytes)
            → row.data_value ≡ value
            → (selected : Bool) → is_latest account_id latest row ≡ selected
            → ((more : HashMap Bytes Bytes) → (out : HashMap Bytes Bytes) × Holds rows more out)
            → (out : HashMap Bytes Bytes) × Holds (row ∷ rows) items out
        by_value value has_value false skipped rest =
            let (out, held) = rest items in
            (
              out,
              (
                collect_skipped row rows items skipped ∙ held.0,
                λ key. ground (arith, held.1 key, skipped),
              ),
            )
        by_value none has_value true selected rest = absurd (ground (arith, selected, has_value))
        by_value (some value) has_value true selected rest =
            let (bs, encoded_key) = encoded.0 in
            let (out, held) = rest (insert bs value items) in
            (
              out,
              (
                collect_selected row rows items value bs selected has_value encoded_key ∙ held.0,
                λ key. ground (
                  arith,
                  held.1 key,
                  selected,
                  has_value,
                  encoded_key,
                  lookup-insert bs key value items,
                  encode-injective key bs,
                  ap codec.hex.encode,
                ),
              ),
            )

  -- The rows are collected into a map.
  pub collect_items-IsMap :
      (rows : List (Row DataKey)) (items out : HashMap Bytes Bytes)
      → IsMap items
      → collect_items codec rows items ≡ ok out
      → IsMap out
  unfolding collect_items
  collect_items-IsMap [] items out map h = rw (ok-injective h) at map
  collect_items-IsMap (row ∷ rows) items out map h =
      by_parts (fetch_one (some row)) (codec.decode row.key.1)
        (λ key value.
          collect_items-IsMap rows (insert key value items) out (insert-IsMap key value items map))
        h
    where
      by_parts :
          (r : Result (Row DataKey × Bytes)) (q : Result Bytes)
          → ((key value : Bytes)
              → collect_items codec rows (insert key value items) ≡ ok out
              → IsMap out)
          → (r >>= λ found. q >>= λ key. collect_items codec rows (insert key found.1 items))
            ≡ ok out
          → IsMap out
      by_parts (ok found) (ok key) rest h = rest key found.1 h
      by_parts (ok found) (err _) rest h = absurd cc
      by_parts (ok found) (panic _) rest h = absurd cc
      by_parts (err _) q rest h = absurd cc
      by_parts (panic _) q rest h = absurd cc
