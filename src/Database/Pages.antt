-- ===== src/Database/Pages.antt =====
-- database/src/postgres: `PageState` and `get_state_by_page`, and rpc-server/src/modules/state: the
-- state of an account page by page. An `i64` is its 64 bits. The order of the keys is the
-- database's; hex and Borsh make a token of a page, from which it is read back.
pub mod Rows
pub mod Items
pub mod Complete
use read_rpc.Prelude.{
  ℕ, zero, suc, ◌^◌, ◌≡◌, Bool, Option, none, some, List, [], ◌∷◌, Text, Bytes, codes, ltb, leb,
  length, if◌then◌else◌, add_u64,
}
use read_rpc.Prelude.HashMap.{HashMap}
use read_rpc.Prelude.Outcome.{Result, ok, err, panic, ◌>>=◌, ◌>>◌}
use read_rpc.Views.{AccountId}
use read_rpc.Database.{Row, DataKey, PostgresDbManager, get_shard_connection}
use read_rpc.Database.Reads.{Codec, latest_rows, every_key, collect_items}

pub record PageState : Type 0 where
  pub page_size : ℕ
  pub offset : ℕ

unfoldable pub new_page : ℕ → PageState
new_page page_size = record { page_size = page_size; offset = 0 }

unfoldable pub next_page : PageState → PageState
next_page s = record { page_size = s.page_size; offset = add_u64 s.offset s.page_size }

pub record Tokens : Type 0 where
  pub encode : PageState → Text
  pub decode : Text → Result PageState
  pub decode-encode : (s : PageState) → decode (encode s) ≡ ok s

abbrev pub PageToken : Type 0
PageToken = Option Text

abbrev pub i64_negative : ℕ → Bool
i64_negative n = leb (2 ^ 63) n

module _ (before : Text → Text → Bool) where
  unfoldable pub insert_ordered : Row DataKey → List (Row DataKey) → List (Row DataKey)
  insert_ordered row [] = row ∷ []
  insert_ordered row (other ∷ rows) =
      let rest = insert_ordered row rows in
      if before row.key.1 other.key.1 then row ∷ other ∷ rows else other ∷ rest

  -- `ORDER BY sc.data_key`
  unfoldable pub order_by_key : List (Row DataKey) → List (Row DataKey)
  order_by_key [] = []
  order_by_key (row ∷ rows) = insert_ordered row (order_by_key rows)

module _ {A : Type 0} where
  unfoldable pub take : ℕ → List A → List A
  take zero xs = []
  take (suc n) [] = []
  take (suc n) (x ∷ xs) = x ∷ take n xs

  unfoldable pub drop : ℕ → List A → List A
  drop zero xs = xs
  drop (suc n) [] = []
  drop (suc n) (x ∷ xs) = drop n xs

-- `LIMIT $3 OFFSET $4`
unfoldable pub limit_offset : {A : Type 0} → PageState → List A → Result (List A)
limit_offset page xs =
    if i64_negative page.page_size
    then err (codes "LIMIT must not be negative")
    else if i64_negative page.offset
    then err (codes "OFFSET must not be negative")
    else ok (take page.page_size (drop page.offset xs))

module _ (codec : Codec) (tokens : Tokens) (before : Text → Text → Bool) where
  abbrev pub page_of : PageToken → Result PageState
  page_of none = ok (new_page 1000)
  page_of (some token) = tokens.decode token

  abbrev pub page_token : PageState → HashMap Bytes Bytes → PageToken
  page_token page items =
      if ltb (length items) page.page_size then none else some (tokens.encode (next_page page))

  unfoldable pub get_state_by_page :
      PostgresDbManager → AccountId → ℕ → PageToken → Result (HashMap Bytes Bytes × PageToken)
  get_state_by_page db account_id block_height token = do
    pool ← get_shard_connection db account_id
    page ← page_of token
    pool.execute 4
    rows ← limit_offset page (
        order_by_key before (latest_rows account_id every_key block_height pool.state_changes_data))
    items ← collect_items codec rows []
    ok (items, page_token page items)

  -- `PageStateValues` is its two fields; where the page cannot be read, it is the empty last one.
  unfoldable pub get_state_from_db_paginated :
      PostgresDbManager → AccountId → ℕ → PageToken → Result (List (Bytes × Bytes) × PageToken)
  get_state_from_db_paginated db account_id block_height token =
      elim (get_state_by_page db account_id block_height token) [
        | ok page ↦ ok page
        | err _ ↦ ok ([], none)
        | panic p ↦ panic p
      ]
