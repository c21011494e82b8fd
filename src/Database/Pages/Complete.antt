-- ===== src/Database/Pages/Complete.antt =====
-- database/src/postgres: a client that follows the page tokens reads the whole state of an account.
use mathlib.Core.List.{append-nil}
use read_rpc.Prelude.{
  ℕ, zero, suc, ◌+◌, ◌*◌, ◌^◌, ◌-◌, ◌≡◌, ◌≤◌, ◌<◌, refl, sym, ap, ◌∙◌, Bool, Bool-cases, inl, inr,
  Option, none, some, List, [], ◌++◌, Text, Bytes, All, map, length, ltb, add_u64_exact, arith,
  text_eq, ℕ_eq,
}
use read_rpc.Prelude.HashMap.{HashMap, IsMap, lookup}
use read_rpc.Prelude.Outcome.{Result, ok, ◌>>=◌, ok-injective}
use read_rpc.Views.{AccountId}
use read_rpc.Blocks.{starts_with}
use read_rpc.Database.{Row, DataKey, Pool, PostgresDbManager, get_shard_connection}
use read_rpc.Database.Reads.{Codec, get_state, latest_rows, every_key, get_account_state}
use read_rpc.Database.State.{Serves, value_at, get_account_state-value}
use read_rpc.Database.Pages.{
  PageState, new_page, next_page, Tokens, PageToken, page_of, page_token, order_by_key, take, drop,
  limit_offset, get_state_by_page,
}
use read_rpc.Database.Pages.Rows.{item, IsReadable, latest_rows-items}
use read_rpc.Database.Pages.Items.{
  order_by_key-All, order_by_key-items, length-order_by_key, collect_items-map, take-IsMap,
  drop-IsMap, take-All, drop-All, map_split, drop-drop, length-drop, take_full, drop_short,
  length-map,
}

abbrev Pages : Type 0
Pages = Option (HashMap Bytes Bytes)

abbrev and_more : HashMap Bytes Bytes → Pages → Pages
and_more items none = none
and_more items (some rest) = some (items ++ rest)

abbrev go_on : HashMap Bytes Bytes → PageToken → (PageToken → Result Pages) → Result Pages
go_on items none more = ok (some items)
go_on items (some token) more = more (some token) >>= λ rest. ok (and_more items rest)

module _ (codec : Codec) (tokens : Tokens) (before : Text → Text → Bool) (db : PostgresDbManager)
    (id : AccountId) (h : ℕ) where
  -- A client that asks for page after page with the token of the page before, at most so often.
  unfoldable pub all_pages : ℕ → PageToken → Result Pages
  all_pages zero token = ok none
  all_pages (suc fuel) token = do
    page ← get_state_by_page codec tokens before db id h token
    go_on page.0 page.1 (all_pages fuel)

  module _ (pool : Pool) (serves : Serves codec db id pool) where
    abbrev rows : List (Row DataKey)
    rows = order_by_key before (latest_rows id every_key h pool.state_changes_data)

    abbrev page_rows : PageState → List (Row DataKey)
    page_rows page = take page.page_size (drop page.offset rows)

    rows-All : All (IsReadable codec) rows
    rows-All =
        order_by_key-All codec before (IsReadable codec)
          (latest_rows id every_key h pool.state_changes_data)
          (latest_rows-items codec id every_key h pool.state_changes_data serves.table
            serves.encoded).0

    rows-items :
        IsMap (map (item codec) rows)
        × ((key : Bytes)
            → lookup key (map (item codec) rows)
              ≡ lookup key (map (item codec) (latest_rows id every_key h pool.state_changes_data)))
    rows-items =
        order_by_key-items codec before (latest_rows id every_key h pool.state_changes_data)
          (latest_rows-items codec id every_key h pool.state_changes_data serves.table
            serves.encoded).1

    in_limits :
        (page : PageState)
        → page.page_size < 2 ^ 63
        → page.offset < 2 ^ 63
        → limit_offset page rows ≡ ok (page_rows page)
    unfolding limit_offset
    in_limits page small near = ground arith

    one_page :
        (token : PageToken) (page : PageState)
        → page_of codec tokens before token ≡ ok page
        → page.page_size < 2 ^ 63
        → page.offset < 2 ^ 63
        → get_state_by_page codec tokens before db id h token
          ≡ ok (
            map (item codec) (page_rows page),
            page_token codec tokens before page (map (item codec) (page_rows page)),
          )
    unfolding get_state_by_page get_shard_connection
    one_page token page read small near =
        rw
          (
            serves.connected,
            read,
            serves.executes 4,
            in_limits page small near,
            collect_items-map codec (page_rows page)
                (take-All (IsReadable codec) page.page_size (drop page.offset rows)
                  (drop-All (IsReadable codec) page.offset rows rows-All))
                (take-IsMap codec page.page_size (drop page.offset rows)
                  (drop-IsMap codec page.offset rows rows-items.0)),
          )
          refl

    abbrev page_at : ℕ → PageState
    page_at offset = record { page_size = 1000; offset = offset }

    -- From an offset on, the client reads the rest of the items.
    pages-rest :
        (fuel : ℕ) (token : PageToken) (offset : ℕ)
        → page_of codec tokens before token ≡ ok (page_at offset)
        → offset ≤ length rows
        → length rows < 2 ^ 62
        → length rows - offset < 1000 * fuel
        → all_pages fuel token ≡ ok (some (map (item codec) (drop offset rows)))
    unfolding all_pages next_page
    pages-rest zero token offset read within few enough = absurd (omega (arith, enough))
    pages-rest (suc fuel) token offset read within few enough =
        let taken = page_rows (page_at offset) in
        let left = drop offset rows in
        let same_length = length-map (item codec) taken in
        rw (one_page token (page_at offset) read (omega arith) (omega (arith, within, few)))
          (elim (Bool-cases (ltb (length (map (item codec) taken)) 1000)) [
            | inl last ↦ rw last (
                ap (λ (l : HashMap Bytes Bytes). ok (some l))
                  (sym (append-nil (map (item codec) taken))
                    ∙ ap
                        (λ (rest : List (Row DataKey)).
                          map (item codec) taken ++ map (item codec) rest)
                        (sym (drop_short 1000 left (ground (arith, same_length))))
                    ∙ map_split (item codec) 1000 left))
            | inr more ↦
                let full : 1000 ≤ length left = take_full 1000 left (ground (arith, same_length)) in
                let longer : 1000 ≤ length rows - offset =
                  omega (arith, full, length-drop offset rows) in
                rw
                  (
                    more,
                    pages-rest fuel (some (tokens.encode (next_page (page_at offset))))
                        (offset + 1000)
                        (tokens.decode-encode (next_page (page_at offset))
                          ∙ ap (λ (n : ℕ). ok (page_at n))
                              (add_u64_exact offset 1000 (omega (arith, within, few))))
                        (omega (arith, longer, within)) few (omega (arith, longer, enough)),
                  )
                  (ap (λ (l : HashMap Bytes Bytes). ok (some l))
                    (ap
                        (λ (rest : List (Row DataKey)).
                          map (item codec) taken ++ map (item codec) rest)
                        (sym (drop-drop offset 1000 (offset + 1000) rows refl))
                      ∙ map_split (item codec) 1000 left))
          ])

  state_items :
      (pool : Pool)
      → Serves codec db id pool
      → get_account_state codec db id h []
        ≡ ok (map (item codec) (latest_rows id every_key h pool.state_changes_data))
  unfolding get_account_state get_state get_shard_connection
  state_items pool serves =
      let (all, distinct) =
        latest_rows-items codec id every_key h pool.state_changes_data serves.table
          serves.encoded in
      rw (serves.connected, serves.executes 2)
        (collect_items-map codec (latest_rows id every_key h pool.state_changes_data) all distinct)

  -- For a database that serves an account, a client that follows the page tokens from the first
  -- page reaches a last page, within one request more than there are full pages, and has then read
  -- the whole state of the account: each key once, and under each key the value of the last entry at
  -- the height or below, absent after a deletion. The account has less than 2^62 keys.
  pub all_pages-value :
      (pool : Pool) (fuel : ℕ)
      → Serves codec db id pool
      → length (latest_rows id every_key h pool.state_changes_data) < 2 ^ 62
      → length (latest_rows id every_key h pool.state_changes_data) < 1000 * fuel
      → (items : HashMap Bytes Bytes) × (all_pages fuel none ≡ ok (some items))
        × IsMap items
        × ((key : Bytes) → lookup key items ≡ value_at codec pool id h key)
  unfolding new_page starts_with drop
  all_pages-value pool fuel serves few enough =
      let latest = latest_rows id every_key h pool.state_changes_data in
      let same_length = length-order_by_key codec before latest in
      let (state, selected, map_of_state, holds) =
        get_account_state-value codec db id pool h [] serves in
      let (distinct, same) = rows-items pool serves in
      (
        map (item codec) (rows pool serves),
        pages-rest pool serves fuel none 0 refl (omega arith) (omega (arith, same_length, few))
            (omega (arith, same_length, enough)),
        distinct,
        λ key.
            same key
            ∙ ap (λ (m : HashMap Bytes Bytes). lookup key m)
                (ok-injective (sym (state_items pool serves) ∙ selected))
            ∙ holds key,
      )
