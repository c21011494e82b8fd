-- ===== src/Tests/Database.antt =====
-- database/src/postgres: a small block that is indexed into the tables of a shard and read again.
use read_rpc.Prelude.{
  ℕ, ◌+◌, ◌*◌, ◌-◌, ◌≡◌, length, filter, ◌<◌, refl, arith, true, Option, none, some, List, [], ◌∷◌,
  Text, Bytes, codes, ltb, leb, if◌then◌else◌, text_eq, ℕ_eq, ℕ_discrete, text_dec,
}
use read_rpc.Prelude.HashMap.{upsert, HashMap, IsMap, lookup, insert}
use read_rpc.Prelude.Outcome.{Result, ok, err, ◌>>=◌}
use read_rpc.Prelude.Exec.{join_all}
use read_rpc.Views.{StateChangeWithCauseView, data_update, data_deletion}
use read_rpc.Rightsizing.{
  RightsizingConfig, is_indexed_account, is_indexed_change, state_should_be_indexed,
}
use read_rpc.Blocks.{starts_with}
use read_rpc.Blocks.Latest.{last_of}
use read_rpc.StateIndexer.{
  StateChangesToStore, nothing, collect_change, insert_change, insert_data, collect_changes,
  save_data, save_changes, group_by_shard, add_to_group,
}
use read_rpc.Database.{
  data_key_eq, conflicts, conflicts_with, has_conflict, upsert_row, upsert_rows, insert_rows,
  data_key_dec, Pool, PostgresDbManager,
}
use read_rpc.Database.History.{history_of}
use read_rpc.Database.Reads.{Codec, get_account_state, latest_rows, latest_blocks, every_key}
use read_rpc.Database.Pages.{PageState, Tokens}
use read_rpc.Database.Pages.Complete.{all_pages, all_pages-value}
use read_rpc.Database.State.{Serves, value_at, get_account_state-value}
use read_rpc.Database.Saves.{data_row, rows_of, save_state_changes_data, writer}
use read_rpc.Database.Indexed.{encoding, indexed_value}
use read_rpc.Database.Served.{changed, save_data-value}
use read_rpc.CodeStorage.{CodeStorage, init, storage_get}
use read_rpc.CodeStorage.Postgres.{reader, not_empty, storage_get-value}
use read_rpc.Tests.Fixtures.{alice}
use read_rpc.Tests.Requests.{hex, digit}

abbrev value_of_digit : ℕ → ℕ
value_of_digit c = if ltb c 58 then c - 48 else c - 87

unfoldable pub decode_text : Text → Result Bytes
decode_text [] = ok []
decode_text (c ∷ []) = err (codes "Odd number of digits")
decode_text (c ∷ d ∷ text) = do
  rest ← decode_text text
  ok ((value_of_digit c * 16 + value_of_digit d) ∷ rest)

value_of_digit-digit : (d : ℕ) → value_of_digit (digit d) ≡ d
value_of_digit-digit d = ground arith

pub decode-encode : (bs : Bytes) → decode_text (hex.encode bs) ≡ ok bs
unfolding decode_text
decode-encode [] = refl
decode-encode (b ∷ bs) = ground (arith, decode-encode bs)

abbrev pub codec : Codec
codec = record {
  hex = hex;
  decode = decode_text;
  decode-encode = decode-encode;
  public_key_to_vec = λ key. ok (0 ∷ key);
  public_key_from_slice = λ bytes. ok bytes;
  account_to_vec = λ a. some (a.amount ∷ []);
  account_from_slice = λ bytes. err (codes "unreadable");
  access_key_to_vec = λ k. some [];
  access_key_from_slice = λ bytes. err (codes "unreadable");
}

-- Alice's state has the key 1 since block 3.
abbrev pub pool : Pool
pool = record {
  execute = λ n. ok tt;
  state_changes_data =
      record {
        key = (alice, hex.encode (1 ∷ []));
        block_height = 3;
        block_hash = 103;
        data_value = some (9 ∷ []);
      }
      ∷ [];
  state_changes_access_key = [];
  state_changes_contract = [];
  state_changes_account = [];
}

abbrev pub db : PostgresDbManager
db = record { account_id_to_shard_id = λ id. 0; shards_pool = (0, pool) ∷ [] }

pub alice-Serves : Serves codec db alice pool
unfolding lookup ℕ_discrete conflicts_with
alice-Serves = record {
  connected = refl;
  executes = λ n. refl;
  table = (refl, tt);
  encoded = ((1 ∷ [], refl), tt);
}

get_account_state-value_example :
    (state : HashMap Bytes Bytes) × (get_account_state codec db alice 4 (1 ∷ []) ≡ ok state)
    × IsMap state
    × ((key : Bytes)
        → lookup key state
          ≡ (if starts_with (1 ∷ []) key then value_at codec pool alice 4 key else none))
get_account_state-value_example =
    get_account_state-value codec db alice pool 4 (1 ∷ []) alice-Serves

storage_get-value_example :
    (s : CodeStorage) × (init (reader codec (λ n. n) db) alice 4 [] ((2 ∷ [], none) ∷ []) true
      ≡ ok s)
    × ((key : Bytes)
        → storage_get (reader codec (λ n. n) db) s key
          ≡ ok (elim (lookup {V = Option Bytes} key ((2 ∷ [], none) ∷ [])) as (λ _. Option Bytes) [
            | some value ↦ value
            | none ↦ not_empty codec (λ n. n) db (value_at codec pool alice 4 key)
          ]))
storage_get-value_example =
    storage_get-value codec (λ n. n) db alice pool 4 [] ((2 ∷ [], none) ∷ []) true alice-Serves

abbrev everything : RightsizingConfig
everything = record { tracked_accounts = []; tracked_changes = [] }

-- Block 5 sets the key 2 and deletes the key 1.
abbrev block : List StateChangeWithCauseView
block =
    record { cause = 1; value = data_update alice (2 ∷ []) (7 ∷ []) }
    ∷ record { cause = 2; value = data_deletion alice (1 ∷ []) }
    ∷ []

abbrev store_of : Result StateChangesToStore → StateChangesToStore
store_of (ok s) = s
store_of _ = nothing

abbrev store : StateChangesToStore
store =
    store_of (collect_changes (encoding codec db.account_id_to_shard_id) everything block nothing)

collected :
    collect_changes (encoding codec db.account_id_to_shard_id) everything block nothing ≡ ok store
unfolding collect_changes collect_change insert_change insert_data state_should_be_indexed
    is_indexed_account is_indexed_change insert text_dec
collected = refl

saved : (save_data (writer codec) 5 105 store db).0 ≡ ok tt
unfolding save_data save_changes group_by_shard add_to_group collect_changes collect_change
    insert_change insert_data state_should_be_indexed insert is_indexed_account is_indexed_change
    lookup join_all ℕ_discrete text_dec data_row rows_of save_state_changes_data insert_rows
    has_conflict conflicts_with conflicts upsert_row upsert_rows data_key_dec
saved = refl

-- No entry was stored above block 5.
nothing_above :
    (k : ℕ) → 5 < k → history_of pool.state_changes_data (alice, codec.hex.encode (1 ∷ [])) k ≡ none
unfolding history_of
nothing_above k above = ground arith

save_data-value_example :
    (pool' : Pool) × Serves codec (save_data (writer codec) 5 105 store db).1 alice pool'
    × ((h : ℕ)
        → value_at codec pool' alice h (1 ∷ [])
          ≡ changed
              (if leb 5 h then last_of (indexed_value everything alice (1 ∷ [])) block else none)
              (value_at codec pool alice h (1 ∷ [])))
save_data-value_example =
    save_data-value codec everything 5 105 db block store alice (1 ∷ []) pool collected saved
      alice-Serves nothing_above

abbrev decode_page : Text → Result PageState
decode_page (page_size ∷ offset ∷ []) = ok (record { page_size = page_size; offset = offset })
decode_page _ = err (codes "no page")

abbrev tokens : Tokens
tokens = record {
  encode = λ page. page.page_size ∷ page.offset ∷ [];
  decode = decode_page;
  decode-encode = λ page. refl;
}

one_row : length (latest_rows alice every_key 4 pool.state_changes_data) ≡ 1
unfolding latest_rows latest_blocks filter lookup upsert insert text_dec ℕ_discrete
one_row = refl

all_pages-value_example :
    (items : HashMap Bytes Bytes) × (all_pages codec tokens
        (λ a b. leb (length a) (length b))
        db
        alice
        4
        1
        none
      ≡ ok (some items))
    × IsMap items
    × ((key : Bytes) → lookup key items ≡ value_at codec pool alice 4 key)
all_pages-value_example =
    all_pages-value codec tokens (λ a b. leb (length a) (length b)) db alice 4 pool 1 alice-Serves
      (omega (arith, one_row)) (omega (arith, one_row))
