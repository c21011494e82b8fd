-- ===== src/Tests/CodeStorage.antt =====
-- rpc-server/src/modules/queries/contract_runner/code_storage.rs: a contract that reads its state.
use read_rpc.Prelude.{
  ◌≡◌, refl, ap, is_some, Option, true, some, none, [], ◌∷◌, Bytes, get_or, text_eq, ℕ_discrete,
  text_dec,
}
use read_rpc.Prelude.HashMap.{HashMap, lookup}
use read_rpc.Prelude.Outcome.{ok, ok-injective}
use read_rpc.CodeStorage.{
  Database, CodeStorage, new_storage, init, get_state_from_db, get_state_key_value_from_db,
  storage_get, storage_has_key,
}
use read_rpc.CodeStorage.Overlay.{stored, IsWholeState, empty_value-differs}
use read_rpc.Tests.Fixtures.{alice}

abbrev state : HashMap Bytes Bytes
state = (1 ∷ [], 9 ∷ []) ∷ (2 ∷ [], []) ∷ []

abbrev db : Database
db = record {
  get_state_key_value = λ id h key. ok (key, get_or (lookup key state) []);
  get_account_state = λ id h prefix. ok state;
  hash_count = λ n. n;
}

abbrev changed : HashMap Bytes (Option Bytes)
changed = (2 ∷ [], some []) ∷ (3 ∷ [], some (7 ∷ [])) ∷ (1 ∷ [], none) ∷ []

abbrev storage : CodeStorage
storage = new_storage alice 5 [] changed state

init_storage : init db alice 5 [] changed true ≡ ok storage
unfolding init get_state_from_db
init_storage = refl

state-IsWholeState :
    (fetched : HashMap Bytes Bytes)
    → get_state_from_db db alice 5 [] ≡ ok fetched
    → IsWholeState db alice 5 fetched
unfolding get_state_from_db get_state_key_value_from_db
state-IsWholeState fetched read key = ap (λ s. ok (get_or (lookup key s) [])) (ok-injective read)

empty_2 : stored db alice 5 (2 ∷ []) ≡ ok []
unfolding lookup text_dec ℕ_discrete get_state_key_value_from_db
empty_2 = refl

empty_value-differs_example :
    (storage_has_key db storage (2 ∷ []) ≡ ok (is_some (get_or (lookup (2 ∷ []) changed) none)))
    × (storage_get db storage (2 ∷ []) ≡ ok (get_or (lookup (2 ∷ []) changed) none))
empty_value-differs_example =
    empty_value-differs db alice 5 [] changed true storage (2 ∷ []) state-IsWholeState init_storage
      empty_2
