-- ===== src/Blocks/Latest.antt =====
-- rpc-server/src/modules/blocks/mod.rs: what is read from the changes of a block is the last change
-- of the block to what is asked for.
use read_rpc.Prelude.{
  ◌≡◌, refl, Option, none, some, List, [], ◌∷◌, Bytes, eqb, text_eq, arith, if◌then◌else◌, get_or,
}
use read_rpc.Prelude.HashMap.{HashMap, lookup, lookup-upsert, lookup-nil, lookup-insert}
use read_rpc.Prelude.Outcome.{to_option}
use read_rpc.Views.{
  AccountId, PublicKey, AccountView, AccessKeyView, StateChangeValueView, account_update,
  account_deletion, access_key_update, access_key_deletion, data_update, data_deletion,
  contract_code_update, contract_code_deletion, StateChangeWithCauseView,
}
use read_rpc.Blocks.{
  AccountChangesInBlock, changes, unchanged, ChangesMap, no_changes, change_account, set_account,
  set_code, set_access_key, set_data, record_change, record_changes, starts_with,
  account_changes_in_block, code_changes_in_block, access_key_changes_in_block, with_prefix,
  state_changes_in_block,
}

abbrev pub or_else {ℓ} : {A : Type ℓ} → Option A → Option A → Option A
or_else none d = d
or_else (some a) d = some a

-- The last `some` among the images of a list.
unfoldable pub last_of : {A B : Type 0} → (A → Option B) → List A → Option B
last_of f [] = none
last_of f (x ∷ xs) = or_else (last_of f xs) (f x)

abbrev pub account_of : StateChangeValueView → AccountId
account_of (account_update id a) = id
account_of (account_deletion id) = id
account_of (access_key_update id k a) = id
account_of (access_key_deletion id k) = id
account_of (data_update id k v) = id
account_of (data_deletion id k) = id
account_of (contract_code_update id code) = id
account_of (contract_code_deletion id) = id

-- What a change says of its account, of the account's code, of an access key and of a key of its
-- state: `none` says nothing, `some none` is a deletion.
abbrev pub account_value : StateChangeValueView → Option (Option AccountView)
account_value (account_update id a) = some (some a)
account_value (account_deletion id) = some none
account_value _ = none

abbrev pub code_value : StateChangeValueView → Option (Option Bytes)
code_value (contract_code_update id code) = some (some code)
code_value (contract_code_deletion id) = some none
code_value _ = none

abbrev pub access_key_value : PublicKey → StateChangeValueView → Option (Option AccessKeyView)
access_key_value key (access_key_update id k a) = if eqb k key then some (some a) else none
access_key_value key (access_key_deletion id k) = if eqb k key then some none else none
access_key_value key _ = none

abbrev pub data_value : Bytes → StateChangeValueView → Option (Option Bytes)
data_value key (data_update id k v) = if eqb k key then some (some v) else none
data_value key (data_deletion id k) = if eqb k key then some none else none
data_value key _ = none

-- The last of the changes that says something of the account `id`.
abbrev pub last_about :
    {B : Type 0}
    → (StateChangeValueView → Option B)
    → AccountId
    → List StateChangeWithCauseView
    → Option B
last_about value id = last_of (λ c. if eqb (account_of c.value) id then value c.value else none)

-- How a change edits the entry of its account.
abbrev edit : StateChangeValueView → AccountChangesInBlock → AccountChangesInBlock
edit (account_update id a) = set_account (some a)
edit (account_deletion id) = set_account none
edit (access_key_update id k a) = set_access_key k (some a)
edit (access_key_deletion id k) = set_access_key k none
edit (data_update id k v) = set_data k (some v)
edit (data_deletion id k) = set_data k none
edit (contract_code_update id code) = set_code (some code)
edit (contract_code_deletion id) = set_code none

record_change-edit :
    (c : StateChangeValueView) (m : ChangesMap)
    → record_change c m ≡ change_account (account_of c) (edit c) m
unfolding record_change
record_change-edit (account_update id a) m = refl
record_change-edit _ m = refl

module _ {B : Type 0} (read : AccountChangesInBlock → Option B)
    (value : StateChangeValueView → Option B) (fresh : read no_changes ≡ none)
    (step : (c : StateChangeValueView) (acc : AccountChangesInBlock)
      → read (edit c acc) ≡ or_else (value c) (read acc)) where
  abbrev view : AccountId → ChangesMap → Option B
  view id m = elim (lookup id m) [ none ↦ none | some acc ↦ read acc ]

  view-record_change :
      (id : AccountId) (c : StateChangeValueView) (m : ChangesMap)
      → view id (record_change c m)
        ≡ or_else (if eqb (account_of c) id then value c else none) (view id m)
  view-record_change id c m = rw (record_change-edit c m) (
      ground (
        arith,
        lookup-upsert (account_of c) id (edit c) (edit c no_changes) m,
        fresh,
        step c no_changes,
        step c (get_or (lookup (account_of c) m) no_changes),
      ))

  view-record_changes :
      (id : AccountId) (cs : List StateChangeWithCauseView) (m : ChangesMap)
      → view id (record_changes cs m) ≡ or_else (last_about value id cs) (view id m)
  unfolding record_changes last_of
  view-record_changes id [] m = refl
  view-record_changes id (c ∷ cs) m =
      ground (
        arith,
        view-record_changes id cs (record_change c.value m),
        view-record_change id c.value m,
      )

  view_block :
      (id : AccountId) (cs : List StateChangeWithCauseView)
      → view id (record_changes cs []) ≡ last_about value id cs
  unfolding lookup
  view_block id cs = ground (arith, view-record_changes id cs [])

read_account : AccountChangesInBlock → Option (Option AccountView)
read_account acc = elim acc.account_changes [ unchanged ↦ none | changes a ↦ some a ]

-- For every block and account, what is read of the account is the last change of the block to it:
-- its new value, absent if that change deletes it, and an error if no change of the block says
-- anything of it.
pub account_changes_last :
    (cs : List StateChangeWithCauseView) (id : AccountId)
    → to_option (account_changes_in_block (record_changes cs []) id)
      ≡ last_about account_value id cs
unfolding account_changes_in_block read_account
account_changes_last cs id =
    ground (arith, view_block read_account account_value refl account_step id cs)
  where
    account_step :
        (c : StateChangeValueView) (acc : AccountChangesInBlock)
        → read_account (edit c acc) ≡ or_else (account_value c) (read_account acc)
    account_step (account_update id a) acc = refl
    account_step _ acc = refl

read_code : AccountChangesInBlock → Option (Option Bytes)
read_code acc = elim acc.code_changes [ unchanged ↦ none | changes code ↦ some code ]

-- For every block and account, what is read of the account's code is the last change of the block
-- to it, absent if that change deletes it, and an error if there is none.
pub code_changes_last :
    (cs : List StateChangeWithCauseView) (id : AccountId)
    → to_option (code_changes_in_block (record_changes cs []) id) ≡ last_about code_value id cs
unfolding code_changes_in_block read_code
code_changes_last cs id = ground (arith, view_block read_code code_value refl code_step id cs)
  where
    code_step :
        (c : StateChangeValueView) (acc : AccountChangesInBlock)
        → read_code (edit c acc) ≡ or_else (code_value c) (read_code acc)
    code_step (account_update id a) acc = refl
    code_step _ acc = refl

-- For every block, account and public key, what is read of the access key is the last change of
-- the block to it, absent if that change deletes it, and an error if there is none.
pub access_key_changes_last :
    (cs : List StateChangeWithCauseView) (id : AccountId) (key : PublicKey)
    → to_option (access_key_changes_in_block (record_changes cs []) id key)
      ≡ last_about (access_key_value key) id cs
unfolding access_key_changes_in_block
access_key_changes_last cs id key =
    ground (arith, view_block read (access_key_value key) empty key_step id cs)
  where
    read : AccountChangesInBlock → Option (Option AccessKeyView)
    read acc = lookup key acc.access_key_changes

    empty : read no_changes ≡ none
    empty = lookup-nil key

    key_step :
        (c : StateChangeValueView) (acc : AccountChangesInBlock)
        → read (edit c acc) ≡ or_else (access_key_value key c) (read acc)
    key_step (access_key_update id k a) acc =
        ground (arith, lookup-insert k key (some a) acc.access_key_changes)
    key_step (access_key_deletion id k) acc =
        ground (arith, lookup-insert k key none acc.access_key_changes)
    key_step _ acc = refl

lookup-with_prefix :
    (prefix key : Bytes) (m : HashMap Bytes (Option Bytes))
    → lookup key (with_prefix prefix m) ≡ (if starts_with prefix key then lookup key m else none)
unfolding with_prefix lookup
lookup-with_prefix prefix key [] = ground arith
lookup-with_prefix prefix key ((k, v) ∷ m) =
    ground (arith, lookup-with_prefix prefix key m, lookup-insert k key v (with_prefix prefix m))

-- For every block, account and prefix, the state changes that are read hold under each key with the
-- prefix the last change of the block to that key of the account, absent if that change deletes
-- it, and nothing under any other key.
pub state_changes_last :
    (cs : List StateChangeWithCauseView) (id : AccountId) (prefix key : Bytes)
    → lookup key (state_changes_in_block (record_changes cs []) id prefix)
      ≡ (if starts_with prefix key then last_about (data_value key) id cs else none)
unfolding state_changes_in_block
state_changes_last cs id prefix key =
    by_entry (lookup id (record_changes cs []))
      (view_block read (data_value key) (lookup-nil key) data_step id cs)
  where
    read : AccountChangesInBlock → Option (Option Bytes)
    read acc = lookup key acc.state_changes

    data_step :
        (c : StateChangeValueView) (acc : AccountChangesInBlock)
        → read (edit c acc) ≡ or_else (data_value key c) (read acc)
    data_step (data_update id k v) acc =
        ground (arith, lookup-insert k key (some v) acc.state_changes)
    data_step (data_deletion id k) acc = ground (arith, lookup-insert k key none acc.state_changes)
    data_step _ acc = refl

    by_entry :
        (entry : Option AccountChangesInBlock)
        → elim entry as (λ _. Option (Option Bytes)) [ none ↦ none | some acc ↦ read acc ]
          ≡ last_about (data_value key) id cs
        → lookup key (elim entry as (λ _. HashMap Bytes (Option Bytes)) [
          | some acc ↦ with_prefix prefix acc.state_changes
          | none ↦ []
        ])
          ≡ (if starts_with prefix key then last_about (data_value key) id cs else none)
    by_entry none h = ground (arith, lookup-nil {V = Option Bytes} key)
    by_entry (some acc) h = ground (arith, lookup-with_prefix prefix key acc.state_changes)
