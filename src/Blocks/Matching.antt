-- ===== src/Blocks/Matching.antt =====
-- rpc-server/src/modules/blocks/utils.rs and methods.rs: which changes a request is answered with,
-- and which keys the changes of a block touched.
use mathlib.Core.List.{Memᴰ}
use mathlib.Core.List.Memᴰ
use read_rpc.Prelude.{
  sym, ◌↔◌, map, Eq, eqb, eqb-true, eqb_self, ◌≡◌, ◌≢◌, refl, inl, inr, Bool, true, false,
  Bool-cases, ◌&&◌, ◌||◌, Option, none, some, List, [], ◌∷◌, Bytes, first, contains, arith, text_eq,
}
use read_rpc.Views.{
  AccountId, PublicKey, StateChangeValueView, access_key_update, access_key_deletion, data_update,
  data_deletion, StateChangeWithCauseView,
}
use read_rpc.Blocks.{starts_with}
use read_rpc.Blocks.Latest.{account_of}
use read_rpc.Blocks.Requests.{
  AccountWithPublicKey, Hex, account_changes, all_access_key_changes, contract_code_changes,
  single_access_key_changes, data_changes, is_account_change, has_key, is_access_key_change,
  has_prefix, is_data_change, is_matching_change, TrieKey, trie_key_eq, is_last, unique_trie_keys,
  trie_keys,
}

pub starts_with-encode :
    (hex : Hex) (prefix key : Bytes)
    → starts_with (hex.encode prefix) (hex.encode key) ≡ starts_with prefix key
unfolding starts_with
starts_with-encode hex [] key = rw hex.encode-nil refl
starts_with-encode hex (p ∷ ps) [] = rw (hex.encode-nil, hex.encode-cons p ps) refl
starts_with-encode hex (p ∷ ps) (k ∷ ks) =
    rw (hex.encode-cons p ps, hex.encode-cons k ks)
      (ground (arith, starts_with-encode hex ps ks, hex.digits_injective p k))

-- The key of an account's state that a change is about.
abbrev pub data_key : StateChangeValueView → Option Bytes
data_key (data_update id key value) = some key
data_key (data_deletion id key) = some key
data_key _ = none

-- A request for data changes is answered with exactly the changes to keys of a requested account
-- that start with the prefix: comparing the hexadecimal texts finds the same keys as comparing
-- their bytes.
pub data_changes-prefix :
    (hex : Hex) (change : StateChangeWithCauseView) (account_ids : List AccountId) (prefix : Bytes)
    → is_matching_change hex change (data_changes account_ids prefix)
      ≡ elim (data_key change.value) [
        | some key ↦ contains (account_of change.value) account_ids && starts_with prefix key
        | none ↦ false
      ]
unfolding is_matching_change is_data_change has_prefix
data_changes-prefix hex change account_ids prefix = by_value change.value
  where
    by_value :
        (value : StateChangeValueView)
        → is_data_change hex value account_ids prefix ≡ elim (data_key value) [
          | some key ↦ contains (account_of value) account_ids && starts_with prefix key
          | none ↦ false
        ]
    by_value (data_update id key v) = ground (arith, starts_with-encode hex prefix key)
    by_value (data_deletion id key) = ground (arith, starts_with-encode hex prefix key)
    by_value _ = refl

-- A change to one of the accounts, but not to a key of its state.
abbrev pub is_wanted : StateChangeValueView → List AccountId → Bool
is_wanted value account_ids = elim (data_key value) [
  | some _ ↦ false
  | none ↦ contains (account_of value) account_ids
]

-- The requests for account changes, for access key changes and for contract code changes of some
-- accounts are answered alike: each with every change to these accounts but those of their state.
pub account_requests :
    (hex : Hex) (change : StateChangeWithCauseView) (account_ids : List AccountId)
    → (is_matching_change hex change (account_changes account_ids)
        ≡ is_wanted change.value account_ids)
      × (is_matching_change hex change (all_access_key_changes account_ids)
          ≡ is_wanted change.value account_ids)
      × (is_matching_change hex change (contract_code_changes account_ids)
          ≡ is_wanted change.value account_ids)
unfolding is_matching_change is_account_change
account_requests hex change account_ids =
    let answer = by_value change.value in (answer, answer, answer)
  where
    by_value :
        (value : StateChangeValueView)
        → is_account_change value account_ids ≡ is_wanted value account_ids
    by_value (data_update id key v) = refl
    by_value (data_deletion id key) = refl
    by_value _ = refl

-- The account and the key that a change to an access key is about.
abbrev pub changed_key : StateChangeValueView → Option (AccountId × PublicKey)
changed_key (access_key_update id key access_key) = some (id, key)
changed_key (access_key_deletion id key) = some (id, key)
changed_key _ = none

contains-map {ℓ κ} :
    {A : Type ℓ} {B : Type κ} ⦃e : Eq B⦄ (f : A → B) (b : B) (xs : List A)
    → contains b (map f xs) ≡ true
    → (a : A) × Memᴰ a xs × (f a ≡ b)
unfolding contains
contains-map f b [] h = absurd cc
contains-map f b (x ∷ xs) h = elim (Bool-cases (eqb b (f x))) [
  | inl here ↦ (x, Memᴰ.head refl, sym (eqb-true b (f x) here))
  | inr there ↦
      let (a, member, same) = contains-map f b xs (ground arith) in (a, Memᴰ.tail member, same)
]

contains-map_mem {ℓ κ} :
    {A : Type ℓ} {B : Type κ} ⦃e : Eq B⦄ (f : A → B) (a : A) (xs : List A)
    → Memᴰ a xs
    → contains (f a) (map f xs) ≡ true
unfolding contains
contains-map_mem f a [] member = absurd (Memᴰ.not-nil member)
contains-map_mem f a (x ∷ xs) (Memᴰ.head same) = ground (arith, same, eqb_self (f a))
contains-map_mem f a (x ∷ xs) (Memᴰ.tail member) = ground (arith, contains-map_mem f a xs member)

-- The account of the access key stands in one pair of the request, the key in one, maybe another.
abbrev pub IsCrossed : List AccountWithPublicKey → Option (AccountId × PublicKey) → Type 0
IsCrossed keys changed =
    (one : AccountWithPublicKey) × (other : AccountWithPublicKey) × Memᴰ one keys
    × Memᴰ other keys
    × (changed ≡ some (one.account_id, other.public_key))

has_key-IsCrossed :
    (id : AccountId) (key : PublicKey) (keys : List AccountWithPublicKey)
    → (has_key id key keys ≡ true) ↔ IsCrossed keys (some (id, key))
unfolding has_key
has_key-IsCrossed id key keys = (
  λ h.
      let (one, member, same) = contains-map (λ k. k.account_id) id keys (ground arith) in
      let (other, member', same') = contains-map (λ k. k.public_key) key keys (ground arith) in
      (one, other, member, member', rw (same, same') refl),
  λ (one, other, member, member', same). ground (
    arith,
    contains-map_mem (λ k. k.account_id) one keys member,
    contains-map_mem (λ k. k.public_key) other keys member',
    same,
  ),
)

-- A request for single access keys, which is a list of pairs of an account and a key, is answered with
-- a change exactly if the change is to an access key whose account stands in one pair of the request
-- and whose key stands in one, which may be another pair.
pub single_access_key-mixes :
    (hex : Hex) (change : StateChangeWithCauseView) (keys : List AccountWithPublicKey)
    → (is_matching_change hex change (single_access_key_changes keys) ≡ true)
      ↔ IsCrossed keys (changed_key change.value)
unfolding is_matching_change is_access_key_change
single_access_key-mixes hex change keys = by_value change.value
  where
    by_value :
        (value : StateChangeValueView)
        → (is_access_key_change value keys ≡ true) ↔ IsCrossed keys (changed_key value)
    by_value (access_key_update id key access_key) = has_key-IsCrossed id key keys
    by_value (access_key_deletion id key) = has_key-IsCrossed id key keys
    by_value _ = ((λ h. absurd cc), (λ h. absurd cc))

-- Neighbours differ.
abbrev pub IsUnique : List TrieKey → Type 0
IsUnique [] = Unit
IsUnique (key ∷ keys) = (first keys ≢ some key) × IsUnique keys

first-unique_trie_keys :
    (last : TrieKey) (keys : List TrieKey) → first (unique_trie_keys (some last) keys) ≢ some last
unfolding unique_trie_keys
first-unique_trie_keys last [] = λ h. cc
first-unique_trie_keys last (key ∷ keys) = ground (arith, first-unique_trie_keys key keys)

unique_trie_keys-IsUnique :
    (last : Option TrieKey) (keys : List TrieKey) → IsUnique (unique_trie_keys last keys)
unfolding unique_trie_keys
unique_trie_keys-IsUnique last [] = tt
unique_trie_keys-IsUnique last (key ∷ keys) = elim (Bool-cases (is_last key last)) [
  | inl same ↦ rw (same, unique_trie_keys) (unique_trie_keys-IsUnique (some key) keys)
  | inr new ↦
      rw (new, unique_trie_keys)
        (first-unique_trie_keys key keys, unique_trie_keys-IsUnique (some key) keys)
]

contains-unique_trie_keys :
    (k : TrieKey) (last : Option TrieKey) (keys : List TrieKey)
    → (contains k (unique_trie_keys last keys) || is_last k last)
      ≡ (contains k keys || is_last k last)
unfolding unique_trie_keys contains
contains-unique_trie_keys k last [] = refl
contains-unique_trie_keys k last (key ∷ keys) =
    ground (arith, contains-unique_trie_keys k (some key) keys)

-- The keys that the changes of a block are said to touch are exactly those under which a change of
-- the block is stored, and no two neighbours among them are the same.
pub touched_keys :
    (changes : List StateChangeWithCauseView)
    → let keys = unique_trie_keys none (trie_keys changes) in
      ((k : TrieKey) → contains k keys ≡ contains k (trie_keys changes)) × IsUnique keys
touched_keys changes = (
  λ k. ground (arith, contains-unique_trie_keys k none (trie_keys changes)),
  unique_trie_keys-IsUnique none (trie_keys changes),
)
