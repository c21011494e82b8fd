-- ===== src/Primitives/Key.antt =====
-- `Display` and `From<String>` of `TransactionKey`: the text `{hash}_{height}` in which the key is
-- kept in Redis. The text of a hash is base58, which is not this program's code: a parameter.
use read_rpc.Prelude.{
  ℕ, ◌<◌, ◌≤◌, ◌≡◌, ◌≢◌, refl, Option, some, List, [], ◌∷◌, ◌++◌, Text, codes, All, ◌==◌,
  if◌then◌else◌, arith, u64_mod,
}
use read_rpc.Prelude.Decimal.{u64_to_string, parse_u64, parse_u64-to_string, digits-IsDigit}
use read_rpc.Prelude.Outcome.{Result, ok, panic, expect, ◌>>=◌}
use read_rpc.Views.{CryptoHash}
use read_rpc.Primitives.{TransactionKey}

-- `CryptoHash`'s `Display` and `FromStr`: printing is read back, and base58 has no underscore.
pub record HashText : Type 0 where
  pub to_string : CryptoHash → Text
  pub from_str : Text → Option CryptoHash
  pub from_str-to_string : (h : CryptoHash) → from_str (to_string h) ≡ some h
  pub to_string_plain : (h : CryptoHash) → All (λ c. c ≢ b'_') (to_string h)

abbrev push_char : ℕ → List Text → List Text
push_char c [] = (c ∷ []) ∷ []
push_char c (part ∷ parts) = (c ∷ part) ∷ parts

-- `str::split`
unfoldable pub split_on : ℕ → Text → List Text
split_on sep [] = [] ∷ []
split_on sep (c ∷ cs) =
    let parts = split_on sep cs in if c == sep then [] ∷ parts else push_char c parts

split_on_plain : (sep : ℕ) (t : Text) → All (λ c. c ≢ sep) t → split_on sep t ≡ t ∷ []
unfolding split_on
split_on_plain sep [] h = refl
split_on_plain sep (c ∷ t) h = ground (arith, split_on_plain sep t h.1)

split_on-append :
    (sep : ℕ) (t u : Text) → All (λ c. c ≢ sep) t → split_on sep (t ++ sep ∷ u) ≡ t ∷ split_on sep u
unfolding split_on
split_on-append sep [] u h = ground arith
split_on-append sep (c ∷ t) u h = ground (arith, split_on-append sep t u h.1)

digits_plain : (t : Text) → All (λ c. (48 ≤ c) × (c ≤ 57)) t → All (λ c. c ≢ b'_') t
digits_plain [] h = tt
digits_plain (c ∷ t) h = (omega arith, digits_plain t h.1)

module _ (hashes : HashText) where
  unfoldable pub key_to_string : TransactionKey → Text
  key_to_string key = hashes.to_string key.transaction_hash ++ b'_' ∷ u64_to_string key.block_height

  -- The parts after the second are not read.
  abbrev key_from_parts : List Text → Result TransactionKey
  key_from_parts [] = panic (codes "index out of bounds")
  key_from_parts (hash ∷ []) = do
    transaction_hash ← expect (hashes.from_str hash) (codes "Failed to parse transaction hash")
    panic (codes "index out of bounds")
  key_from_parts (hash ∷ height ∷ _) = do
    transaction_hash ← expect (hashes.from_str hash) (codes "Failed to parse transaction hash")
    block_height ← expect (parse_u64 height) (codes "Failed to parse block height")
    ok (record { transaction_hash = transaction_hash; block_height = block_height })

  unfoldable pub key_from_string : Text → Result TransactionKey
  key_from_string value = key_from_parts (split_on b'_' value)

  -- A key whose height is a `u64` is read back from its text.
  pub key_from_string-to_string :
      (key : TransactionKey)
      → key.block_height < u64_mod
      → key_from_string (key_to_string key) ≡ ok key
  unfolding key_from_string key_to_string
  key_from_string-to_string key h = rw (
    split_on-append b'_' (hashes.to_string key.transaction_hash) (u64_to_string key.block_height)
        (hashes.to_string_plain key.transaction_hash),
    split_on_plain b'_' (u64_to_string key.block_height)
        (digits_plain _ (digits-IsDigit 20 key.block_height)),
    hashes.from_str-to_string key.transaction_hash,
    parse_u64-to_string key.block_height h,
  )
