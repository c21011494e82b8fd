-- ===== src/FinalityCache/Newest.antt =====
-- cache-storage/src/lib.rs: the block of a finality in Redis is the highest that was offered.
use read_rpc.Prelude.{
  ℕ, ◌≡◌, ◌≢◌, ◌<◌, refl, ap, inl, inr, Bool-cases, Option-cases, Option, none, some, Text, Bytes,
  codes, ltb, eqb, if◌then◌else◌, length, length-append, arith, text_eq, u64_mod,
}
use read_rpc.Prelude.Decimal.{u64_to_string, parse_u64, parse_u64-to_string}
use read_rpc.Prelude.Outcome.{Result, ok, ok_or}
use read_rpc.Prelude.Exec.{join_all}
use read_rpc.Views.{Finality, StreamerMessage}
use read_rpc.Backend.{Redis, Serde}
use read_rpc.FinalityCache.{get_u64, get_u64_or, height_key, set_block, update_block_by_finality}

-- A Redis server that answers: GET reads what the last SET of the key wrote.
pub record IsMemory (redis : Redis) : Type 0 where
  pub cell : redis.State → Text → Option Bytes
  pub missing : Text
  pub get_cell : (k : Text) (s : redis.State) → redis.get k s ≡ (ok_or (cell s k) missing, s)
  pub set_ok : (k : Text) (v : Bytes) (s : redis.State) → (redis.set k v s).0 ≡ ok tt
  pub cell-set :
      (k j : Text) (v : Bytes) (s : redis.State)
      → cell (redis.set k v s).1 j ≡ (if eqb k j then some v else cell s j)

height_key-apart : (t : Text) → height_key t ≢ t
height_key-apart t same = omega (arith, ap length same, length-append t (codes "_height"))

module _ (redis : Redis) (json : Finality → Result Text) (serde : Serde StreamerMessage)
    (m : IsMemory redis) where
  -- The height that stands beside the block of a finality, zero if there is none.
  abbrev pub stored_height : Text → redis.State → ℕ
  stored_height block_type s = elim (m.cell s (height_key block_type)) [
    | none ↦ 0
    | some text ↦ elim (parse_u64 text) [ none ↦ 0 | some n ↦ n ]
  ]

  get_height :
      (t : Text) (s : redis.State)
      → get_u64_or redis json serde 0 (height_key t) s ≡ (ok (stored_height t s), s)
  unfolding get_u64_or get_u64
  get_height t s = elim (Option-cases (m.cell s (height_key t))) [
    | inl absent ↦ rw (m.get_cell (height_key t) s, absent) (ground (arith, absent))
    | inr (text, there) ↦ elim (Option-cases (parse_u64 text)) [
      | inl unreadable ↦
          rw (m.get_cell (height_key t) s, there, unreadable) (ground (arith, there, unreadable))
      | inr (n, number) ↦
          rw (m.get_cell (height_key t) s, there, number) (ground (arith, there, number))
    ]
  ]

  set_block_lem :
      (t : Text) (h : ℕ) (message : StreamerMessage) (bytes : Bytes) (s : redis.State)
      → serde.to_vec message ≡ ok bytes
      → h < u64_mod
      → let (r, s') = set_block redis json serde t h message s in
        (r ≡ ok tt) × (stored_height t s' ≡ h) × (m.cell s' t ≡ some bytes)
  unfolding set_block join_all
  set_block_lem t h message bytes s encoded word =
      let s' = (redis.set (height_key t) (u64_to_string h) s).1 in
      rw (encoded, set_block, m.set_ok (height_key t) (u64_to_string h) s, m.set_ok t bytes s')
        (
          refl,
          ground (
            arith,
            height_key-apart t,
            m.cell-set t (height_key t) bytes s',
            m.cell-set (height_key t) (height_key t) (u64_to_string h) s,
            parse_u64-to_string h word,
          ),
          ground (arith, m.cell-set t t bytes s'),
        )

  -- If Redis answers and keeps what is set, the finality and the message can be encoded and the
  -- height is a 64-bit word, an update succeeds: it leaves the height of the finality at the
  -- greater of the old one and the block's, and stores the block exactly if it is higher than the
  -- one before.
  pub update_block_by_finality-newest :
      (f : Finality) (t : Text) (message : StreamerMessage) (bytes : Bytes) (s : redis.State)
      → json f ≡ ok t
      → serde.to_vec message ≡ ok bytes
      → message.block.header.height < u64_mod
      → let (r, s') = update_block_by_finality redis json serde f message s in
        let higher = ltb (stored_height t s) message.block.header.height in
        (r ≡ ok tt)
        × (stored_height t s' ≡ (if higher then message.block.header.height else stored_height t s))
        × (m.cell s' t ≡ (if higher then some bytes else m.cell s t))
  unfolding update_block_by_finality
  update_block_by_finality-newest f t message bytes s named encoded word =
      elim (Bool-cases (ltb (stored_height t s) message.block.header.height)) [
        | inl higher ↦
            rw (named, get_height t s, higher)
              (set_block_lem t message.block.header.height message bytes s encoded word)
        | inr old ↦ rw (named, get_height t s, old) (refl, refl, refl)
      ]
