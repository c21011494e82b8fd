-- ===== src/FinalityCache.antt =====
-- cache-storage/src/lib.rs: `BlocksByFinalityCache`, the latest block of each finality in Redis, with
-- its height beside it. The JSON of a finality is a parameter; a height is stored as its decimal text.
pub mod Newest
use read_rpc.Prelude.{ℕ, Option, [], ◌∷◌, ◌++◌, Text, Bytes, codes, ltb, if◌then◌else◌}
use read_rpc.Prelude.Decimal.{u64_to_string, parse_u64}
use read_rpc.Prelude.Outcome.{Result, ok, ok_or, unwrap_or}
use read_rpc.Prelude.Outcome
use read_rpc.Prelude.Exec.{Exec, pure, lift, join_all, ◌>>=◌}
use read_rpc.Views.{Finality, StreamerMessage}
use read_rpc.Backend.{Redis, Serde}

abbrev pub height_key : Text → Text
height_key block_type = block_type ++ codes "_height"

module _ (redis : Redis) (json : Finality → Result Text) (serde : Serde StreamerMessage) where
  -- `get` of a number.
  unfoldable pub get_u64 : Text → Exec redis.State ℕ
  get_u64 key = do
    value ← redis.get key
    lift (ok_or (parse_u64 value) (codes "Response was of incompatible type"))

  -- `unwrap_or`: an error, as of a missing key, counts as the value.
  unfoldable pub get_u64_or : ℕ → Text → Exec redis.State ℕ
  get_u64_or d key s = let (r, s') = get_u64 key s in (unwrap_or r d, s')

  unfoldable pub set_block : Text → ℕ → StreamerMessage → Exec redis.State Unit
  set_block block_type block_height message = do
    json_streamer_message ← lift (serde.to_vec message)
    join_all (
        redis.set (height_key block_type) (u64_to_string block_height)
        ∷ redis.set block_type json_streamer_message
        ∷ [])

  unfoldable pub update_block_by_finality : Finality → StreamerMessage → Exec redis.State Unit
  update_block_by_finality finality message = do
    block_type ← lift (json finality)
    last_height ← get_u64_or 0 (height_key block_type)
    if ltb last_height message.block.header.height
        then set_block block_type message.block.header.height message
        else pure tt

  unfoldable pub get_block_by_finality : Finality → Exec redis.State StreamerMessage
  get_block_by_finality finality = do
    block_type ← lift (json finality)
    resp ← redis.get block_type
    lift (serde.from_slice resp)

  unfoldable pub update_protocol_version : ℕ → Exec redis.State Unit
  update_protocol_version version = redis.set (codes "protocol_version") (u64_to_string version)

  unfoldable pub get_protocol_version : Exec redis.State ℕ
  get_protocol_version = get_u64 (codes "protocol_version")
