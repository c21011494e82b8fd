-- ===== src/Tests/Network.antt =====
-- rpc-server/src/modules/network/methods.rs: the validators of an epoch that ended with block 4.
use read_rpc.Prelude.{
  ℕ, ◌≡◌, refl, sym, ap, arith, inr, some, List, [], ◌∷◌, Bytes, codes, ℕ_eq, ℕ_discrete,
}
use read_rpc.Prelude.HashMap.{lookup}
use read_rpc.Prelude.Outcome.{Result, ok, err, ok-injective}
use read_rpc.Views.{AccountId, EpochValidatorInfo, height}
use read_rpc.Blocks.{cache_block, new_from_block_view}
use read_rpc.Database.Meta.{MetaDb, ValidatorsJson, save_validators, find_epoch_end}
use read_rpc.Network.{Node, other_error, of_epoch, of_block, validators}
use read_rpc.Network.Saved.{epochs, save_validators-answered}
use read_rpc.Tests.Crate.{crate}
use read_rpc.Tests.Server.{size, view, context, sources, fetch_4}

abbrev info : EpochValidatorInfo
info = record { epoch_height = 7; epoch_start_height = 1; current_validators = [] }

abbrev pub read_info : Bytes → Result EpochValidatorInfo
read_info (h ∷ start ∷ []) =
    ok (record { epoch_height = h; epoch_start_height = start; current_validators = [] })
read_info _ = err (codes "no validators")

abbrev pub written : ℕ → ℕ → List (AccountId × ℕ) → Result Bytes
written h start [] = ok (h ∷ start ∷ [])
written h start (v ∷ vs) = err (codes "too many validators")

pub read_info-written :
    (h start : ℕ) (vs : List (AccountId × ℕ)) (value : Bytes)
    → written h start vs ≡ ok value
    → read_info value
      ≡ ok (record { epoch_height = h; epoch_start_height = start; current_validators = vs })
read_info-written h start [] value e = ap read_info (sym (ok-injective e))
read_info-written h start (v ∷ vs) value e = absurd cc

abbrev json : ValidatorsJson
json = record {
  to_value = λ i. written i.epoch_height i.epoch_start_height i.current_validators;
  from_value = read_info;
  from_value-to_value =
      λ i. read_info-written i.epoch_height i.epoch_start_height i.current_validators;
}

abbrev db : MetaDb
db = record {
  execute = λ n. ok tt;
  blocks = (1004, 4) ∷ [];
  chunks = [];
  chunks_duplicate = [];
  validators = [];
  meta = [];
}

abbrev node : Node ℕ
node = record {
  validators = λ reference. other_error (codes "the node");
  validators_ordered = λ id. other_error (codes "the node");
  archival_validators_ordered = λ id. other_error (codes "the archival node");
}

ended : lookup 1004 db.blocks ≡ some 4
unfolding lookup ℕ_discrete
ended = refl

save_validators-answered_example :
    let after = save_validators json 4 7 1 info 1004 db in
    let answers = validators crate size sources (epochs json after.1) node 1 context in
    (after.0 ≡ ok tt)
    × ((answers (of_epoch 4)).0 ≡ ok (inr info))
    × ((answers (of_block (height 4))).0 ≡ ok (inr info))
unfolding cache_block new_from_block_view lookup find_epoch_end
save_validators-answered_example =
    save_validators-answered json crate size sources node 1 db 4 1004 7 1 4 info (7 ∷ 1 ∷ [])
      context (height 4) (cache_block (view 4)) (λ n. refl) refl ended refl refl
      (λ e. omega (arith, e)) fetch_4 refl
