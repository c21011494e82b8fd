-- ===== src/StateIndexer/Groups.antt =====
-- logic-state-indexer/src/lib.rs: the changes that are collected reach the database shard by shard.
use read_rpc.Prelude.{
  ◌≡◌, ◌≢◌, refl, sym, ap, ◌∙◌, Bool-cases, inl, inr, some, List, [], ◌∷◌, ◌++◌, ◌==◌, map, first,
  arith,
}
use read_rpc.Views.{ShardId, StateChangeWithCauseView}
use read_rpc.StateIndexer.{ShardedStateChangesWithCause, Group, add_to_group, group_by_shard}

-- The changes of the groups in order, each with the shard that its group is stored under.
abbrev pub in_groups : List Group → List (ShardId × StateChangeWithCauseView)
in_groups [] = []
in_groups ((shard_id, changes) ∷ groups) = map (λ c. (shard_id, c)) changes ++ in_groups groups

-- Neighbouring groups have different shards.
abbrev pub IsSplit : List Group → Type 0
IsSplit [] = Unit
IsSplit (g ∷ groups) = (first (map (λ h. h.0) groups) ≢ some g.0) × IsSplit groups

in_groups-add_to_group :
    (c : ShardedStateChangesWithCause) (groups : List Group)
    → in_groups (add_to_group c groups) ≡ (c.shard_id, c.state_change) ∷ in_groups groups
unfolding add_to_group
in_groups-add_to_group c [] = refl
in_groups-add_to_group c ((shard_id, changes) ∷ groups) =
    elim (Bool-cases (c.shard_id == shard_id)) [
      | inl same ↦
          let equal : c.shard_id ≡ shard_id = ground arith in
          rw same (
            ap (λ s. (s, c.state_change) ∷ map (λ c. (shard_id, c)) changes ++ in_groups groups)
              (sym equal))
      | inr other ↦ rw other refl
    ]

add_to_group-IsSplit :
    (c : ShardedStateChangesWithCause) (groups : List Group)
    → IsSplit groups
    → IsSplit (add_to_group c groups)
unfolding add_to_group
add_to_group-IsSplit c [] split = ((λ h. cc), tt)
add_to_group-IsSplit c ((shard_id, changes) ∷ groups) split =
    elim (Bool-cases (c.shard_id == shard_id)) [
      | inl same ↦ rw same split
      | inr other ↦ rw other (ground arith, split)
    ]

-- Every change that is collected goes to the database in one group and with its own shard, in the
-- order of the collection, and neighbouring groups have different shards.
pub group_by_shard_lem :
    (changes : List ShardedStateChangesWithCause)
    → (in_groups (group_by_shard changes) ≡ map (λ c. (c.shard_id, c.state_change)) changes)
      × IsSplit (group_by_shard changes)
unfolding group_by_shard
group_by_shard_lem [] = (refl, tt)
group_by_shard_lem (c ∷ cs) =
    let rest = group_by_shard_lem cs in
    (
      in_groups-add_to_group c (group_by_shard cs)
          ∙ ap (λ l. (c.shard_id, c.state_change) ∷ l) rest.0,
      add_to_group-IsSplit c (group_by_shard cs) rest.1,
    )
