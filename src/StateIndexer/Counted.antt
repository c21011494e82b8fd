-- ===== src/StateIndexer/Counted.antt =====
-- logic-state-indexer/src/lib.rs: the statistics over a sequence of blocks.
use read_rpc.Prelude.{
  ℕ, suc, ◌+◌, ◌^◌, ◌≡◌, ◌≢◌, ◌<◌, refl, sym, ap, ◌∙◌, Option, none, some, List, [], ◌∷◌, ◌==◌,
  Text, All, length, get_or, if◌then◌else◌, add_u64, add_u64_exact, arith, ℕ_eq, text_eq,
}
use read_rpc.Prelude.Outcome.{Result, ok, err, panic}
use read_rpc.Prelude.Exec.{Exec, each, continue}
use read_rpc.Views.{CryptoHash, StreamerMessage}
use read_rpc.Rightsizing.{RightsizingConfig}
use read_rpc.Primitives.Key.{HashText}
use read_rpc.Blocks.Finality.{i64_try_from}
use read_rpc.StateIndexer.{Encoding, ChangesDb}
use read_rpc.StateIndexer.Message.{
  Stats, Services, save_message, processed, next_epoch, insert_height, finish, follow_epoch,
  handle_streamer_message,
}

abbrev epoch_of : StreamerMessage → CryptoHash
epoch_of message = message.block.header.epoch_id

-- The epoch of the last block, and how often the epoch changes from block to block.
unfoldable pub last_epoch : CryptoHash → List StreamerMessage → CryptoHash
last_epoch e [] = e
last_epoch e (m ∷ ms) = last_epoch (epoch_of m) ms

unfoldable pub epoch_changes : CryptoHash → List StreamerMessage → ℕ
epoch_changes e [] = 0
epoch_changes e (m ∷ ms) = (if epoch_of m == e then 0 else 1) + epoch_changes (epoch_of m) ms

unfoldable pub last_height : ℕ → List StreamerMessage → ℕ
last_height h [] = h
last_height h (m ∷ ms) = last_height m.block.header.height ms

each_cons :
    {S A : Type 0} (x : A) (xs : List A) (m : A → Exec S Unit) (s after : S)
    → each (x ∷ xs) m s ≡ (ok tt, after)
    → (middle : S) × (m x s ≡ (ok tt, middle)) × (each xs m middle ≡ (ok tt, after))
unfolding each
each_cons {S} {A} x xs m s after done = by_first (m x s) refl done
  where
    by_first :
        (p : Result {0} Unit × S)
        → m x s ≡ p
        → continue p.0 (λ _. each xs m) p.1 ≡ (ok tt, after)
        → (middle : S) × (m x s ≡ (ok tt, middle)) × (each xs m middle ≡ (ok tt, after))
    by_first (ok _, middle) first rest = (middle, first, rest)
    by_first (err _, middle) first rest = absurd cc
    by_first (panic _, middle) first rest = absurd cc

module _ (hashes : HashText) (enc : Encoding) (config : RightsizingConfig) (indexer_id : Text)
    (db : ChangesDb) (services : Services db) where
  abbrev handle : StreamerMessage → Exec (Stats × db.State) Unit
  handle = handle_streamer_message hashes enc config indexer_id db services

  -- What one block does to the numbers.
  pub record IsCounted (m : StreamerMessage) (e : CryptoHash) (before after : Stats) : Type 0 where
    pub epoch : after.current_epoch_id ≡ some (epoch_of m)
    pub epoch_height : after.current_epoch_height ≡ (
        if epoch_of m == e
        then before.current_epoch_height
        else if e == 0
        then 1
        else add_u64 before.current_epoch_height 1)
    pub count : after.blocks_processed_count ≡ add_u64 before.blocks_processed_count 1
    pub height : after.last_processed_block_height ≡ m.block.header.height

  counted :
      (m : StreamerMessage) (e : CryptoHash) (before stats after : Stats)
      → before.current_epoch_id ≡ some e
      → stats.current_epoch_id ≡ before.current_epoch_id
      → stats.current_epoch_height ≡ before.current_epoch_height
      → stats.blocks_processed_count ≡ before.blocks_processed_count
      → after
        ≡ next_epoch hashes enc config indexer_id db services
            (epoch_of m)
            e
            (processed hashes enc config indexer_id db services m.block.header.height stats)
      → IsCounted m e before after
  unfolding processed next_epoch
  counted m e before stats after known same_id same_height same_count done = record {
    epoch = ap (λ (t : Stats). t.current_epoch_id) done ∙ ground (arith, known, same_id);
    epoch_height = ap (λ (t : Stats). t.current_epoch_height) done ∙ ground (arith, same_height);
    count = ap (λ (t : Stats). t.blocks_processed_count) done ∙ ground (arith, same_count);
    height = ap (λ (t : Stats). t.last_processed_block_height) done ∙ ground (arith);
  }

  handled :
      (m : StreamerMessage) (e : CryptoHash) (stats : Stats) (s : db.State)
      (after : Stats × db.State)
      → stats.current_epoch_id ≡ some e
      → handle m (stats, s) ≡ (ok tt, after)
      → IsCounted m e stats after.0
  unfolding handle_streamer_message follow_epoch
  handled m e stats s after known done =
      let saved = save_message hashes enc config indexer_id db services m entered s in
      by_saved saved.0 saved.1 done
    where
      entered : Stats
      entered = record stats {
        block_heights_processing =
            insert_height m.block.header.height stats.block_heights_processing;
      }

      by_epoch :
          (id : Option CryptoHash) (s' : db.State)
          → id ≡ some e
          → follow_epoch hashes enc config indexer_id db services
              (epoch_of m)
              id
              (processed hashes enc config indexer_id db services m.block.header.height entered)
              s'
            ≡ (ok tt, after)
          → IsCounted m e stats after.0
      by_epoch none s' same done = absurd cc
      by_epoch (some e') s' same done = counted m e stats entered after.0 known refl refl refl (
          sym (ap (λ (p : Result {0} Unit × (Stats × db.State)). p.1.0) done)
          ∙ ap
              (λ (found : Option CryptoHash).
                next_epoch hashes enc config indexer_id db services (epoch_of m) (get_or found e) (
                  processed hashes enc config indexer_id db services m.block.header.height entered))
              same)

      by_gauge :
          (gauge : Result ℕ) (s' : db.State)
          → elim gauge as (λ _. Result {0} Unit × (Stats × db.State)) [
            | ok _ ↦
                follow_epoch hashes enc config indexer_id db services
                  (epoch_of m)
                  entered.current_epoch_id
                  (processed hashes enc config indexer_id db services m.block.header.height entered)
                  s'
            | err e ↦ (err e, (entered, s'))
            | panic p ↦ (panic p, (entered, s'))
          ]
            ≡ (ok tt, after)
          → IsCounted m e stats after.0
      by_gauge (ok _) s' done = by_epoch entered.current_epoch_id s' known done
      by_gauge (err _) s' done = absurd cc
      by_gauge (panic _) s' done = absurd cc

      by_saved :
          (r : Result {0} Unit) (s' : db.State)
          → finish hashes enc config indexer_id db services m entered r s' ≡ (ok tt, after)
          → IsCounted m e stats after.0
      by_saved (ok _) s' done = by_gauge (i64_try_from m.block.header.height) s' done
      by_saved (err _) s' done = absurd cc
      by_saved (panic _) s' done = absurd cc

  -- After a sequence of blocks that are all handled without an error: the statistics name the epoch
  -- of the last block, its height counts every change of the epoch from block to block, all blocks
  -- are counted, and the last height is that of the last block. The statistics named an epoch
  -- before, no epoch is the zero hash, and the counters stay below 2^64.
  pub handled_counts :
      (messages : List StreamerMessage) (e : CryptoHash) (stats : Stats) (s : db.State)
      (after : Stats × db.State)
      → each messages handle (stats, s) ≡ (ok tt, after)
      → stats.current_epoch_id ≡ some e
      → e ≢ 0
      → All (λ m. epoch_of m ≢ 0) messages
      → stats.current_epoch_height + length messages < 2 ^ 64
      → stats.blocks_processed_count + length messages < 2 ^ 64
      → (after.0.current_epoch_id ≡ some (last_epoch e messages))
        × (after.0.current_epoch_height ≡ stats.current_epoch_height + epoch_changes e messages)
        × (after.0.blocks_processed_count ≡ stats.blocks_processed_count + length messages)
        × (after.0.last_processed_block_height
            ≡ last_height stats.last_processed_block_height messages)
  unfolding each last_epoch epoch_changes last_height
  handled_counts [] e stats s after done known real reals heights counts =
      let same : (stats, s) ≡ after = ap (λ (p : Result {0} Unit × (Stats × db.State)). p.1) done in
      rw (sym same) (known, omega arith, omega arith, refl)
  handled_counts (m ∷ ms) e stats s after done known real reals heights counts =
      let ((between, s'), first, rest) = each_cons m ms handle (stats, s) after done in
      let step = handled m e stats s (between, s') known first in
      let grown : between.current_epoch_height
          ≡ stats.current_epoch_height + (if epoch_of m == e then 0 else 1) =
        step.epoch_height
        ∙ ground
            (arith, real, add_u64_exact stats.current_epoch_height 1 (omega (arith, heights))) in
      let counted_one : between.blocks_processed_count ≡ suc stats.blocks_processed_count =
        step.count
        ∙ (add_u64_exact stats.blocks_processed_count 1 (omega (arith, counts)) ∙ omega arith) in
      let (last, height, count, block) =
        handled_counts ms (epoch_of m) between s' after rest step.epoch reals.0 reals.1
          (ground (arith, grown, heights)) (omega (arith, counted_one, counts)) in
      (
        last,
        height ∙ omega (arith, grown),
        count ∙ omega (arith, counted_one),
        block ∙ ap (λ h. last_height h ms) step.height,
      )
