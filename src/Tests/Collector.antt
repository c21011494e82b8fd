-- ===== src/Tests/Collector.antt =====
-- tx-indexer: two blocks through the collector, over a Redis server in memory.
use read_rpc.Prelude.{[], ◌∷◌, arith}
use read_rpc.Rightsizing.{RightsizingConfig}
use read_rpc.TxStorage.{init_storage}
use read_rpc.TxStorage.Consistency.{IsConsistent}
use read_rpc.Collector.{collect_blocks, transactions_of}
use read_rpc.Collector.Blocks.{collect_blocks-IsConsistent}
use read_rpc.Tests.Fixtures.{backend, connection, block_1, block_2}

abbrev everything : RightsizingConfig
everything = record { tracked_accounts = []; tracked_changes = [] }

collect_blocks-IsConsistent_example :
    IsConsistent 2
      (collect_blocks backend everything (block_1 ∷ block_2 ∷ []) (init_storage connection)).1
unfolding transactions_of
collect_blocks-IsConsistent_example =
    collect_blocks-IsConsistent backend everything (block_1 ∷ block_2 ∷ []) connection (omega arith)
