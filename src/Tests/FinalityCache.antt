-- ===== src/Tests/FinalityCache.antt =====
-- cache-storage/src/lib.rs: a block is offered to a Redis server in memory.
use read_rpc.Prelude.{
  ◌≡◌, refl, some, [], ◌∷◌, ltb, if◌then◌else◌, codes, text_eq, eqb, Text, Bytes, arith,
}
use read_rpc.Prelude.HashMap.{HashMap, lookup, insert, lookup-insert}
use read_rpc.Prelude.Outcome.{Result, ok, err, ok_or}
use read_rpc.Views.{Finality, StreamerMessage}
use read_rpc.Backend.{Redis, Serde}
use read_rpc.FinalityCache.{update_block_by_finality}
use read_rpc.FinalityCache.Newest.{IsMemory, stored_height, update_block_by_finality-newest}
use read_rpc.Tests.Fixtures.{block_2}

abbrev absent : Text
absent = codes "nil"

-- Only strings are kept.
abbrev memory : Redis
memory = record {
  State = HashMap Text Bytes;
  keys = λ pattern s. (ok [], s);
  get = λ key s. (ok_or (lookup key s) absent, s);
  set = λ key value s. (ok tt, insert key value s);
  del = λ key s. (ok tt, s);
  rpush = λ key value s. (ok tt, s);
  rpushx = λ key value s. (ok tt, s);
  lrange = λ key s. (ok [], s);
}

cell-insert :
    (k j : Text) (v : Bytes) (s : HashMap Text Bytes)
    → lookup j (insert k v s) ≡ (if eqb k j then some v else lookup j s)
cell-insert k j v s = ground (arith, lookup-insert k j v s)

memory-IsMemory : IsMemory memory
memory-IsMemory = record {
  cell = λ s k. lookup k s;
  missing = absent;
  get_cell = λ k s. refl;
  set_ok = λ k v s. refl;
  cell-set = cell-insert;
}

abbrev name_of : Finality → Result Text
name_of f = ok (codes "final")

abbrev one_byte : Serde StreamerMessage
one_byte = record {
  to_vec = λ m. ok (m.block.header.height ∷ []);
  from_slice = λ bytes. err (codes "unreadable");
}

-- The height 1 is stored, and block 2 is offered.
abbrev stored : HashMap Text Bytes
stored = (codes "final_height", codes "1") ∷ (codes "final", 1 ∷ []) ∷ []

update_block_by_finality-newest_example :
    let (r, s') = update_block_by_finality memory name_of one_byte Finality.final block_2 stored in
    let before = stored_height memory name_of one_byte memory-IsMemory (codes "final") stored in
    (r ≡ ok tt)
    × (stored_height memory name_of one_byte memory-IsMemory (codes "final") s'
        ≡ (if ltb before block_2.block.header.height then block_2.block.header.height else before))
    × (memory-IsMemory.cell s' (codes "final") ≡ (
        if ltb before block_2.block.header.height
        then some (2 ∷ [])
        else memory-IsMemory.cell stored (codes "final")))
update_block_by_finality-newest_example =
    update_block_by_finality-newest memory name_of one_byte memory-IsMemory Finality.final
      (codes "final") block_2 (2 ∷ []) stored refl refl (omega arith)
