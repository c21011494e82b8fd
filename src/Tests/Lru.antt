-- ===== src/Tests/Lru.antt =====
-- rpc-server/src/cache.rs: the memory-bounded cache over a list of items that meets the laws of the
-- `lru` crate.
use read_rpc.Prelude.{ℕ, ◌≡◌, refl, some, [], ◌∷◌, ℕ_eq, ℕ_discrete, add_u64, sub_u64, arith}
use read_rpc.Prelude.HashMap.{lookup, remove}
use read_rpc.Tests.Crate.{crate, unsnoc}
use read_rpc.Lru.{LruMemoryCache, put, get, store, decrease, grow}
use read_rpc.Lru.Size.{Evicts, IsSized, items}
use read_rpc.Lru.Reads.{put-IsSized, put-Evicts}

-- Sizes are the values themselves: 5 and 3 of at most 10 are taken.
abbrev size : ℕ → ℕ
size v = v

abbrev Cache : Type 0
Cache = LruMemoryCache crate size

abbrev cache : Cache
cache = record {
  inner = record { items = (1, 5) ∷ (2, 3) ∷ []; cap = 2 };
  current_size = 8;
  max_size = 10;
}

put_4 : put crate size 3 4 cache ≡ record {
  inner = record { items = (3, 4) ∷ (1, 5) ∷ []; cap = 4 };
  current_size = 9;
  max_size = 10;
}
unfolding put decrease store grow unsnoc lookup remove ℕ_discrete add_u64 sub_u64
put_4 = refl

cache-IsSized : IsSized crate size cache
unfolding lookup ℕ_discrete
cache-IsSized = record {
  unique = (refl, (refl, tt));
  exact = refl;
  within = omega arith;
  roomy = omega arith;
  positive = omega arith;
}

put-IsSized_example : IsSized crate size (put crate size 3 4 cache)
put-IsSized_example = put-IsSized crate size 3 4 cache cache-IsSized (omega arith) (omega arith)

put-Evicts_example :
    Evicts size 10
      ((3, 4) ∷ remove 3 (items crate size cache))
      (items crate size (put crate size 3 4 cache))
put-Evicts_example = put-Evicts crate size 3 4 cache cache-IsSized (omega arith) (omega arith)

still_read : get crate size 1 (put crate size 3 4 cache) ≡ some 5
unfolding get put decrease store grow unsnoc lookup remove ℕ_discrete add_u64 sub_u64
still_read = refl
