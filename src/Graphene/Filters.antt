-- ===== src/Graphene/Filters.antt =====
-- What graphene.cc calls of thirdparty/bloom_filter.h and thirdparty/iblt.h.
use ghostdagsim.Common.{ℕ, Bool, List}

-- IBLT::Entry. `count` is the bit pattern of an int32_t.
pub record Entry : Type 0 where
  pub count : ℕ
  pub key_sum : ℕ
  pub key_check : ℕ
  pub value_sum : List ℕ

-- The set of pairs that listEntries fills is a list of them.
abbrev pub Pairs : Type 0
Pairs = List (ℕ × List ℕ)

-- `bloom` is the constructor on parameters with an element count and a false positive probability,
-- after compute_optimal_parameters; `list_entries` has the positive pairs before the negative ones.
pub record Filters (B I : Type 0) : Type 0 where
  pub bloom : ℕ → ℕ → B
  pub bloom_of : ℕ → ℕ → ℕ → List ℕ → B
  pub bloom_insert : ℕ → B → B
  pub contains : B → ℕ → Bool
  pub size : B → ℕ
  pub hash_count : B → ℕ
  pub random_seed : B → ℕ
  pub bit_table : B → List ℕ
  pub effective_fpp : B → ℕ
  pub iblt : ℕ → ℕ → ℕ → ℕ → I
  pub iblt_of : ℕ → ℕ → List Entry → I
  pub insert : ℕ → List ℕ → I → I
  pub erase : ℕ → List ℕ → I → I
  pub minus : I → I → I
  pub list_entries : I → Bool × Pairs × Pairs
  pub hash_table : I → List Entry
  pub hash_table_size : I → ℕ
  pub value_size : I → ℕ
  pub num_hashes : I → ℕ
  pub overhead : ℕ → ℕ
  pub numhashes : ℕ → ℕ
