-- ===== src/Graphene/Tests.antt =====
-- The theorems on the relay of compact blocks at concrete filters: a Bloom filter that is the list of
-- its ids, and a table that is the list of the ids inserted and that of the ids erased.
use ghostdagsim.Common.{
  ℕ, ◌+◌, ◌-◌, ◌*◌, ◌/◌, ◌^◌, ◌<◌, ◌≡◌, refl, arith, true, false, not, List, [], ◌∷◌, ◌++◌, some,
  is_some, length, map, contains, keep, ltb, leb, ◌==◌, if◌then◌else◌, ◌⊎◌,
}
use ghostdagsim.Common.Sets.{insert, erase}
use ghostdagsim.Block.{TxSet, tx_ids, insert_tx}
use ghostdagsim.Graphene.Numbers.{Numbers}
use ghostdagsim.Graphene.Filters.{Filters, Entry, Pairs}
use ghostdagsim.Graphene.Hex.{u64_to_vec}
use ghostdagsim.Graphene.Json.{RecoveryResponse, serialize_iblt, deserialize_iblt}
use ghostdagsim.Graphene.Json.RoundTrip.{IsEntry, deserialize_iblt-serialize_iblt}
use ghostdagsim.Graphene.Sender.{insert_ids}
use ghostdagsim.Graphene.Sizing.{optimal_sym_diff, total_bytes, filter_bytes, fpr_of, iblt_bytes}
use ghostdagsim.Graphene.Sizing.Optimal.{IsCostOrder, IsFirstLeast, optimal_sym_diff-IsFirstLeast}
use ghostdagsim.Graphene.Receiver.{
  success, fail_recoverable, GrapheneState, difference, reconstruct_block, bare_tx,
  build_candidate_set,
}
use ghostdagsim.Graphene.Receiver.Correct.{Reconstructs, reconstruct_block-ids}
use ghostdagsim.Graphene.Recovery.{process_recovery_response}
use ghostdagsim.Graphene.Recovery.Ends.{KeepsSize, process_recovery_response-returns}

-- Whole numbers in place of doubles.
abbrev pub whole : Numbers
whole = record {
  decimal = λ m k. m / 10 ^ k;
  of_nat = λ n. n;
  to_float = λ n. n;
  neg = λ n. n;
  add = λ m n. m + n;
  sub = λ m n. m - n;
  mul = λ m n. m * n;
  div = λ m n. m / n;
  less = ltb;
  at_most = leb;
  exp = λ n. n;
  log = λ n. n;
  sqrt = λ n. n;
  pow = λ m n. m;
  floor = λ n. n;
  ceil = λ n. n;
  truncate = λ n. n;
  max_value = 1000000;
}

abbrev pub Table : Type 0
Table = List ℕ × List ℕ

abbrev pub pairs : List ℕ → Pairs
pairs = map λ k. (k, u64_to_vec k)

abbrev pub cell : ℕ → ℕ → Entry
cell n k = record { count = n; key_sum = k; key_check = 0; value_sum = [] }

abbrev pub table_of : List Entry → Table
table_of [] = ([], [])
table_of (e ∷ es) =
    let (p, n) : Table = table_of es in
    if e.count == 1 then (e.key_sum ∷ p, n) else (p, e.key_sum ∷ n)

abbrev pub exact : Filters (List ℕ) Table
exact = record {
  bloom = λ n fpp. [];
  bloom_of = λ n k seed bits. bits;
  bloom_insert = λ id b. id ∷ b;
  contains = λ b id. contains id b;
  size = λ b. length b;
  hash_count = λ b. 1;
  random_seed = λ b. 0;
  bit_table = λ b. b;
  effective_fpp = λ b. 0;
  iblt = λ n size hedge hashes. ([], []);
  iblt_of = λ size hashes entries. table_of entries;
  insert = λ k v t. (k ∷ t.0, t.1);
  erase = λ k v t. (t.0, k ∷ t.1);
  minus = λ s t. (s.0 ++ t.1, s.1 ++ t.0);
  list_entries = λ t. (
    true,
    pairs (keep (λ i. not (contains i t.1)) t.0),
    pairs (keep (λ i. not (contains i t.0)) t.1),
  );
  hash_table = λ t. map (cell 1) t.0 ++ map (cell 0) t.1;
  hash_table_size = λ t. 4;
  value_size = λ t. 8;
  num_hashes = λ t. 3;
  overhead = λ n. 1;
  numhashes = λ n. 3;
}

-- The transactions 3 and 5 of a block; the receiver's mempool has 5 and 9.
abbrev pub block_txs : TxSet
block_txs = bare_tx 3 ∷ bare_tx 5 ∷ []

abbrev pub mempool : List (ℕ × ℕ)
mempool = (0, 5) ∷ (0, 9) ∷ []

reconstruct_block-ids_example :
    ((exact.list_entries (
          difference whole exact
            (insert_ids exact (tx_ids block_txs) ([], []))
            (build_candidate_set whole exact (3 ∷ 5 ∷ 9 ∷ []) mempool))).0
        ≡ false)
      × (reconstruct_block whole exact
            (3 ∷ 5 ∷ 9 ∷ [])
            (insert_ids exact (tx_ids block_txs) ([], []))
            2
            mempool
          ≡ (fail_recoverable, []))
    ⊎ (txs : TxSet) × Reconstructs whole exact
        (3 ∷ 5 ∷ 9 ∷ [])
        mempool
        (exact.list_entries (
          difference whole exact
            (insert_ids exact (tx_ids block_txs) ([], []))
            (build_candidate_set whole exact (3 ∷ 5 ∷ 9 ∷ []) mempool)))
        txs
      × (reconstruct_block whole exact
            (3 ∷ 5 ∷ 9 ∷ [])
            (insert_ids exact (tx_ids block_txs) ([], []))
            2
            mempool
          ≡ ((if length txs == 2 then success else fail_recoverable), txs))
reconstruct_block-ids_example =
    reconstruct_block-ids whole exact (3 ∷ 5 ∷ 9 ∷ [])
      (insert_ids exact (tx_ids block_txs) ([], [])) 2 mempool

-- It is decoded.
reconstructed :
    reconstruct_block whole exact
      (3 ∷ 5 ∷ 9 ∷ [])
      (insert_ids exact (tx_ids block_txs) ([], []))
      2
      mempool
    ≡ (success, block_txs)
unfolding reconstruct_block insert erase insert_tx
reconstructed = refl

exact-KeepsSize : KeepsSize exact
exact-KeepsSize = record { inserting = λ k v i. refl; erasing = λ k v i. refl }

abbrev response : RecoveryResponse
response = record {
  block_id = 8;
  tx_checksum = 6;
  iblt = serialize_iblt exact ([], []);
  missing = 3 ∷ [];
}

abbrev state : GrapheneState Table
state = record {
  header = record { block_id = 8; miner_id = 1; time_created = 0; parent_hashes = [] };
  tx_count = 2;
  candidate_ids = 5 ∷ [];
  diff1 = some (3 ∷ [], []);
  waiting_protocol2 = true;
}

process_recovery_response-returns_example :
    is_some (process_recovery_response whole exact response state) ≡ true
process_recovery_response-returns_example =
    process_recovery_response-returns exact whole response state exact-KeepsSize

pub cell-IsEntry : (n k : ℕ) → k < 2 ^ 64 → IsEntry (cell n k)
cell-IsEntry n k h = record { key_sum = h; key_check = omega arith; value_sum = tt }

deserialize_iblt-serialize_iblt_example :
    deserialize_iblt exact (serialize_iblt exact (300 ∷ 2 ^ 40 ∷ [], 7 ∷ []))
    ≡ (300 ∷ 2 ^ 40 ∷ [], 7 ∷ [])
deserialize_iblt-serialize_iblt_example =
    deserialize_iblt-serialize_iblt exact (300 ∷ 2 ^ 40 ∷ [], 7 ∷ [])
      (record {
        entries = (
          cell-IsEntry 1 300 (omega arith),
          (cell-IsEntry 1 (2 ^ 40) (omega arith), (cell-IsEntry 0 7 (omega arith), tt)),
        );
        rebuilt = refl;
      })

ltb-IsCostOrder : (cost : ℕ → ℕ) (first last : ℕ) → IsCostOrder ltb cost first last
ltb-IsCostOrder cost first last = record {
  irreflexive = λ a from to. ground arith;
  trans = λ a b c ha hb hc e e'. ground arith;
  weak = λ a b c ha hb hc e e'. ground arith;
}

-- A block of 2 transactions for a receiver with 5.
optimal_sym_diff-IsFirstLeast_example :
    (a : ℕ) × (optimal_sym_diff whole exact 2 5 ≡ some a)
    × IsFirstLeast whole.less (total_bytes whole exact 2 (5 - (2 - 1))) 1 5 a
unfolding total_bytes filter_bytes fpr_of iblt_bytes
optimal_sym_diff-IsFirstLeast_example =
    optimal_sym_diff-IsFirstLeast whole exact 2 5 (omega arith) (omega arith) (omega arith)
      (omega arith) (omega arith) (ltb-IsCostOrder (total_bytes whole exact 2 (5 - (2 - 1))) 1 5)
      refl
