-- ===== src/Graphene/Receiver.antt =====
-- The receiver's side: ReconstructBlock, BuildRecoveryBloom and ProcessIncomingBlock.
pub mod Correct
use ghostdagsim.Common.{
  ℕ, ◌+◌, ◌-◌, ◌*◌, ◌%◌, ◌^◌, max, bit_xor, Bool, true, false, not, List, [], ◌∷◌, ◌++◌, Option,
  none, some, length, ltb, leb, ◌==◌, if◌then◌else◌, foldl, map,
}
use ghostdagsim.Common.Sets.{insert, erase}
use ghostdagsim.Block.{
  Transaction, TxSet, insert_tx, tx_ids, tx_checksum, BodyTable, intern, BlockHeader, Block,
  default_block, total_size,
}
use ghostdagsim.Graphene.Numbers.{Numbers}
use ghostdagsim.Graphene.Filters.{Filters, Pairs}
use ghostdagsim.Graphene.Json.{
  GrapheneBlock, RecoveryRequest, deserialize_bloom_filter, deserialize_iblt,
  serialize_bloom_filter,
}
use ghostdagsim.Graphene.Sizing.{
  least, search_x, cb_bound, filter_fpr_max, ln2squared, iblt_bytes, iblt_cell_size,
  iblt_cell_minimum,
}
use ghostdagsim.Graphene.Sender.{insert_ids, bloom_insert_ids}

pub data DecodeStatus : Type 0 where
  success fail_recoverable fail_fatal : DecodeStatus

-- `sender_bloom` and `sender_iblt` are never set.
pub record GrapheneState (I : Type 0) : Type 0 where
  pub header : BlockHeader
  pub tx_count : ℕ
  pub candidate_ids : List ℕ
  pub diff1 : Option I
  pub waiting_protocol2 : Bool

-- A transaction of which only the id is known.
abbrev pub bare_tx : ℕ → Transaction
bare_tx id = record { tx_id = id; size_bytes = 522; fee = 0 }

abbrev pub keys_of : Pairs → List ℕ
keys_of = map λ p. p.0

-- `set.erase` of some ids, and then `set.insert` of others.
abbrev pub adjust : List ℕ → List ℕ → List ℕ → List ℕ
adjust negative positive ids =
    foldl (λ s id. insert id s) (foldl (λ s id. erase id s) ids negative) positive

abbrev pub tx_set_of : List ℕ → TxSet
tx_set_of ids = foldl (λ s id. insert_tx (bare_tx id) s) [] ids

-- What ProcessIncomingBlock returns; `aborted` is the failed assertion on the checksum.
pub data Incoming (I : Type 0) : Type 0 where
  aborted : Incoming I
  rebuilt : Block → Incoming I
  recovering : GrapheneState I → RecoveryRequest → ℕ → ℕ → Incoming I

module _ {B I : Type 0} (d : Numbers) (f : Filters B I) where
  -- The entries of the mempool are pairs of a node and an id.
  unfoldable pub build_candidate_set : B → List (ℕ × ℕ) → List ℕ
  build_candidate_set bf mempool =
      foldl (λ s entry. if f.contains bf entry.1 then insert entry.1 s else s) [] mempool

  -- `sender - receiver`, where the receiver's table holds the ids.
  abbrev pub difference : I → List ℕ → I
  difference sender ids = f.minus sender (
      insert_ids f ids
        (f.iblt (f.hash_table_size sender) iblt_cell_size (d.of_nat 1) (f.num_hashes sender)))

  unfoldable pub reconstruct_block : B → I → ℕ → List (ℕ × ℕ) → DecodeStatus × TxSet
  unfolding build_candidate_set
  reconstruct_block bf sender_iblt tx_count mempool =
      let candidates : List ℕ = build_candidate_set bf mempool in
      let (decoded, positive, negative) : Bool × Pairs × Pairs =
        f.list_entries (difference sender_iblt candidates) in
      let out_txs : TxSet = tx_set_of (adjust (keys_of negative) (keys_of positive) candidates) in
      if not decoded
      then (fail_recoverable, [])
      else (if not (length out_txs == tx_count)
          then (fail_recoverable, out_txs)
          else (success, out_txs))

  -- `fpr_r` for `b`
  abbrev pub recovery_rate : ℕ → ℕ → ℕ
  recovery_rate missing b =
      let rate : ℕ = d.div (d.of_nat b) (d.of_nat missing) in
      let capped : ℕ = if d.less (filter_fpr_max d f) rate then filter_fpr_max d f else rate in
      if d.at_most capped (d.of_nat 0) then d.decimal 1 6 else capped

  -- `total` for `b`
  unfoldable pub recovery_bytes : ℕ → ℕ → ℕ → ℕ → ℕ
  recovery_bytes z missing y_star b =
      let bf_size : ℕ = d.ceil (
        d.div
          (d.mul (d.mul (d.div (d.neg (d.of_nat 1)) (ln2squared d f)) (d.of_nat z))
            (d.log (recovery_rate missing b)))
          (d.of_nat 8)) in
      d.add bf_size (d.of_nat (iblt_bytes d f (b + y_star)))

  -- The filter, `b`, `y_star` and the rate. No `b` is below the largest double if `least` is 0.
  unfoldable pub build_recovery_bloom : List ℕ → ℕ → ℕ → ℕ → B × ℕ × ℕ × ℕ
  unfolding least recovery_bytes
  build_recovery_bloom zs m n fpr =
      let z : ℕ = length zs in
      let x_star : ℕ = search_x d f z m fpr n in
      let temp : ℕ = d.mul (d.of_nat ((m + 2 ^ 64 - x_star) % 2 ^ 64)) fpr in
      let y_star : ℕ = d.truncate (d.ceil (cb_bound d f temp)) in
      let missing : ℕ = max (n - x_star) 1 in
      let best : ℕ = least d.less (recovery_bytes z missing y_star) (max z 1) 1 0 d.max_value in
      let best_fpr : ℕ = if best == 0 then d.of_nat 0 else recovery_rate missing best in
      (
        bloom_insert_ids f zs (f.bloom (max z 10) best_fpr),
        max iblt_cell_minimum (max best 1),
        y_star,
        best_fpr,
      )

  abbrev pub header_of : GrapheneBlock → BlockHeader
  header_of g = record {
    block_id = g.block_id;
    miner_id = g.miner_id;
    time_created = g.time_created;
    parent_hashes = g.parent_hashes;
  }

  -- The block of a decoded message, with the table of bodies.
  unfoldable pub rebuild : GrapheneBlock → TxSet → BodyTable → BodyTable × Incoming I
  rebuild g txs bodies =
      let (bodies', body) : BodyTable × TxSet = intern g.block_id txs bodies in
      let block : Block = record default_block { header = header_of g; txs = body } in
      let sized : Block = record block { size_in_bytes = total_size block } in
      (bodies', if tx_checksum txs == g.tx_checksum then rebuilt sized else aborted)

  -- The state for protocol 2, and the request for it.
  unfoldable pub start_recovery : GrapheneBlock → B → I → List (ℕ × ℕ) → ℕ → Incoming I
  unfolding build_candidate_set build_recovery_bloom
  start_recovery g bf iblt mempool mempool_size =
      let candidates : List ℕ = build_candidate_set bf mempool in
      let (rbf, b, y_star, fpr_r) : B × ℕ × ℕ × ℕ =
        build_recovery_bloom candidates mempool_size g.tx_count g.fpr in
      recovering
        (record {
          header = header_of g;
          tx_count = g.tx_count;
          candidate_ids = candidates;
          diff1 = some (difference iblt candidates);
          waiting_protocol2 = true;
        })
        (record {
          block_id = g.block_id;
          b = b;
          y_star = y_star;
          receiver_bloom = serialize_bloom_filter f rbf;
        })
        (length candidates) fpr_r

  -- By what the reconstruction gave.
  unfoldable pub receive :
      GrapheneBlock → List (ℕ × ℕ) → ℕ → BodyTable → DecodeStatus × TxSet → BodyTable × Incoming I
  unfolding rebuild start_recovery
  receive g mempool mempool_size bodies (success, txs) = rebuild g txs bodies
  receive g mempool mempool_size bodies (status, txs) = (
    bodies,
    start_recovery g (deserialize_bloom_filter f g.bloom_filter) (deserialize_iblt f g.iblt) mempool
        mempool_size,
  )

  unfoldable pub process_incoming_block :
      GrapheneBlock → List (ℕ × ℕ) → ℕ → BodyTable → BodyTable × Incoming I
  unfolding reconstruct_block receive
  process_incoming_block g mempool mempool_size bodies = receive g mempool mempool_size bodies (
      reconstruct_block (deserialize_bloom_filter f g.bloom_filter) (deserialize_iblt f g.iblt)
        g.tx_count mempool)
