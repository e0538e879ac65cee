-- ===== src/Node/Graphene/Transfer.antt =====
-- A compact block from the node that sends it to the one that takes it apart.
use ghostdagsim.Common.{
  ℕ, ◌≡◌, ◌≢◌, refl, sym, ◌∙◌, subst, arith, List, length, true, Bool-cases, inl, inr, ◌==◌,
  if◌then◌else◌,
}
use ghostdagsim.Block.{Block, TxSet, tx_checksum, BodyTable, total_size}
use ghostdagsim.Block.Bodies.{intern_agrees}
use ghostdagsim.Graphene.Numbers.{Numbers}
use ghostdagsim.Graphene.Filters.{Filters}
use ghostdagsim.Graphene.Json.{GrapheneBlock, deserialize_bloom_filter, deserialize_iblt}
use ghostdagsim.Graphene.Receiver.{
  DecodeStatus, success, fail_recoverable, Incoming, aborted, rebuilt, recovering,
  reconstruct_block, rebuild, receive, start_recovery, process_incoming_block,
}
use ghostdagsim.Graphene.Receiver.Correct.{reconstruct_block-ids}
use ghostdagsim.Node.Graphene.{compact}

-- What a receiver may make of a message that says of block `b` what `compact` says. A rebuilt block
-- has the header, the number of transactions and the checksum of `b`; a recovery is one of block `b`
-- and waits for as many transactions; the assertion fails only on a set that was decoded with as
-- many transactions and has another checksum.
abbrev pub Agrees : {I : Type 0} → Block → DecodeStatus × TxSet → Incoming I → Type 0
Agrees b decoded aborted =
    (txs : TxSet) × (decoded ≡ (success, txs))
    × (length txs ≡ length b.txs)
    × (tx_checksum txs ≢ tx_checksum b.txs)
Agrees b decoded (rebuilt b') =
    (b'.header ≡ b.header)
    × (length b'.txs ≡ length b.txs)
    × (tx_checksum b'.txs ≡ tx_checksum b.txs)
    × (b'.size_in_bytes ≡ total_size b')
Agrees b decoded (recovering state request z fpr_r) =
    (state.header ≡ b.header)
    × (state.tx_count ≡ length b.txs)
    × (state.waiting_protocol2 ≡ true)
    × (request.block_id ≡ b.header.block_id)

module _ {B I : Type 0} (d : Numbers) (f : Filters B I) (b : Block) (components : B × I × ℕ) where
  abbrev g : GrapheneBlock
  g = compact d f b components

  rebuild-Agrees :
      (txs : TxSet) (bodies : BodyTable)
      → length txs ≡ length b.txs
      → Agrees b (success, txs) (rebuild d f g txs bodies).1
  unfolding rebuild total_size
  rebuild-Agrees txs bodies count =
      let same = intern_agrees b.header.block_id txs bodies 0 in
      elim (Bool-cases (tx_checksum txs == tx_checksum b.txs)) [
        | inl sum ↦ rw sum (refl, same.0 ∙ count, same.1 ∙ ground (arith, sum), refl)
        | inr other ↦ rw other (txs, refl, count, ground (arith, other))
      ]

  receive-Agrees :
      (mempool : List (ℕ × ℕ)) (mempool_size : ℕ) (bodies : BodyTable) (txs : TxSet)
      → Agrees b
          ((if length txs == length b.txs then success else fail_recoverable), txs)
          (receive d f g mempool mempool_size bodies
            ((if length txs == length b.txs then success else fail_recoverable), txs)).1
  unfolding receive start_recovery
  receive-Agrees mempool mempool_size bodies txs = elim (Bool-cases (length txs == length b.txs)) [
    | inl count ↦ rw count (rebuild-Agrees txs bodies (ground (arith, count)))
    | inr other ↦ rw other (refl, refl, refl, refl)
  ]

  -- The compact block of any block, with whatever filter and table, at a receiver with whatever
  -- mempool and stored bodies, and whatever the library makes of the table. If ProcessIncomingBlock
  -- rebuilds a block, it has the sender's header, number of transactions and checksum, and its own
  -- size; if it starts the recovery, it does so for this block and this number of transactions; and
  -- its assertion fails only if ReconstructBlock succeeded with that number of transactions, but
  -- with another checksum.
  pub compact-Agrees :
      (mempool : List (ℕ × ℕ)) (mempool_size : ℕ) (bodies : BodyTable)
      → Agrees b
          (reconstruct_block d f
            (deserialize_bloom_filter f (compact d f b components).bloom_filter)
            (deserialize_iblt f (compact d f b components).iblt)
            (length b.txs)
            mempool)
          (process_incoming_block d f (compact d f b components) mempool mempool_size bodies).1
  unfolding process_incoming_block receive start_recovery
  compact-Agrees mempool mempool_size bodies =
      let bf : B = deserialize_bloom_filter f g.bloom_filter in
      let iblt : I = deserialize_iblt f g.iblt in
      elim (reconstruct_block-ids d f bf iblt (length b.txs) mempool) [
        | inl (unlisted, e) ↦
            subst (λ r. Agrees b r (receive d f g mempool mempool_size bodies r).1) (sym e)
              (refl, refl, refl, refl)
        | inr (txs, listed, e) ↦
            subst (λ r. Agrees b r (receive d f g mempool mempool_size bodies r).1) (sym e)
              (receive-Agrees mempool mempool_size bodies txs)
      ]
