-- ===== src/Node/Known.antt =====
-- TxIdSet of node.h: a bit for each generating node and sequence number.
pub mod Members
use ghostdagsim.Common.{
  ℕ, ◌+◌, ◌-◌, ◌*◌, ◌/◌, ◌%◌, ◌^◌, max, Bool, false, ◌&&◌, List, [], ◌++◌, bit_or, length, get_or,
  set, replicate, take, if◌then◌else◌, ltb, leb, ◌==◌,
}

pub record TxIdSet : Type 0 where
  pub bits : List (List ℕ)

abbrev pub no_txs : TxIdSet
no_txs = record { bits = [] }

-- `static_cast<uint32_t>(tx_id >> 32)` and `static_cast<uint32_t>(tx_id)`
abbrev pub id_from_tx_id : ℕ → ℕ
id_from_tx_id tx_id = tx_id / 2 ^ 32 % 2 ^ 32

abbrev pub sequence : ℕ → ℕ
sequence tx_id = tx_id % 2 ^ 32

unfoldable pub knows : TxIdSet → ℕ → Bool
knows s tx_id =
    let node : ℕ = id_from_tx_id tx_id in
    let seq : ℕ = sequence tx_id in
    let v : List ℕ = get_or s.bits node [] in
    if leb (length s.bits) node
    then false
    else ltb (seq / 64) (length v) && (get_or v (seq / 64) 0 / 2 ^ (seq % 64) % 2 == 1)

-- `m_bits.resize(node + 1)` takes a number of 32 bits.
unfoldable pub learn : TxIdSet → ℕ → TxIdSet
learn s tx_id =
    let node : ℕ = id_from_tx_id tx_id in
    let seq : ℕ = sequence tx_id in
    let w : ℕ = seq / 64 in
    let n : ℕ = (node + 1) % 2 ^ 32 in
    let all : List (List ℕ) =
      if leb (length s.bits) node
      then take n s.bits ++ replicate (n - length s.bits) []
      else s.bits in
    let v : List ℕ = get_or all node [] in
    let grown : List ℕ =
      if leb (length v) w then v ++ replicate (max (w + 1) (length v * 2) - length v) 0 else v in
    record { bits = set all node (set grown w (bit_or (get_or grown w 0) (2 ^ (seq % 64)))) }
