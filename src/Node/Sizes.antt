-- ===== src/Node/Sizes.antt =====
-- The modelled sizes of messages, with the sizes that the constructor sets and nothing changes.
use ghostdagsim.Common.{ℕ, ◌+◌, ◌*◌, ◌%◌, ◌^◌, length}
use ghostdagsim.Block.{Block}

abbrev pub message_header_size : ℕ
message_header_size = 90

abbrev pub inventory_size : ℕ
inventory_size = 36

abbrev pub headers_size : ℕ
headers_size = 81

abbrev pub parent_hash_size : ℕ
parent_hash_size = 32

abbrev pub transaction_size : ℕ
transaction_size = 522

abbrev pub wire_size_inv : ℕ
wire_size_inv = message_header_size + inventory_size

unfoldable pub wire_size_block : Block → ℕ
wire_size_block b =
    (message_header_size
      + headers_size
      + parent_hash_size * length b.header.parent_hashes
      + transaction_size * length b.txs)
    % 2 ^ 32

abbrev pub wire_size_tx_inv : ℕ → ℕ
wire_size_tx_inv n_txs = (message_header_size + inventory_size * n_txs) % 2 ^ 32

abbrev pub wire_size_txs : ℕ → ℕ
wire_size_txs n_txs = (message_header_size + transaction_size * n_txs) % 2 ^ 32
