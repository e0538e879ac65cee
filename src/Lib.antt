-- ===== src/Lib.antt =====
-- GHOSTDAG in a simulator of block propagation: what a node keeps of the block DAG, its mempool,
-- and what it says to its peers.
--
-- A node gives each block that it hears of to Blockchain::AddBlock (dag.cc). A block with a
-- missing parent waits among the orphans; any other block is indexed, its past is the union of
-- its parents' pasts, its blue set is grown greedily from that of its selected parent, every
-- block is coloured by the blue set of the selected tip, and the orphans that have become ready
-- are added in turn.
--
-- Files and what they model:
--   Common: the library's names, and lemmas on lists, ascending sets, maps and bits.
--     std::set<uint64_t> is an ascending list, std::map and std::unordered_map are association
--     lists in ascending order of their keys: no modelled loop runs over an unordered map.
--   BitSet: class BitSet of dag.h, one function per method. Words is about the words, Update
--     about set, reset and the operators, Members about the indices that a set holds, Loops
--     about for_each and for_each_and_not, Count about count, count_and and empty.
--   Block: Transaction, BlockHeader, Block and BlockBodyStore of dag.h and dag.cc; Bodies is
--     about Intern.
--   Chain/State: struct Blockchain of dag.h, its constructor and its reads. Fields keep the
--     names of the source without the trailing underscore.
--   Chain/Sort: TopologicalSort and ComputeGHOSTDAGOrdering.
--   Chain/Add: AddBlock, ProcessOrphans, GreedyBlueSet and SelectTip. insert_block is AddBlock
--     between the orphan check and the call of ProcessOrphans.
--   Chain/Future: GetFuture; Descendants says what it finds.
--   Chain/Cluster: IsKCluster and IsKClusterSubset. Chain/Colours: SnapshotBlueFlags and
--     NewlyBlue.
--   Chain/Invariant: when a chain is well formed (IsChain). Chain/Init, Chain/Add/Keeps,
--     Chain/Ancestors, Chain/Tips: what follows.
--   Mempool: class Mempool of mempool.h and mempool.cc. A list iterator is the address of its
--     node, and an address is not used twice. Random is about the operations that draw;
--     Contents, Updates, Lowest, Highest and Lookup relate the buckets and the multimap to the
--     list of what is stored.
--   Wire: the frames of node.cc. Frame is GhostDagFrameHeader, Send is EnqueueFrame and
--     HandleSendReady, each by itself, Receive is HandleRead of a running node up to the
--     decoding of a payload, Connections is SendSerialized, CreatePeerSocket and the connection
--     callbacks. A packet is a list of bytes, each of which may carry a payload tag.
--     Receive/Bytewise is a receiver that takes one byte at a time; RoundTrip, Delivery, Flow
--     and Receive/Streams are about what arrives.
--   Node: the state and the handlers of GhostDagNode. Known is TxIdSet, Sizes the modelled
--     sizes, Transactions and Timeouts the relay of transactions (Timeouts/Fate is what may
--     become of a request), Relay the relay of blocks, Graphene the handlers of compact blocks,
--     Dispatch ProcessMessage, Lifecycle the start and the stop of the application. A handler
--     takes the time, and what it sends is kept in order in the state.
--   Graphene: graphene.h and graphene.cc. Numbers and Filters list what the code takes from the
--     floating-point arithmetic, from thirdparty/bloom_filter.h and from thirdparty/iblt.h, as
--     parameters; that the table lists a difference right is not assumed. Hex and Json are the
--     encodings, Sizing the parameter helpers, Sender, Receiver and Recovery the two protocols.
--   Miner: class GhostDagMiner of miner.h and miner.cc. Select is about SelectTransactions,
--     Blocks about MineBlock.
--   Tests below BitSet, Block, Chain/Add, Mempool, Wire, Node, Node/Graphene, Graphene and
--     Miner: the theorems at concrete inputs.
--
-- Bounds: a word of a bit set is a number below 2^64, an index is taken modulo 2^32, and the
-- in-degree counters wrap at 2^64. The loop over a word has 64 rounds, one for each bit that may
-- be set. AddBlock and ProcessOrphans call each other on fuel: twice the number of orphans and
-- two more, since a round of ProcessOrphans that finds work takes an orphan out. The Kahn loops
-- have one round for each block, since each round takes a block out and a counter reaches 0 once;
-- no theorem here states that bound. GetFuture has one round for each block, since a block enters
-- the queue once. The loop of HandleRead has two rounds for each byte of a packet and one more,
-- since a round without a byte ends a frame; that of HandleSendReady has one for each byte and
-- each packet; that of ProcessTxTimeouts has one for each entry of the queue at its start, since
-- it only appends entries that are due later. The conversions of the sizes of a mempool to int
-- are left out: a mempool has fewer than 2^31 transactions, as its limit, m_mempoolSize, is an
-- int; the well-formed mempools have fewer than 2^32 buckets. TryPingPong has two rounds more
-- than the larger table has cells, since it gives up once its depth is above the number of cells.
--
-- Not modelled: a reference or a shared pointer is the value that it points to. The sockets,
-- events and buffers of ns-3, the JSON encoding, std::hash, the floating-point operations, the
-- filters of thirdparty/ and the random distributions are parameters, or are left out where
-- nothing here depends on them: a message is the list of its members. Of node.cc, the attributes,
-- the listening socket and the metrics events are not modelled. The helpers, metrics.h and
-- main.cc, which set the simulation up and print, are not modelled, nor is thirdparty/.
pub mod Common
pub mod BitSet
pub mod Block
pub mod Chain
pub mod Samples
pub mod Mempool
pub mod Miner
pub mod Wire
pub mod Node
pub mod Graphene
