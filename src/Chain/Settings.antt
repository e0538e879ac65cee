-- ===== src/Chain/Settings.antt =====
-- Whether a chain is well formed does not depend on its k, its counter and its node's number, which
-- StartApplication of node.cc and MineBlock of miner.cc set.
use ghostdagsim.Common.{ℕ}
use ghostdagsim.Chain.State.{Blockchain}
use ghostdagsim.Chain.Add.{select_tip}
use ghostdagsim.Chain.Invariant.{IsChain}

pub IsChain-settings :
    (c : Blockchain) (k next node_id : ℕ)
    → IsChain c
    → IsChain (record c { ghostdag_k = k; next_block_id = next; node_id_metric = node_id })
unfolding select_tip
IsChain-settings c k next node_id h = record {
  indexed = record {
    known = h.indexed.known;
    index_lt = h.indexed.index_lt;
    id_at = h.indexed.id_at;
    index_of = h.indexed.index_of;
    past_length = h.indexed.past_length;
    blue_length = h.indexed.blue_length;
  };
  linked = record {
    child = h.linked.child;
    tip = h.linked.tip;
    children_ascend = h.linked.children_ascend;
    tips_ascend = h.linked.tips_ascend;
  };
  pasts = record { parent = h.pasts.parent; past = h.pasts.past; words = h.pasts.words };
  blues = record {
    self = h.blues.self;
    inside = h.blues.inside;
    score = h.blues.score;
    words = h.blues.words;
  };
  coloured = h.coloured;
  waiting = record {
    ascending = h.waiting.ascending;
    header_id = h.waiting.header_id;
    pending = h.waiting.pending;
    room = h.waiting.room;
  };
}
