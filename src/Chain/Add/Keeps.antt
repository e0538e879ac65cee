-- ===== src/Chain/Add/Keeps.antt =====
-- AddBlock keeps a chain well formed.
use ghostdagsim.Common.{ℕ, ◌≡◌, sym, subst, ◌∙◌, true, false, [], ◌∷◌, some, arith, length-append}
use ghostdagsim.Common.Maps.{
  Map, find, assign, has, keys, find-assign, find-erase, length-erase-lt, length-assign-le,
  assign-Ascends, erase-Ascends,
}
use ghostdagsim.Common.Maps
use ghostdagsim.Block.{Block}
use ghostdagsim.Chain.State.{Blockchain}
use ghostdagsim.Chain.Add.{select_tip, insert_block, parents_known, add_block, add_block?, enough}
use ghostdagsim.Chain.Invariant.{IsChain, IsFresh, HasOrphans}
use ghostdagsim.Chain.Add.Facts.{uncoloured, insert_block_lem}
use ghostdagsim.Chain.Add.Recolour.{
  painted, painted-SameBlocks, recolour_all_lem, recolour_all-IsColoured, IsIndexed-blocks,
  IsLinked-blocks, IsPast-blocks, IsBlue-blocks,
}
use ghostdagsim.Chain.Add.Index.{uncoloured-IsIndexed, has-blocks}
use ghostdagsim.Chain.Add.Links.{uncoloured-IsLinked}
use ghostdagsim.Chain.Add.Pasts.{uncoloured-IsPast}
use ghostdagsim.Chain.Add.Blues.{uncoloured-IsBlue}
use ghostdagsim.Chain.Add.Rule.{Settled, orphaned, released, IsInvariant, add_block_rule}

-- Nothing but `HasOrphans` speaks of the orphans.
IsChain-orphans :
    (c : Blockchain) (m : Map Block)
    → IsChain c
    → HasOrphans (record c { orphans = m })
    → IsChain (record c { orphans = m })
unfolding select_tip
IsChain-orphans c m h w = record {
  indexed = record {
    known = h.indexed.known;
    index_lt = h.indexed.index_lt;
    id_at = h.indexed.id_at;
    index_of = h.indexed.index_of;
    past_length = h.indexed.past_length;
    blue_length = h.indexed.blue_length;
  };
  linked = record {
    child = h.linked.child;
    tip = h.linked.tip;
    children_ascend = h.linked.children_ascend;
    tips_ascend = h.linked.tips_ascend;
  };
  pasts = record { parent = h.pasts.parent; past = h.pasts.past; words = h.pasts.words };
  blues = record {
    self = h.blues.self;
    inside = h.blues.inside;
    score = h.blues.score;
    words = h.blues.words;
  };
  coloured = h.coloured;
  waiting = w;
}

module _ (c : Blockchain) (b : Block) (h : IsChain c) (fresh : IsFresh c b) where
  abbrev id : ℕ
  id = b.header.block_id

  orphaned-HasOrphans : HasOrphans (orphaned c b)
  orphaned-HasOrphans = record {
    ascending = assign-Ascends 0 id b c.orphans (omega arith) h.waiting.ascending;
    header_id = λ k o e. ground (arith, find-assign k id b c.orphans, h.waiting.header_id k o);
    pending = λ k e. ground (arith, find-assign k id b c.orphans, h.waiting.pending k, at_id k);
    room = omega (arith, fresh.room, length-assign-le id b c.orphans);
  }
    where
      at_id : (k : ℕ) → k ≡ id → has k c.blocks ≡ false
      at_id k e = rw e fresh.unknown

  orphaned-IsChain : IsChain (orphaned c b)
  orphaned-IsChain = IsChain-orphans c (assign id b c.orphans) h orphaned-HasOrphans

  module _ (known : parents_known c b ≡ true) where
    uncoloured-HasOrphans :
        HasOrphans (record (uncoloured c b) { blocks = painted (uncoloured c b) })
    unfolding uncoloured
    uncoloured-HasOrphans = record {
      ascending = h.waiting.ascending;
      header_id = h.waiting.header_id;
      pending = λ k e. ground (
        arith,
        (painted-SameBlocks (uncoloured c b)).same_keys k,
        has-blocks c b h.indexed fresh k,
        h.waiting.pending k,
        absent_at k,
      );
      room = omega (arith, fresh.room, length-append c.id_of (id ∷ []));
    }
      where
        absent_at : (k : ℕ) → k ≡ id → has k c.orphans ≡ false
        absent_at k e = rw e fresh.absent

    insert_block-IsChain : IsChain (insert_block c b)
    insert_block-IsChain =
        let d = uncoloured c b in
        let same = painted-SameBlocks d in
        subst IsChain (sym (insert_block_lem c b ∙ recolour_all_lem d)) (record {
          indexed = IsIndexed-blocks d (painted d) same (uncoloured-IsIndexed c b h.indexed fresh);
          linked =
              IsLinked-blocks d (painted d) same
                (uncoloured-IsLinked c b h.indexed h.linked h.pasts fresh known);
          pasts =
              IsPast-blocks d (painted d) same
                (uncoloured-IsPast c b h.indexed h.pasts fresh known);
          blues =
              IsBlue-blocks d (painted d) same
                (uncoloured-IsBlue c b h.indexed h.pasts h.blues fresh known);
          coloured = recolour_all-IsColoured d;
          waiting = uncoloured-HasOrphans;
        })

-- An orphan that is taken out is fresh, and leaves room for its index.
released-IsChain :
    (c : Blockchain) (id : ℕ) (b : Block)
    → IsChain c
    → find id c.orphans ≡ some b
    → IsChain (released c id) × IsFresh (released c id) b
released-IsChain c id b h e =
    let same = h.waiting.header_id id b e in
    let less = length-erase-lt id b c.orphans e in
    (
      IsChain-orphans c (Maps.erase id c.orphans) h (record {
        ascending = erase-Ascends 0 id c.orphans h.waiting.ascending;
        header_id = λ k o p. ground (arith, find-erase k id c.orphans, h.waiting.header_id k o);
        pending = λ k p. ground (arith, find-erase k id c.orphans, h.waiting.pending k);
        room = omega (arith, h.waiting.room);
      }),
      record {
        unknown = rw same (ground (arith, h.waiting.pending id));
        absent = rw same (ground (arith, find-erase id id c.orphans));
        room = omega (arith, h.waiting.room);
      },
    )

pub IsChain-IsInvariant : IsInvariant IsChain IsFresh
IsChain-IsInvariant = record {
  ascending = λ c h. h.waiting.ascending;
  orphaning = λ c b h fresh _. orphaned-IsChain c b h fresh;
  inserting = insert_block-IsChain;
  releasing = released-IsChain;
}

-- On a well-formed chain, a block that is neither accepted nor an orphan, and for which an index is
-- left: AddBlock returns, with the fuel that the model gives it, and the chain stays well formed.
pub add_block-IsChain :
    (c : Blockchain) (b : Block)
    → IsChain c
    → IsFresh c b
    → (add_block? (enough c) c b ≡ some (add_block c b)) × IsChain (add_block c b)
add_block-IsChain c b h fresh =
    let r = add_block_rule IsChain IsFresh IsChain-IsInvariant c b h fresh in (r.0, r.1)

-- On a well-formed chain, a block that is neither accepted nor an orphan, for which an index is
-- left, and whose parents are all in the DAG: after AddBlock no orphan is left whose parents are all
-- in the DAG.
pub add_block-Settled :
    (c : Blockchain) (b : Block)
    → IsChain c
    → IsFresh c b
    → parents_known c b ≡ true
    → Settled (add_block c b)
add_block-Settled c b h fresh known =
    (add_block_rule IsChain IsFresh IsChain-IsInvariant c b h fresh).2 known
