-- ===== src/Chain/Add/Rule.antt =====
-- AddBlock and ProcessOrphans end within their fuel, whatever order the blocks come in, and keep
-- every invariant that one insertion and one orphaning keep.
use ghostdagsim.Common.{
  ℕ, zero, suc, ◌+◌, ◌*◌, ◌<◌, ◌≤◌, ◌≡◌, refl, ap, sym, ◌∙◌, true, false, List, [], ◌∷◌, Option,
  none, some, length, arith, if◌then◌else◌, Bool-cases, Option-cases, List-cases, inl, inr, Ascends,
}
use ghostdagsim.Common.Maps.{
  Map, find, assign, has, keys, length-erase-lt, length-assign-le, contains-keys, find_below,
}
use ghostdagsim.Common.Maps
use ghostdagsim.Block.{Block}
use ghostdagsim.Chain.State.{Blockchain}
use ghostdagsim.Chain.Add.{
  insert_block, parents_known, ready_orphans, add_ready, add_block?, process_orphans?, add_block,
  enough,
}

-- No orphan could be added.
abbrev pub Settled : Blockchain → Type 0
Settled c = ready_orphans c c.orphans ≡ []

abbrev pub orphaned : Blockchain → Block → Blockchain
orphaned c b = record c { orphans = assign b.header.block_id b c.orphans }

abbrev pub released : Blockchain → ℕ → Blockchain
released c id = record c { orphans = Maps.erase id c.orphans }

pub insert_block-orphans : (c : Blockchain) (b : Block) → (insert_block c b).orphans ≡ c.orphans
unfolding insert_block
insert_block-orphans c b = ground arith

-- The first orphan of the list is there, under its id, with all its parents.
ready_orphans-head :
    (c : Blockchain) (n : ℕ) (m : Map Block) (id : ℕ) (ids : List ℕ)
    → Ascends n (keys m)
    → ready_orphans c m ≡ id ∷ ids
    → (b : Block) × (find id m ≡ some b) × (parents_known c b ≡ true)
unfolding ready_orphans find
ready_orphans-head c n [] id ids a e = cc
ready_orphans-head c n ((j, b) ∷ m) id ids a e = elim (Bool-cases (parents_known c b)) [
  | inl known ↦ (b, ground arith, known)
  | inr unknown ↦
      let (b', found, known) = ready_orphans-head c (suc j) m id ids a.1 (ground arith) in
      (b', ground (arith, find_below id (suc j) m a.1), known)
]

add_ready-cons :
    (add : Blockchain → Block → Option Blockchain) (id : ℕ) (ids : List ℕ) (c c' : Blockchain)
    (b : Block)
    → find id c.orphans ≡ some b
    → add (released c id) b ≡ some c'
    → add_ready add (id ∷ ids) c ≡ add_ready add ids c'
unfolding add_ready
add_ready-cons add id ids c c' b e p = rw (e, p, add_ready)

add_ready-missing :
    (add : Blockchain → Block → Option Blockchain) (id : ℕ) (ids : List ℕ) (c : Blockchain)
    → find id c.orphans ≡ none
    → add_ready add (id ∷ ids) c ≡ add_ready add ids c
unfolding add_ready
add_ready-missing add id ids c e = rw (e, add_ready)

add_block-eq :
    (c : Blockchain) (b : Block) (c' : Blockchain)
    → add_block? (enough c) c b ≡ some c'
    → add_block c b ≡ c'
unfolding add_block
add_block-eq c b c' e = rw (e, add_block)

module _ {ℓ} (J : Blockchain → Type ℓ) (Fresh : Blockchain → Block → Type ℓ) where
  -- What one insertion, one orphaning and the release of one orphan have to keep.
  pub record IsInvariant : Type ℓ where
    pub ascending : (c : Blockchain) → J c → Ascends 0 (keys c.orphans)
    pub orphaning :
        (c : Blockchain) (b : Block)
        → J c
        → Fresh c b
        → parents_known c b ≡ false
        → J (orphaned c b)
    pub inserting :
        (c : Blockchain) (b : Block)
        → J c
        → Fresh c b
        → parents_known c b ≡ true
        → J (insert_block c b)
    pub releasing :
        (c : Blockchain) (id : ℕ) (b : Block)
        → J c
        → find id c.orphans ≡ some b
        → J (released c id) × Fresh (released c id) b

  -- A call that returns a chain with the invariant, and with at most `n` orphans.
  pub record Ends (n : ℕ) (r : Option Blockchain) : Type ℓ where
    pub chain : Blockchain
    pub returns : r ≡ some chain
    pub holds : J chain
    pub bound : length chain.orphans ≤ n

  Ends-le : (m n : ℕ) (r s : Option Blockchain) → m ≤ n → r ≡ s → Ends m s → Ends n r
  Ends-le m n r s h e x = record {
    chain = x.chain;
    returns = e ∙ x.returns;
    holds = x.holds;
    bound = omega arith;
  }

  pub record Adds (c : Blockchain) (b : Block) (r : Option Blockchain) : Type ℓ where
    pub ends : Ends (length c.orphans + (if parents_known c b then 0 else 1)) r
    pub settled : parents_known c b ≡ true → Settled ends.chain

  pub record Processes (c : Blockchain) (r : Option Blockchain) : Type ℓ where
    pub ends : Ends (length c.orphans) r
    pub settled : Settled ends.chain

  module _ (inv : IsInvariant) where
    AddsAll : ℕ → Type ℓ
    AddsAll f =
        (c : Blockchain) (b : Block)
        → J c
        → Fresh c b
        → 2 * length c.orphans + 2 ≤ f
        → Adds c b (add_block? f c b)

    add_one-Ends :
        (f : ℕ) (id : ℕ) (b : Block) (c : Blockchain)
        → AddsAll f
        → J c
        → 2 * length c.orphans ≤ f
        → find id c.orphans ≡ some b
        → Adds (released c id) b (add_block? f (released c id) b)
    unfolding AddsAll
    add_one-Ends f id b c add j h e =
        let (j', fresh) = inv.releasing c id b j e in
        add (released c id) b j' fresh (omega (arith, length-erase-lt id b c.orphans e))

    add_ready-Ends :
        (f : ℕ) (ids : List ℕ) (c : Blockchain)
        → AddsAll f
        → J c
        → 2 * length c.orphans ≤ f
        → Ends (length c.orphans) (add_ready (add_block? f) ids c)
    unfolding add_ready
    add_ready-Ends f [] c add j h = record {
      chain = c;
      returns = refl;
      holds = j;
      bound = omega arith;
    }
    add_ready-Ends f (id ∷ ids) c add j h = elim (Option-cases (find id c.orphans)) [
      | inl e ↦
          Ends-le _ _ _ _ (omega arith) (add_ready-missing (add_block? f) id ids c e)
            (add_ready-Ends f ids c add j h)
      | inr (b, e) ↦
          let one = (add_one-Ends f id b c add j h e).ends in
          let fewer : length one.chain.orphans ≤ length c.orphans =
            ground (arith, length-erase-lt id b c.orphans e, one.bound) in
          Ends-le _ _ _ _ fewer (add_ready-cons (add_block? f) id ids c one.chain b e one.returns)
            (add_ready-Ends f ids one.chain add one.holds (omega arith))
    ]

    -- A round that finds a ready orphan leaves fewer orphans.
    round-Ends :
        (f : ℕ) (id : ℕ) (ids : List ℕ) (c : Blockchain)
        → AddsAll f
        → J c
        → 2 * length c.orphans ≤ f
        → ready_orphans c c.orphans ≡ id ∷ ids
        → (n : ℕ) × Ends n (add_ready (add_block? f) (id ∷ ids) c) × (n < length c.orphans)
    round-Ends f id ids c add j h e =
        let (b, found, known) = ready_orphans-head c 0 c.orphans id ids (inv.ascending c j) e in
        let one = (add_one-Ends f id b c add j h found).ends in
        let fewer : length one.chain.orphans < length c.orphans =
          ground (arith, length-erase-lt id b c.orphans found, one.bound) in
        (
          length one.chain.orphans,
          Ends-le _ _ _ _ (omega arith)
              (add_ready-cons (add_block? f) id ids c one.chain b found one.returns)
              (add_ready-Ends f ids one.chain add one.holds (omega arith)),
          fewer,
        )

    Processes-none :
        (f : ℕ) (c : Blockchain)
        → J c
        → ready_orphans c c.orphans ≡ []
        → Processes c (process_orphans? (suc f) c)
    unfolding add_block?
    Processes-none f c j e = record {
      ends = record {
        chain = c;
        returns = rw (e, process_orphans?);
        holds = j;
        bound = omega arith;
      };
      settled = e;
    }

    -- A round, and then the rest of the loop.
    Processes-round :
        (f : ℕ) (id : ℕ) (ids : List ℕ) (c c' : Blockchain)
        → ready_orphans c c.orphans ≡ id ∷ ids
        → add_ready (add_block? f) (id ∷ ids) c ≡ some c'
        → length c'.orphans ≤ length c.orphans
        → Processes c' (process_orphans? f c')
        → Processes c (process_orphans? (suc f) c)
    unfolding add_block? Ends-le
    Processes-round f id ids c c' e p h rest = record {
      ends = Ends-le _ _ _ _ h (rw (e, p, process_orphans?) refl) rest.ends;
      settled = rest.settled;
    }

    add_block?-known :
        (f : ℕ) (c : Blockchain) (b : Block)
        → parents_known c b ≡ true
        → add_block? (suc f) c b ≡ process_orphans? f (insert_block c b)
    unfolding add_block?
    add_block?-known f c b e = rw (e, add_block?) refl

    add_block?-unknown :
        (f : ℕ) (c : Blockchain) (b : Block)
        → parents_known c b ≡ false
        → add_block? (suc f) c b ≡ some (orphaned c b)
    unfolding add_block?
    add_block?-unknown f c b e = rw (e, add_block?) refl

    Adds-known :
        (f : ℕ) (c : Blockchain) (b : Block)
        → parents_known c b ≡ true
        → Processes (insert_block c b) (process_orphans? f (insert_block c b))
        → Adds c b (add_block? (suc f) c b)
    unfolding Ends-le
    Adds-known f c b e x = record {
      ends =
          Ends-le _ _ _ _ (rw (insert_block-orphans c b) (omega arith)) (add_block?-known f c b e)
            x.ends;
      settled = λ _. x.settled;
    }

    Adds-unknown :
        (f : ℕ) (c : Blockchain) (b : Block)
        → J (orphaned c b)
        → parents_known c b ≡ false
        → Adds c b (add_block? (suc f) c b)
    Adds-unknown f c b j e = record {
      ends = record {
        chain = orphaned c b;
        returns = add_block?-unknown f c b e;
        holds = j;
        bound = rw e (length-assign-le b.header.block_id b c.orphans);
      };
      settled = λ p. cc;
    }

    mutual
      unfolding AddsAll

      adds : (f : ℕ) → AddsAll f
      adds zero c b j fresh h = absurd (omega arith)
      adds (suc f) c b j fresh h = elim (Bool-cases (parents_known c b)) [
        | inl e ↦ Adds-known f c b e (
            processes f (insert_block c b) (inv.inserting c b j fresh e)
              (omega (arith, ap length (insert_block-orphans c b))))
        | inr e ↦ Adds-unknown f c b (inv.orphaning c b j fresh e) e
      ]

      processes :
          (f : ℕ) (c : Blockchain)
          → J c
          → 2 * length c.orphans + 1 ≤ f
          → Processes c (process_orphans? f c)
      processes zero c j h = absurd (omega arith)
      processes (suc f) c j h = elim (List-cases (ready_orphans c c.orphans)) [
        | inl e ↦ Processes-none f c j e
        | inr (id, ids, e) ↦
            let (n, x, fewer) = round-Ends f id ids c (adds f) j (omega arith) e in
            let below : length x.chain.orphans < length c.orphans = omega (arith, x.bound) in
            Processes-round f id ids c x.chain e x.returns (omega arith)
              (processes f x.chain x.holds (omega arith))
      ]

    -- The fuel of AddBlock is enough, and the invariant holds of the result; if the block was
    -- inserted no orphan is left that could be added.
    pub add_block_rule :
        (c : Blockchain) (b : Block)
        → J c
        → Fresh c b
        → (add_block? (enough c) c b ≡ some (add_block c b))
          × J (add_block c b)
          × (parents_known c b ≡ true → Settled (add_block c b))
    unfolding AddsAll
    add_block_rule c b j fresh =
        let x = adds (enough c) c b j fresh (omega arith) in
        let e = add_block-eq c b x.ends.chain x.ends.returns in
        (x.ends.returns ∙ ap some (sym e), rw e x.ends.holds, rw e x.settled)

    -- The rule from the insertion on: what holds of the chain with the block in it holds of the chain
    -- that AddBlock gives.
    pub add_block_rule_inserted :
        (c : Blockchain) (b : Block)
        → parents_known c b ≡ true
        → J (insert_block c b)
        → J (add_block c b)
    add_block_rule_inserted c b e j =
        let x =
          processes (2 * length c.orphans + 1) (insert_block c b) j
            (omega (arith, ap length (insert_block-orphans c b))) in
        let fuel : enough c ≡ suc (2 * length c.orphans + 1) = omega arith in
        let run : add_block? (enough c) c b ≡ some x.ends.chain =
          ap (λ n. add_block? n c b) fuel
          ∙ add_block?-known (2 * length c.orphans + 1) c b e
          ∙ x.ends.returns in
        rw (add_block-eq c b x.ends.chain run) x.ends.holds
