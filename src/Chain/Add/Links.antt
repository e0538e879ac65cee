-- ===== src/Chain/Add/Links.antt =====
-- `insert_block` links the new block below its parents, and nothing else.
use ghostdagsim.Common.{
  ℕ, ◌≡◌, refl, ap, sym, subst, ◌∙◌, Bool, true, false, not, ◌&&◌, ◌||◌, List, [], ◌∷◌, arith, ◌==◌,
  if◌then◌else◌, foldl, contains, Ascends, is_nil, is_nil_of_contains, all_of-contains, Bool-cases,
  Option-cases, inl, inr, false≢true,
}
use ghostdagsim.Common.Maps.{Map, find, assign, has, find-assign, at}
use ghostdagsim.Common.Sets
use ghostdagsim.Common.Sets.{contains-insert, contains-erase, insert-Ascends, erase-Ascends}
use ghostdagsim.Block.{Block}
use ghostdagsim.Chain.State.{Blockchain, parents_of, children_of}
use ghostdagsim.Chain.Add.{link, colour_block, parents_known}
use ghostdagsim.Chain.Invariant.{parents_at, IsIndexed, IsLinked, IsPast, IsFresh}
use ghostdagsim.Chain.Add.Facts.{uncoloured, new_links, new_block}
use ghostdagsim.Chain.Add.Index.{has-blocks}

is_nil-insert : (x : ℕ) (xs : List ℕ) → is_nil (Sets.insert x xs) ≡ false
unfolding Sets.insert
is_nil-insert x [] = refl
is_nil-insert x (y ∷ ys) = ground arith

abbrev Links : Type 0
Links = Map (List ℕ) × List ℕ

children-eq : (p q : ℕ) (m : Map (List ℕ)) → p ≡ q → at [] p m ≡ at [] q m
children-eq p q m e = rw e

-- The loop over the parents, for one parent `p`, one child and one tip.
contains-link_child :
    (id : ℕ) (ps : List ℕ) (s : Links) (p ch : ℕ)
    → contains ch (at [] p (foldl (link id) s ps).0)
      ≡ ((contains p ps && (ch == id)) || contains ch (at [] p s.0))
unfolding link
contains-link_child id [] s p ch = refl
contains-link_child id (q ∷ ps) s p ch = ground (
  arith,
  contains-link_child id ps (link id s q) p ch,
  find-assign p q (Sets.insert id (at [] q s.0)) s.0,
  contains-insert ch id (at [] q s.0),
  children-eq p q s.0,
)

is_nil-link :
    (id : ℕ) (ps : List ℕ) (s : Links) (p : ℕ)
    → is_nil (at [] p (foldl (link id) s ps).0) ≡ (not (contains p ps) && is_nil (at [] p s.0))
unfolding link
is_nil-link id [] s p = refl
is_nil-link id (q ∷ ps) s p = ground (
  arith,
  is_nil-link id ps (link id s q) p,
  find-assign p q (Sets.insert id (at [] q s.0)) s.0,
  is_nil-insert id (at [] q s.0),
)

contains-link_tip :
    (id : ℕ) (ps : List ℕ) (s : Links) (t : ℕ)
    → contains t (foldl (link id) s ps).1 ≡ (not (contains t ps) && contains t s.1)
unfolding link
contains-link_tip id [] s t = refl
contains-link_tip id (q ∷ ps) s t =
    ground (arith, contains-link_tip id ps (link id s q) t, contains-erase t q s.1)

children-link :
    (id : ℕ) (s : Links) (q p : ℕ)
    → at [] p (link id s q).0 ≡ (if p == q then Sets.insert id (at [] q s.0) else at [] p s.0)
unfolding link
children-link id s q p = ground (arith, find-assign p q (Sets.insert id (at [] q s.0)) s.0)

link-Ascends :
    (id : ℕ) (ps : List ℕ) (s : Links)
    → Ascends 0 s.1
    → ((p : ℕ) → Ascends 0 (at [] p s.0))
    → Ascends 0 (foldl (link id) s ps).1 × ((p : ℕ) → Ascends 0 (at [] p (foldl (link id) s ps).0))
unfolding link
link-Ascends id [] s h k = (h, k)
link-Ascends id (q ∷ ps) s h k = link-Ascends id ps (link id s q) (erase-Ascends 0 q s.1 h) λ p.
    subst (Ascends 0) (sym (children-link id s q p))
      (if-Ascends (p == q) _ _ (insert-Ascends 0 id (at [] q s.0) (omega arith) (k q)) (k p))
  where
    if-Ascends :
        (t : Bool) (xs ys : List ℕ) → Ascends 0 xs → Ascends 0 ys → Ascends 0 (if t then xs else ys)
    if-Ascends true xs ys a b = a
    if-Ascends false xs ys a b = b

module _ (c : Blockchain) (b : Block) where
  abbrev id : ℕ
  id = b.header.block_id

  pub new_block-header : (new_block c b).header ≡ b.header
  unfolding colour_block
  new_block-header = ground arith

  pub parents_at-uncoloured :
      (j : ℕ) → parents_at (uncoloured c b) j ≡ (if j == id then parents_of b else parents_at c j)
  unfolding uncoloured
  parents_at-uncoloured j = ground (
    arith,
    find-assign j id (new_block c b) (assign id b c.blocks),
    find-assign j id b c.blocks,
    ap (λ h. h.parent_hashes) new_block-header,
  )

  module _ (x : IsIndexed c) (l : IsLinked c) (y : IsPast c) (fresh : IsFresh c b)
      (known : parents_known c b ≡ true) where
    -- The new block is nobody's parent, and not its own.
    not_own_parent : contains id (parents_of b) ≡ false
    not_own_parent = elim (Bool-cases (contains id (parents_of b))) [
      | inl e ↦
          let p = all_of-contains (λ q. has q c.blocks) id (parents_of b) known e in
          absurd (false≢true (sym fresh.unknown ∙ p))
      | inr e ↦ e
    ]

    no_children : is_nil (children_of c id) ≡ true
    no_children = is_nil_of_contains (children_of c id) λ ch.
        elim (Option-cases (find ch c.idx_of)) [
          | inl e ↦ ground (arith, l.child id ch, x.known ch)
          | inr (i, e) ↦
              ground (arith, l.child id ch, x.known id, y.parent ch i id e, fresh.unknown)
        ]

    contains-children :
        (p ch : ℕ)
        → contains ch (children_of (uncoloured c b) p)
          ≡ ((contains p (parents_of b) && (ch == id)) || contains ch (children_of c p))
    unfolding uncoloured
    contains-children p ch = contains-link_child id (parents_of b) (c.children, c.tips) p ch

    is_nil-children :
        (p : ℕ)
        → is_nil (children_of (uncoloured c b) p)
          ≡ (not (contains p (parents_of b)) && is_nil (children_of c p))
    unfolding uncoloured
    is_nil-children p = is_nil-link id (parents_of b) (c.children, c.tips) p

    contains-tips :
        (t : ℕ)
        → contains t (uncoloured c b).tips
          ≡ ((t == id) || (not (contains t (parents_of b)) && contains t c.tips))
    unfolding uncoloured
    contains-tips t = ground (
      arith,
      contains-insert t id (new_links c b).1,
      contains-link_tip id (parents_of b) (c.children, c.tips) t,
    )

    uncoloured-child :
        (p ch : ℕ)
        → contains ch (children_of (uncoloured c b) p)
          ≡ (has ch (uncoloured c b).blocks && contains p (parents_at (uncoloured c b) ch))
    uncoloured-child p ch =
        contains-children p ch
        ∙ ground (
          arith,
          l.child p ch,
          has-blocks c b x fresh ch,
          ap (contains p) (parents_at-uncoloured ch),
          fresh.unknown,
        )

    uncoloured-tip :
        (t : ℕ)
        → contains t (uncoloured c b).tips
          ≡ (has t (uncoloured c b).blocks && is_nil (children_of (uncoloured c b) t))
    uncoloured-tip t =
        contains-tips t
        ∙ ground (
          arith,
          l.tip t,
          has-blocks c b x fresh t,
          is_nil-children t,
          no_children,
          not_own_parent,
        )

    pub uncoloured-IsLinked : IsLinked (uncoloured c b)
    unfolding uncoloured
    uncoloured-IsLinked =
        let ascend =
          link-Ascends id (parents_of b) (c.children, c.tips) l.tips_ascend l.children_ascend in
        record {
          child = uncoloured-child;
          tip = uncoloured-tip;
          children_ascend = ascend.1;
          tips_ascend = insert-Ascends 0 id (new_links c b).1 (omega arith) ascend.0;
        }
