-- ===== src/Chain/Future/Descendants.antt =====
-- GetFuture finds the descendants of a block, and its rounds are enough.
use ghostdagsim.Common.{
  ℕ, zero, suc, ◌+◌, ◌≤◌, ◌<◌, ◌≡◌, refl, sym, ap, ◌∙◌, arith, true, false, ◌||◌, List, [], ◌∷◌,
  ◌++◌, some, length, foldl, contains, contains-append, Ascends, Bool-cases, inl, inr, ◌==◌,
  eq_of_==, not_contains_below,
}
use ghostdagsim.Common.Sets.{
  insert, erase, insert_all, contains-insert, contains-erase, contains-insert_all, insert-Ascends,
  insert_all-Ascends,
}
use ghostdagsim.Common.Maps.{keys, contains-keys}
use ghostdagsim.Chain.State.{Blockchain, children_of, in_past}
use ghostdagsim.Chain.Invariant.{IsChain, parents_at}
use ghostdagsim.Chain.Ancestors.{
  Ancestor, parent, further, Ancestor-known, child_known, in_past_of_Ancestor, Ancestor-of_in_past,
}
use ghostdagsim.Chain.Future.{visit, future_loop, get_future}

length-erase_le : (x : ℕ) (ys : List ℕ) → length (erase x ys) ≤ length ys
unfolding erase
length-erase_le x [] = omega arith
length-erase_le x (y ∷ ys) = ground (arith, length-erase_le x ys)

length-erase_lt : (x : ℕ) (ys : List ℕ) → contains x ys ≡ true → length (erase x ys) < length ys
unfolding erase
length-erase_lt x [] h = cc
length-erase_lt x (y ∷ ys) h = ground (arith, length-erase_le x ys, length-erase_lt x ys)

-- An ascending list inside another list is not longer.
length-le_of_contains :
    (n : ℕ) (xs ys : List ℕ)
    → Ascends n xs
    → ((i : ℕ) → contains i xs ≡ true → contains i ys ≡ true)
    → length xs ≤ length ys
length-le_of_contains n [] ys up sub = omega arith
length-le_of_contains n (x ∷ xs) ys up sub =
    let shorter = length-erase_lt x ys (sub x (ground arith)) in
    let rest =
      length-le_of_contains (suc x) xs (erase x ys) up.1 (λ i m.
        ground (arith, contains-erase i x ys, sub i, not_contains_below (suc x) i xs up.1)) in
    omega (arith, shorter, rest)

length-keys : {V : Type 0} (m : List (ℕ × V)) → length (keys m) ≡ length m
length-keys [] = refl
length-keys ((k, v) ∷ m) = omega (arith, length-keys m)

length-insert_new :
    (x : ℕ) (xs : List ℕ) → contains x xs ≡ false → length (insert x xs) ≡ suc (length xs)
unfolding insert
length-insert_new x [] h = refl
length-insert_new x (y ∷ ys) h = ground (arith, length-insert_new x ys)

length-append_one : (x : ℕ) (xs : List ℕ) → length (xs ++ x ∷ []) ≡ suc (length xs)
length-append_one x [] = refl
length-append_one x (y ∷ ys) = omega (arith, length-append_one x ys)

-- What some visits do to the set and the queue.
record Visited (ks : List ℕ) (future q : List ℕ) (r : List ℕ × List ℕ) : Type 0 where
  pub up : Ascends 0 r.0
  pub found : (x : ℕ) → contains x r.0 ≡ (contains x future || contains x ks)
  pub waits : (x : ℕ) → contains x q ≡ true → contains x r.1 ≡ true
  pub new : (x : ℕ) → contains x r.0 ≡ true → contains x future ≡ false → contains x r.1 ≡ true
  pub queued : (x : ℕ) → contains x r.1 ≡ true → (contains x q || contains x ks) ≡ true
  pub grown : length r.0 + length q ≡ length future + length r.1

visit_each :
    (ks future q : List ℕ) → Ascends 0 future → Visited ks future q (foldl visit (future, q) ks)
unfolding visit
visit_each [] future q up = record {
  up = up;
  found = λ x. ground arith;
  waits = λ x m. m;
  new = λ x m n. ground arith;
  queued = λ x m. ground arith;
  grown = refl;
}
visit_each (k ∷ ks) future q up = elim (Bool-cases (contains k future)) [
  | inl old ↦
      let v = visit_each ks future q up in
      rw (visit, old)
        (record {
          up = v.up;
          found = λ x. elim (Bool-cases (x == k)) [
            | inl same ↦
                let there = ap (λ (y : ℕ). contains y future) (eq_of_== x k same) in
                ground (arith, v.found x)
            | inr other ↦ ground (arith, v.found x)
          ];
          waits = v.waits;
          new = v.new;
          queued = λ x m. ground (arith, v.queued x);
          grown = v.grown;
        })
  | inr fresh ↦
      let v =
        visit_each ks (insert k future) (q ++ k ∷ [])
          (insert-Ascends 0 k future (omega arith) up) in
      rw (visit, fresh)
        (record {
          up = v.up;
          found = λ x. ground (arith, v.found x, contains-insert x k future);
          waits = λ x m. v.waits x (ground (arith, contains-append x q (k ∷ [])));
          new = λ x m n. elim (Bool-cases (x == k)) [
            | inl same ↦ v.waits x (ground (arith, contains-append x q (k ∷ [])))
            | inr other ↦ v.new x m (ground (arith, contains-insert x k future))
          ];
          queued = λ x m. ground (arith, v.queued x, contains-append x q (k ∷ []));
          grown = omega (arith, v.grown, length-insert_new k future fresh, length-append_one k q);
        })
]

module _ (c : Blockchain) (h : IsChain c) (id : ℕ) where
  -- The search so far, with so many rounds left.
  record Searches (rounds : ℕ) (future q : List ℕ) : Type 0 where
    pub up : Ascends 0 future
    pub queued : (x : ℕ) → contains x q ≡ true → contains x future ≡ true
    pub sound : (x : ℕ) → contains x future ≡ true → Ancestor c id x
    pub closed :
        (x y : ℕ)
        → contains x future ≡ true
        → contains x q ≡ false
        → contains y (children_of c x) ≡ true
        → contains y future ≡ true
    pub first_found : (y : ℕ) → contains y (children_of c id) ≡ true → contains y future ≡ true
    pub enough : length c.blocks + length q ≤ rounds + length future

  is_parent : (x y : ℕ) → contains y (children_of c x) ≡ true → contains x (parents_at c y) ≡ true
  is_parent x y m = ground (arith, h.linked.child x y)

  is_child : (x y : ℕ) → contains x (parents_at c y) ≡ true → contains y (children_of c x) ≡ true
  is_child x y m =
      ground (arith, h.linked.child x y, child_known c h.indexed h.pasts x y m, h.indexed.known y)

  at_most_blocks :
      (rounds : ℕ) (future q : List ℕ) → Searches rounds future q → length future ≤ length c.blocks
  at_most_blocks rounds future q s = omega (
    arith,
    length-keys c.blocks,
    length-le_of_contains 0 future (keys c.blocks) s.up (λ x m.
        let known = Ancestor-known c h.indexed h.pasts (s.sound x m) in
        ground (arith, contains-keys x c.blocks, h.indexed.known x)),
  )

  Visited-Searches :
      (rounds cur : ℕ) (future q : List ℕ) (r : List ℕ × List ℕ)
      → Searches (suc rounds) future (cur ∷ q)
      → Visited (children_of c cur) future q r
      → Searches rounds r.0 r.1
  Visited-Searches rounds cur future q r s v =
      let here : contains cur future ≡ true = s.queued cur (ground arith) in
      record {
        up = v.up;
        queued = λ x m. ground (arith, v.queued x m, v.found x, s.queued x);
        sound = λ x m. elim (Bool-cases (contains x future)) [
          | inl old ↦ s.sound x old
          | inr fresh ↦
              further x cur (s.sound cur here) (is_parent cur x (ground (arith, v.found x)))
        ];
        closed = λ x y m done child. elim (Bool-cases (x == cur)) [
          | inl same ↦
              let kids = ap (λ z. contains y (children_of c z)) (eq_of_== x cur same) in
              ground (arith, v.found y)
          | inr other ↦ ground (arith, v.new x m, v.waits x, v.found y, s.closed x y)
        ];
        first_found = λ y m. ground (arith, s.first_found y m, v.found y);
        enough = omega (arith, v.grown, s.enough);
      }

  every_descendant :
      (rounds : ℕ) (future : List ℕ) (x : ℕ)
      → Searches rounds future []
      → Ancestor c id x
      → contains x future ≡ true
  every_descendant rounds future x s (parent _ m) = s.first_found x (is_child id x m)
  every_descendant rounds future x s (further _ p above m) =
      s.closed p x (every_descendant rounds future p s above) refl (is_child p x m)

  search :
      (rounds : ℕ) (future q : List ℕ)
      → Searches rounds future q
      → (r : List ℕ) × (future_loop c rounds future q ≡ some r)
        × Ascends 0 r
        × ((x : ℕ) → contains x r ≡ in_past c x id)
  unfolding future_loop
  search rounds future [] s = (
    future,
    refl,
    s.up,
    λ x. elim (Bool-cases (in_past c x id)) [
      | inl yes_past ↦
          every_descendant rounds future x s (Ancestor-of_in_past c h.indexed h.pasts id x yes_past)
          ∙ sym yes_past
      | inr not_past ↦ elim (Bool-cases (contains x future)) [
        | inl there ↦
            let back = in_past_of_Ancestor c h.indexed h.pasts id x (s.sound x there) in
            ground arith
        | inr absent ↦ absent ∙ sym not_past
      ]
    ],
  )
  search zero future (cur ∷ q) s =
      absurd (omega (arith, s.enough, at_most_blocks zero future (cur ∷ q) s))
  search (suc rounds) future (cur ∷ q) s =
      search rounds _ _
        (Visited-Searches rounds cur future q _ s (visit_each (children_of c cur) future q s.up))

-- On a well-formed chain GetFuture returns, within one round for each block, an ascending set that
-- holds a block exactly if InPast says that the given block is in its past.
pub contains-get_future :
    (c : Blockchain) (id : ℕ)
    → IsChain c
    → (r : List ℕ) × (get_future c id ≡ some r)
      × Ascends 0 r
      × ((x : ℕ) → contains x r ≡ in_past c x id)
unfolding get_future
contains-get_future c id h =
    let kids : List ℕ = children_of c id in
    search c h id (length c.blocks) (insert_all [] kids) kids (record {
      up = insert_all-Ascends [] kids tt;
      queued = λ x m. ground (arith, contains-insert_all x [] kids);
      sound =
          λ x m. parent x (is_parent c h id id x (ground (arith, contains-insert_all x [] kids)));
      closed = λ x y m done child. ground (arith, contains-insert_all x [] kids);
      first_found = λ y m. ground (arith, contains-insert_all y [] kids);
      enough = omega (
        arith,
        length-le_of_contains 0 kids (insert_all [] kids) (h.linked.children_ascend id)
            (λ i m. ground (arith, contains-insert_all i [] kids)),
      );
    })
