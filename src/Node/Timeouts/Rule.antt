-- ===== src/Node/Timeouts/Rule.antt =====
-- The loop of ProcessTxTimeouts of node.cc and a property of the node.
use ghostdagsim.Common.{
  ℕ, zero, suc, ◌≤◌, ◌≡◌, refl, arith, List, [], ◌∷◌, Option, none, some, ltb, if◌then◌else◌,
  Bool-cases, inl, inr,
}
use ghostdagsim.Node.State.{Node, Library}
use ghostdagsim.Node.Timeouts.{process_entry, process_loop}

-- A result, if there is one, has the property.
abbrev pub InSome : (Node → Type 0) → Option Node → Type 0
InSome P none = Unit
InSome P (some n) = P n

module _ (library : Library) (now : ℕ) (P : Node → Type 0) where
  -- An entry that is due, taken out of the queue and processed, keeps the property.
  abbrev pub KeepsEntry : Type 0
  KeepsEntry =
      (deadline tx_id : ℕ) (entries : List (ℕ × ℕ)) (n : Node)
      → deadline ≤ now
      → n.tx_timeout_queue ≡ (deadline, tx_id) ∷ entries
      → P n
      → P (process_entry library now deadline tx_id (record n { tx_timeout_queue = entries }))

  pub process_loop_rule :
      KeepsEntry → (rounds : ℕ) (n : Node) → P n → InSome P (process_loop library rounds now n)
  unfolding process_loop
  process_loop_rule step zero n h = stops n.tx_timeout_queue
    where
      stops :
          (q : List (ℕ × ℕ))
          → InSome P
              (elim q [ [] ↦ some n | entry ∷ entries ↦ if ltb now entry.0 then some n else none ])
      stops [] = h
      stops (e ∷ es) = elim (Bool-cases (ltb now e.0)) [
        | inl early ↦ rw early h
        | inr due ↦ rw due tt
      ]
  process_loop_rule step (suc rounds) n h =
      goes (process_loop_rule step rounds) n.tx_timeout_queue refl
    where
      goes :
          ((m : Node) → P m → InSome P (process_loop library rounds now m))
          → (q : List (ℕ × ℕ)) → n.tx_timeout_queue ≡ q
          → InSome P (elim q [
            | [] ↦ some n
            | entry ∷ entries ↦
                let rest = process_loop library rounds now (
                  process_entry library now entry.0 entry.1
                    (record n { tx_timeout_queue = entries })) in
                if ltb now entry.0 then some n else rest
          ])
      goes ih [] same = h
      goes ih (e ∷ es) same = elim (Bool-cases (ltb now e.0)) [
        | inl early ↦ rw early h
        | inr due ↦ rw due (ih _ (step e.0 e.1 es n (ground arith) same h))
      ]
