-- ===== src/Node/Relay/Asked.antt =====
-- Announcements of a block.
use ghostdagsim.Common.{
  ℕ, ◌+◌, ◌≡◌, refl, sym, ap, ◌∙◌, subst, true, false, ◌||◌, List, [], ◌∷◌, ◌++◌, if◌then◌else◌,
  foldl, ==-refl, none, some, Option, map,
}
use mathlib.Core.List.{append-nil, append_assoc}
use ghostdagsim.Common.Maps.{find, assign, find-assign}
use ghostdagsim.Chain.State.{has_block, is_orphan}
use ghostdagsim.Node.State.{Node, Sent, send}
use ghostdagsim.Node.Sizes.{wire_size_inv}
use ghostdagsim.Node.Relay.{handle_inv_relay_block, announcers_of, get_data, hear}

-- The announcements of block `id`: when, and by whom.
abbrev pub announced : ℕ → Node → List (ℕ × ℕ) → Node
announced id = foldl λ n a. handle_inv_relay_block a.0 id a.1 n

abbrev or_none : Option (List ℕ) → List ℕ
or_none o = elim o [ none ↦ [] | some v ↦ v ]

-- One more announcement of a block that was asked for.
more :
    (id now from : ℕ) (asked : ℕ) (others : List ℕ) (n : Node)
    → (has_block n.blockchain id || is_orphan n.blockchain id) ≡ false
    → find id n.queue_inv ≡ some (asked ∷ others)
    → handle_inv_relay_block now id from n
      ≡ record n { queue_inv = assign id ((asked ∷ others) ++ from ∷ []) n.queue_inv }
unfolding handle_inv_relay_block
more id now from asked others n new there =
    ap (λ b. if b then n else hear now id from n (announcers_of n id)) new
    ∙ ap (λ (o : Option (List ℕ)). hear now id from n (or_none o)) there

-- The first announcement of a block.
once :
    (id now from : ℕ) (n : Node)
    → n.running ≡ true
    → (has_block n.blockchain id || is_orphan n.blockchain id) ≡ false
    → find id n.queue_inv ≡ none
    → handle_inv_relay_block now id from n ≡ record n {
      queue_inv = assign id (from ∷ []) n.queue_inv;
      sent =
          n.sent ++ record { to = from; message = get_data n id; wire_bytes = wire_size_inv } ∷ [];
      inv_timeouts = assign id (now + n.inv_timeout) n.inv_timeouts;
    }
unfolding handle_inv_relay_block send
once id now from n running new absent =
    let queued : Node = record n { queue_inv = assign id (from ∷ []) n.queue_inv } in
    let message : Sent = record {
      to = from;
      message = get_data n id;
      wire_bytes = wire_size_inv;
    } in
    ap (λ b. if b then n else hear now id from n (announcers_of n id)) new
    ∙ ap (λ (o : Option (List ℕ)). hear now id from n (or_none o)) absent
    ∙ ap
        (λ b. record (if b then record queued { sent = n.sent ++ message ∷ [] } else queued) {
          inv_timeouts = assign id (now + n.inv_timeout) n.inv_timeouts;
        })
        running

record IsAsked (id : ℕ) (asked : List ℕ) (n n' : Node) : Type 0 where
  announcers : find id n'.queue_inv ≡ some asked
  sent : n'.sent ≡ n.sent
  timeouts : n'.inv_timeouts ≡ n.inv_timeouts

found_here : (id : ℕ) (v : List ℕ) (n : Node) → find id (assign id v n.queue_inv) ≡ some v
found_here id v n =
    find-assign id id v n.queue_inv
    ∙ ap (λ b. if b then some v else find id n.queue_inv) (==-refl id)

rest-IsAsked :
    (id : ℕ) (as' : List (ℕ × ℕ)) (asked : ℕ) (others : List ℕ) (n : Node)
    → (has_block n.blockchain id || is_orphan n.blockchain id) ≡ false
    → find id n.queue_inv ≡ some (asked ∷ others)
    → IsAsked id ((asked ∷ others) ++ map (λ a. a.1) as') n (announced id n as')
rest-IsAsked id [] asked others n new there = record {
  announcers = there ∙ ap some (sym (append-nil (asked ∷ others)));
  sent = refl;
  timeouts = refl;
}
rest-IsAsked id ((now, from) ∷ as') asked others n new there =
    let next : Node = record n {
      queue_inv = assign id ((asked ∷ others) ++ from ∷ []) n.queue_inv;
    } in
    let rest = rest-IsAsked id as' asked (others ++ from ∷ []) next new (found_here id _ n) in
    let same =
      ap (λ (x : Node). announced id x as') (sym (more id now from asked others n new there)) in
    let moved : IsAsked id ((asked ∷ (others ++ from ∷ [])) ++ map (λ a. a.1) as') n
        (announced id next as') =
      record { announcers = rest.announcers; sent = rest.sent; timeouts = rest.timeouts } in
    subst (λ x. IsAsked id x n (announced id n ((now, from) ∷ as')))
      (append_assoc (asked ∷ others) (from ∷ []) (map (λ a. a.1) as'))
      (subst (IsAsked id _ n) same moved)

-- A running node that neither has a block nor keeps it as an orphan, and has no announcement of it:
-- after announcements by one peer and any others, the node has asked the first peer for the block
-- and sent nothing else, a timeout of that request is planned, and the announcers are kept in order.
pub announced-asks_first :
    (id now first : ℕ) (others : List (ℕ × ℕ)) (n : Node)
    → n.running ≡ true
    → (has_block n.blockchain id || is_orphan n.blockchain id) ≡ false
    → find id n.queue_inv ≡ none
    → let n' : Node = announced id n ((now, first) ∷ others) in
      (n'.sent
        ≡ n.sent ++ record { to = first; message = get_data n id; wire_bytes = wire_size_inv } ∷ [])
      × (find id n'.inv_timeouts ≡ some (now + n.inv_timeout))
      × (find id n'.queue_inv ≡ some (first ∷ map (λ a. a.1) others))
announced-asks_first id now first others n running new absent =
    let next : Node = record n {
      queue_inv = assign id (first ∷ []) n.queue_inv;
      sent =
          n.sent ++ record { to = first; message = get_data n id; wire_bytes = wire_size_inv } ∷ [];
      inv_timeouts = assign id (now + n.inv_timeout) n.inv_timeouts;
    } in
    let rest = rest-IsAsked id others first [] next new (found_here id (first ∷ []) n) in
    let moved : IsAsked id (first ∷ map (λ a. a.1) others) next
        (announced id n ((now, first) ∷ others)) =
      subst (λ (x : Node). IsAsked id (first ∷ map (λ a. a.1) others) next (announced id x others))
        (sym (once id now first n running new absent)) rest in
    (
      moved.sent,
      ap (find id) moved.timeouts
          ∙ find-assign id id (now + n.inv_timeout) n.inv_timeouts
          ∙ ap (λ b. if b then some (now + n.inv_timeout) else find id n.inv_timeouts) (==-refl id),
      moved.announcers,
    )
