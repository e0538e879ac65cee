-- ===== src/Graphene/Receiver/Correct.antt =====
-- What the receiver of a compact block rebuilds: ReconstructBlock.
use ghostdagsim.Common.{
  ℕ, ◌≡◌, refl, ap, ◌∙◌, true, false, not, ◌&&◌, ◌||◌, arith, List, [], ◌∷◌, length, contains,
  Ascends, Bool, Bool-cases, inl, inr, ◌⊎◌, if◌then◌else◌, foldl, ◌==◌, sym, subst,
}
use ghostdagsim.Common.Sets.{
  insert, insert_all, erase_all, contains-insert, contains-insert_all, contains-erase_all,
  insert_all-Ascends, erase_all-Ascends, insert-Ascends,
}
use ghostdagsim.Block.{TxSet, insert_tx, tx_ids}
use ghostdagsim.Block.Ids.{tx_ids-insert_tx}
use ghostdagsim.Graphene.Numbers.{Numbers}
use ghostdagsim.Graphene.Filters.{Filters, Pairs}
use ghostdagsim.Graphene.Receiver.{
  success, fail_recoverable, bare_tx, keys_of, adjust, tx_set_of, build_candidate_set, difference,
  reconstruct_block,
}

tx_ids-insert_each :
    (ids : List ℕ) (s : TxSet)
    → tx_ids (foldl (λ s id. insert_tx (bare_tx id) s) s ids) ≡ insert_all (tx_ids s) ids
tx_ids-insert_each [] s = refl
tx_ids-insert_each (x ∷ xs) s =
    tx_ids-insert_each xs (insert_tx (bare_tx x) s)
    ∙ ap (λ l. insert_all l xs) (tx_ids-insert_tx (bare_tx x) s)

module _ {B I : Type 0} (d : Numbers) (f : Filters B I) where
  -- An id of the mempool that passes the filter.
  pub is_candidate : B → ℕ → List (ℕ × ℕ) → Bool
  is_candidate bf j [] = false
  is_candidate bf j (entry ∷ entries) =
      (j == entry.1 && f.contains bf entry.1) || is_candidate bf j entries

  add_candidates :
      (bf : B) (entries : List (ℕ × ℕ)) (s : List ℕ)
      → Ascends 0 s
      → Ascends 0
          (foldl (λ s entry. if f.contains bf entry.1 then insert entry.1 s else s) s entries)
        × ((j : ℕ)
            → contains j
                (foldl (λ s entry. if f.contains bf entry.1 then insert entry.1 s else s) s entries)
              ≡ (is_candidate bf j entries || contains j s))
  unfolding is_candidate
  add_candidates bf [] s h = (h, λ j. refl)
  add_candidates bf (entry ∷ entries) s h = elim (Bool-cases (f.contains bf entry.1)) [
    | inl passes ↦
        let rest =
          add_candidates bf entries (insert entry.1 s)
            (insert-Ascends 0 entry.1 s (omega arith) h) in
        rw passes (rest.0, λ j. ground (arith, rest.1 j, contains-insert j entry.1 s))
    | inr fails ↦
        let rest = add_candidates bf entries s h in rw fails (rest.0, λ j. ground (arith, rest.1 j))
  ]

  -- What ReconstructBlock makes of a listed difference: the positive ids, and the candidates that are
  -- not among the negative ids.
  pub record Reconstructs (bf : B) (mempool : List (ℕ × ℕ)) (entries : Bool × Pairs × Pairs)
      (txs : TxSet) : Type 0 where
    pub listed : entries.0 ≡ true
    pub ascending : Ascends 0 (tx_ids txs)
    pub ids :
        (j : ℕ)
        → contains j (tx_ids txs) ≡ (
            contains j (keys_of entries.1)
            || (not (contains j (keys_of entries.2)) && is_candidate bf j mempool))

  -- Whatever the tables of the library list: ReconstructBlock fails with no transactions if the
  -- difference of the tables cannot be listed. Otherwise it gives a set of transactions, each id
  -- once, that are those with a positive id and those of the mempool that pass the filter and have
  -- no negative id; and it succeeds exactly if they are as many as the message says.
  pub reconstruct_block-ids :
      (bf : B) (sender_iblt : I) (tx_count : ℕ) (mempool : List (ℕ × ℕ))
      → ((f.list_entries (difference d f sender_iblt (build_candidate_set d f bf mempool))).0
            ≡ false)
          × (reconstruct_block d f bf sender_iblt tx_count mempool ≡ (fail_recoverable, []))
        ⊎ (txs : TxSet) × Reconstructs bf mempool
            (f.list_entries (difference d f sender_iblt (build_candidate_set d f bf mempool)))
            txs
          × (reconstruct_block d f bf sender_iblt tx_count mempool
              ≡ ((if length txs == tx_count then success else fail_recoverable), txs))
  unfolding reconstruct_block build_candidate_set
  reconstruct_block-ids bf sender_iblt tx_count mempool =
      let ids : List ℕ = build_candidate_set d f bf mempool in
      let entries : Bool × Pairs × Pairs = f.list_entries (difference d f sender_iblt ids) in
      let all = add_candidates bf mempool [] tt in
      elim (Bool-cases entries.0) [
        | inr unlisted ↦ inl (unlisted, rw unlisted refl)
        | inl listed ↦
            let positive : List ℕ = keys_of entries.1 in
            let negative : List ℕ = keys_of entries.2 in
            let txs : TxSet = tx_set_of (adjust negative positive ids) in
            let left = erase_all-Ascends ids negative all.0 in
            let up = insert_all-Ascends (erase_all ids negative) positive left in
            let same : tx_ids txs ≡ insert_all [] (adjust negative positive ids) =
              tx_ids-insert_each (adjust negative positive ids) [] in
            inr (
              txs,
              record {
                listed = listed;
                ascending =
                    subst (Ascends 0) (sym same)
                      (insert_all-Ascends [] (adjust negative positive ids) tt);
                ids = λ j.
                    ap (contains j) same
                    ∙ ground (
                      arith,
                      contains-insert_all j [] (adjust negative positive ids),
                      contains-insert_all j (erase_all ids negative) positive,
                      contains-erase_all j ids negative,
                      all.1 j,
                    );
              },
              elim (Bool-cases (length txs == tx_count)) [
                | inl e ↦ rw (listed, e) refl
                | inr e ↦ rw (listed, e) refl
              ],
            )
      ]
