-- ===== src/Graphene/Recovery/Ends.antt =====
-- The rounds of TryPingPong are enough: graphene.cc.
use ghostdagsim.Common.{
  ℕ, zero, suc, ◌+◌, ◌≤◌, ◌≡◌, refl, true, arith, List, [], ◌∷◌, Option, none, some, is_some, ltb,
  ◌&&◌, Bool-cases, inl, inr, max, foldl,
}
use ghostdagsim.Common.Sets.{insert}
use ghostdagsim.Graphene.Numbers.{Numbers}
use ghostdagsim.Graphene.Filters.{Filters, Pairs}
use ghostdagsim.Graphene.Receiver.{
  DecodeStatus, success, fail_recoverable, fail_fatal, GrapheneState,
}
use ghostdagsim.Graphene.Json.{RecoveryResponse}
use ghostdagsim.Graphene.Recovery.{
  PingPong, is_empty, peel, try_ping_pong?, try_ping_pong, enough_rounds,
  reconstruct_recovery_block, accept_result, recover_with, conclude, process_recovery_response,
}

module _ {B I : Type 0} (f : Filters B I) where
  -- Insertions and erasures do not change the number of cells of a table.
  pub record KeepsSize : Type 0 where
    pub inserting :
        (k : ℕ) (v : List ℕ) (i : I) → f.hash_table_size (f.insert k v i) ≡ f.hash_table_size i
    pub erasing :
        (k : ℕ) (v : List ℕ) (i : I) → f.hash_table_size (f.erase k v i) ≡ f.hash_table_size i

  -- Both tables have at most `n` cells.
  abbrev pub Within : ℕ → PingPong I → Type 0
  Within n s = (f.hash_table_size s.first ≤ n) × (f.hash_table_size s.second ≤ n)

  module _ (keeps : KeepsSize) (n : ℕ) where
    taken_out :
        (ps : Pairs) (s : PingPong I)
        → Within n s
        → Within n (
            foldl
              (λ (t : PingPong I) p. record {
                first = f.erase p.0 p.1 t.first;
                second = f.erase p.0 p.1 t.second;
                in_block = insert p.0 t.in_block;
                not_in_block = t.not_in_block;
              })
              s
              ps)
    taken_out [] s h = h
    taken_out ((k, v) ∷ ps) s h =
        taken_out ps _ (
          omega (arith, h, keeps.erasing k v s.first),
          omega (arith, h, keeps.erasing k v s.second),
        )

    put_in :
        (ps : Pairs) (s : PingPong I)
        → Within n s
        → Within n (
            foldl
              (λ (t : PingPong I) p. record {
                first = f.insert p.0 p.1 t.first;
                second = f.insert p.0 p.1 t.second;
                in_block = t.in_block;
                not_in_block = insert p.0 t.not_in_block;
              })
              s
              ps)
    put_in [] s h = h
    put_in ((k, v) ∷ ps) s h = put_in ps _ (
      omega (arith, h, keeps.inserting k v s.first),
      omega (arith, h, keeps.inserting k v s.second),
    )

    peel-Within :
        (d : Numbers) (ps qs : Pairs) (s : PingPong I) → Within n s → Within n (peel d f ps qs s)
    unfolding peel
    peel-Within d ps qs s h = put_in qs _ (taken_out ps s h)

    rounds-enough :
        (d : Numbers) (rounds depth : ℕ) (s : PingPong I)
        → Within n s
        → depth ≤ n + 1
        → n + 2 ≤ rounds + depth
        → is_some (try_ping_pong? d f rounds s depth) ≡ true
    unfolding try_ping_pong?
    rounds-enough d zero depth s h low e = absurd (omega arith)
    rounds-enough d (suc rounds) depth s h low e =
        let from_second = f.list_entries s.second in
        let from_first = f.list_entries s.first in
        elim (Bool-cases (ltb (f.hash_table_size s.first) depth)) [
          | inl over ↦ rw (try_ping_pong?, over) refl
          | inr under ↦ elim (Bool-cases (is_empty from_second.1 && is_empty from_second.2)) [
            | inl none_left ↦ elim (Bool-cases (is_empty from_first.1 && is_empty from_first.2)) [
              | inl done ↦ rw (try_ping_pong?, under, none_left, done) refl
              | inr more ↦
                  rw (try_ping_pong?, under, none_left, more)
                    (rounds-enough d rounds (depth + 1) _
                      (peel-Within d from_first.1 from_first.2 s h) (ground arith) (omega arith))
            ]
            | inr more ↦
                let kept = peel-Within d from_second.1 from_second.2 s h in
                rw (try_ping_pong?, under, more)
                  (rounds-enough d rounds (depth + 1) _ (kept.1, kept.0) (ground arith)
                    (omega arith))
          ]
        ]

  -- With tables that keep their number of cells, TryPingPong ends: the rounds that the model gives it
  -- do not run out, whatever the tables list.
  pub try_ping_pong-returns :
      (d : Numbers) (s : PingPong I) → KeepsSize → is_some (try_ping_pong d f s) ≡ true
  unfolding try_ping_pong
  try_ping_pong-returns d s keeps =
      rounds-enough keeps (max (f.hash_table_size s.first) (f.hash_table_size s.second)) d
        (enough_rounds d f s) 0 s (omega arith, omega arith) (omega arith) (omega arith)

  -- With tables that keep their number of cells, ProcessRecoveryResponse returns, whatever the tables
  -- list: it does not run out of rounds.
  pub process_recovery_response-returns :
      (d : Numbers) (resp : RecoveryResponse) (state : GrapheneState I)
      → KeepsSize
      → is_some (process_recovery_response d f resp state) ≡ true
  unfolding process_recovery_response conclude recover_with accept_result
  process_recovery_response-returns d resp state keeps =
      by_status (reconstruct_recovery_block d f resp state.candidate_ids)
    where
      accepts :
          (zs : List ℕ) (tx_count : ℕ) (o : Option (DecodeStatus × PingPong I))
          → is_some o ≡ true
          → is_some (accept_result d f resp tx_count zs o) ≡ true
      accepts zs tx_count none e = e
      accepts zs tx_count (some r) e = refl

      again :
          (tx_count : ℕ) (zs : List ℕ) (o : Option I)
          → is_some (recover_with d f resp tx_count zs o) ≡ true
      again tx_count zs none = refl
      again tx_count zs (some diff1) = accepts zs tx_count _ (try_ping_pong-returns d _ keeps)

      by_status : (r : DecodeStatus × List ℕ) → is_some (conclude d f resp state r) ≡ true
      by_status (success, zs) = refl
      by_status (fail_recoverable, zs) = again state.tx_count zs state.diff1
      by_status (fail_fatal, zs) = again state.tx_count zs state.diff1
