-- ===== src/Graphene/Recovery.antt =====
-- Protocol 2 at the receiver: ReconstructRecoveryBlock, TryPingPong and ProcessRecoveryResponse.
pub mod Ends
use ghostdagsim.Common.{
  ℕ, zero, suc, ◌+◌, bit_xor, Bool, true, false, not, ◌&&◌, List, [], ◌∷◌, Option, none, some,
  length, ltb, ◌==◌, if◌then◌else◌, foldl, max,
}
use ghostdagsim.Common.Sets.{insert}
use ghostdagsim.Common.Sets
use ghostdagsim.Graphene.Numbers.{Numbers}
use ghostdagsim.Graphene.Filters.{Filters, Pairs}
use ghostdagsim.Graphene.Json.{RecoveryResponse, deserialize_iblt}
use ghostdagsim.Graphene.Receiver.{
  DecodeStatus, success, fail_recoverable, fail_fatal, GrapheneState, keys_of, adjust, difference,
}

-- Both tables, and the ids that are in the block and not in it.
pub record PingPong (I : Type 0) : Type 0 where
  pub first : I
  pub second : I
  pub in_block : List ℕ
  pub not_in_block : List ℕ

-- The ids of a response, or the failed assertion on the checksum.
pub data Recovered : Type 0 where
  aborted : Recovered
  failed : Recovered
  recovered : List ℕ → Recovered

abbrev pub is_empty : Pairs → Bool
is_empty [] = true
is_empty (p ∷ ps) = false

abbrev pub xor_all : List ℕ → ℕ
xor_all = foldl (λ c id. bit_xor c id) 0

module _ {B I : Type 0} (d : Numbers) (f : Filters B I) where
  unfoldable pub reconstruct_recovery_block : RecoveryResponse → List ℕ → DecodeStatus × List ℕ
  reconstruct_recovery_block resp zs =
      let known : List ℕ = foldl (λ s id. insert id s) zs resp.missing in
      let (decoded, positive, negative) : Bool × Pairs × Pairs =
        f.list_entries (difference d f (deserialize_iblt f resp.iblt) known) in
      if not decoded
      then (fail_fatal, known)
      else (success, adjust (keys_of negative) (keys_of positive) known)

  -- What both tables and both sets are once the pairs of a round are taken out.
  unfoldable pub peel : Pairs → Pairs → PingPong I → PingPong I
  peel positive negative s =
      let out : PingPong I =
        foldl
          (λ (t : PingPong I) p. record {
            first = f.erase p.0 p.1 t.first;
            second = f.erase p.0 p.1 t.second;
            in_block = insert p.0 t.in_block;
            not_in_block = t.not_in_block;
          })
          s positive in
      foldl
        (λ (t : PingPong I) p. record {
          first = f.insert p.0 p.1 t.first;
          second = f.insert p.0 p.1 t.second;
          in_block = t.in_block;
          not_in_block = insert p.0 t.not_in_block;
        })
        out negative

  abbrev pub swapped : PingPong I → PingPong I
  swapped s = record s { first = s.second; second = s.first }

  -- `none`: the rounds ran out. The second table is listed, and the first one only if that gives
  -- nothing; a round in which the second gave something swaps them.
  pub try_ping_pong? : ℕ → PingPong I → ℕ → Option (DecodeStatus × PingPong I)
  unfolding peel
  try_ping_pong? zero s depth = none
  try_ping_pong? (suc rounds) s depth =
      let (second_ok, positive, negative) : Bool × Pairs × Pairs = f.list_entries s.second in
      let (first_ok, positive', negative') : Bool × Pairs × Pairs = f.list_entries s.first in
      elim (ltb (f.hash_table_size s.first) depth) [
        | true ↦ some (fail_fatal, s)
        | false ↦ elim (is_empty positive && is_empty negative) [
          | true ↦ elim (is_empty positive' && is_empty negative') [
            | true ↦ some (if first_ok && second_ok then success else fail_recoverable, s)
            | false ↦ try_ping_pong? rounds (peel positive' negative' s) (depth + 1)
          ]
          | false ↦ try_ping_pong? rounds (swapped (peel positive negative s)) (depth + 1)
        ]
      ]

  abbrev pub enough_rounds : PingPong I → ℕ
  enough_rounds s = max (f.hash_table_size s.first) (f.hash_table_size s.second) + 2

  unfoldable pub try_ping_pong : PingPong I → Option (DecodeStatus × PingPong I)
  unfolding try_ping_pong?
  try_ping_pong s = try_ping_pong? (enough_rounds s) s 0

  -- The ids if the tables were emptied and the number and the checksum of the ids are right.
  unfoldable pub accept_ids : RecoveryResponse → ℕ → List ℕ → DecodeStatus × PingPong I → Recovered
  accept_ids resp tx_count zs (success, s) =
      let ids : List ℕ =
        foldl (λ t id. Sets.erase id t) (foldl (λ t id. insert id t) zs s.in_block)
          s.not_in_block in
      if (length ids == tx_count) && (xor_all ids == resp.tx_checksum)
      then recovered ids
      else failed
  accept_ids resp tx_count zs (fail_recoverable, s) = failed
  accept_ids resp tx_count zs (fail_fatal, s) = failed

  -- `none`: the rounds of the ping-pong ran out.
  unfoldable pub accept_result :
      RecoveryResponse → ℕ → List ℕ → Option (DecodeStatus × PingPong I) → Option Recovered
  unfolding accept_ids
  accept_result resp tx_count zs none = none
  accept_result resp tx_count zs (some r) = some (accept_ids resp tx_count zs r)

  -- The ping-pong recovery with the first table, if there is one.
  unfoldable pub recover_with : RecoveryResponse → ℕ → List ℕ → Option I → Option Recovered
  unfolding try_ping_pong accept_result
  recover_with resp tx_count zs none = some failed
  recover_with resp tx_count zs (some diff1) = accept_result resp tx_count zs (
      try_ping_pong (record {
        first = diff1;
        second = difference d f (deserialize_iblt f resp.iblt) zs;
        in_block = [];
        not_in_block = [];
      }))

  -- By what ReconstructRecoveryBlock gave.
  unfoldable pub conclude :
      RecoveryResponse → GrapheneState I → DecodeStatus × List ℕ → Option Recovered
  unfolding recover_with
  conclude resp state (success, zs) =
      some (if xor_all zs == resp.tx_checksum then recovered zs else aborted)
  conclude resp state (status, zs) = recover_with resp state.tx_count zs state.diff1

  unfoldable pub process_recovery_response : RecoveryResponse → GrapheneState I → Option Recovered
  unfolding reconstruct_recovery_block conclude
  process_recovery_response resp state =
      conclude resp state (reconstruct_recovery_block resp state.candidate_ids)
