-- ===== src/Wire/Flow.antt =====
-- HandleSendReady: what is written on a socket, and what stays queued.
use ghostdagsim.Common.{
  ℕ, suc, zero, ◌≤◌, ◌≡◌, ◌⊎◌, inl, inr, refl, ap, sym, ◌∙◌, List, [], ◌∷◌, ◌++◌, Option, none,
  some, length, take, drop, leb, ◌==◌, arith, Bool-cases, Option-cases, eq_of_==, length-drop,
  length-take, take-drop, if◌then◌else◌,
}
use mathlib.Core.List.{append_assoc}
use ghostdagsim.Wire.Frame.{Packet}
use ghostdagsim.Wire.Send.{send_loop, rounds_for, concat}

-- A socket of ns-3, with the bytes that were written to it: a packet that fits in its buffer is
-- written whole, or it is refused.
pub record Socket : Type 1 where
  pub S : Type 0
  pub tx_available : S → ℕ
  pub try_send : S → Packet → Option S
  pub written : S → Packet
  pub writes :
      (s s' : S) (p : Packet)
      → length p ≤ tx_available s
      → try_send s p ≡ some s'
      → written s' ≡ written s ++ p

module _ (socket : Socket) where
  open socket use {S, tx_available, try_send, written, writes}

  -- The head of a queue is refused: whole if it fits in the buffer, or else what fits of it.
  pub record Refused (s : S) (queue : List Packet) : Type 0 where
    pub head : Packet
    pub rest : List Packet
    pub queued : queue ≡ head ∷ rest
    pub refused :
        try_send s (if leb (length head) (tx_available s) then head else take (tx_available s) head)
        ≡ none

  -- The loop ended with socket `last` and the queue `left`: the bytes on the socket and in the queue
  -- are the same as before, in this order, and it stopped since the queue was empty, the buffer was
  -- full or the socket refused what it was given.
  pub record Flows (s : S) (queue : List Packet) (r : Option (S × List Packet)) : Type 0 where
    pub last : S
    pub left : List Packet
    pub ended : r ≡ some (last, left)
    pub bytes_kept : written last ++ concat left ≡ written s ++ concat queue
    pub stopped : (left ≡ []) ⊎ ((tx_available last ≡ 0) ⊎ Refused last left)

  whole_kept :
      (s s' : S) (p : Packet) (ps : List Packet)
      → written s' ≡ written s ++ p
      → written s' ++ concat ps ≡ written s ++ concat (p ∷ ps)
  whole_kept s s' p ps w = ap (λ q. q ++ concat ps) w ∙ append_assoc (written s) p (concat ps)

  part_kept :
      (s s' : S) (n : ℕ) (p : Packet) (ps : List Packet)
      → written s' ≡ written s ++ take n p
      → written s' ++ concat (drop n p ∷ ps) ≡ written s ++ concat (p ∷ ps)
  part_kept s s' n p ps w =
      ap (λ q. q ++ concat (drop n p ∷ ps)) w
      ∙ append_assoc (written s) (take n p) (drop n p ++ concat ps)
      ∙ ap (◌++◌ (written s)) (
          sym (append_assoc (take n p) (drop n p) (concat ps))
          ∙ ap (λ q. q ++ concat ps) (take-drop n p))

  -- A queue whose loop stops at once.
  stays :
      (s : S) (queue : List Packet)
      → (queue ≡ []) ⊎ ((tx_available s ≡ 0) ⊎ Refused s queue)
      → Flows s queue (some (s, queue))
  stays s queue h = record { last = s; left = queue; ended = refl; bytes_kept = refl; stopped = h }

  -- A round in which the socket accepted something, and the rounds after it.
  continues :
      (s s' : S) (queue queue' : List Packet) (r : Option (S × List Packet))
      → written s' ++ concat queue' ≡ written s ++ concat queue
      → Flows s' queue' r
      → Flows s queue r
  continues s s' queue queue' r kept f = record {
    last = f.last;
    left = f.left;
    ended = f.ended;
    bytes_kept = f.bytes_kept ∙ kept;
    stopped = f.stopped;
  }

  send_loop-Flows :
      (rounds : ℕ) (s : S) (queue : List Packet)
      → rounds_for queue ≤ rounds
      → Flows s queue (send_loop tx_available try_send rounds s queue)
  unfolding send_loop
  send_loop-Flows zero s [] h = absurd (omega arith)
  send_loop-Flows zero s (p ∷ ps) h = absurd (omega arith)
  send_loop-Flows (suc rounds) s [] h = stays s [] (inl refl)
  send_loop-Flows (suc rounds) s (p ∷ ps) h = elim (Bool-cases (tx_available s == 0)) [
    | inl full ↦ rw full (stays s (p ∷ ps) (inr (inl (eq_of_== _ _ full))))
    | inr free ↦ elim (Bool-cases (leb (length p) (tx_available s))) [
      | inl fits ↦ elim (Option-cases (try_send s p)) [
        | inl refused ↦
            rw (free, fits, refused)
              (stays s (p ∷ ps) (
                inr
                  (inr (record { head = p; rest = ps; queued = refl; refused = rw fits refused }))))
        | inr (s', accepted) ↦
            rw (free, fits, accepted)
              (continues s s' (p ∷ ps) ps _
                (whole_kept s s' p ps (writes s s' p (ground arith) accepted))
                (send_loop-Flows rounds s' ps (omega arith)))
      ]
      | inr long ↦
          let n : ℕ = tx_available s in
          elim (Option-cases (try_send s (take n p))) [
            | inl refused ↦
                rw (free, long, refused)
                  (stays s (p ∷ ps) (
                    inr (
                      inr (record {
                        head = p;
                        rest = ps;
                        queued = refl;
                        refused = rw long refused;
                      }))))
            | inr (s', accepted) ↦
                let short : length (take n p) ≤ n = ground (arith, length-take n p) in
                rw (free, long, accepted)
                  (continues s s' (p ∷ ps) (drop n p ∷ ps) _
                    (part_kept s s' n p ps (writes s s' (take n p) short accepted))
                    (send_loop-Flows rounds s' (drop n p ∷ ps) (ground (arith, length-drop n p))))
          ]
    ]
  ]

  -- Whatever a socket accepts that writes a packet whole or refuses it, HandleSendReady ends within
  -- its rounds; what is written on the socket followed by what is still queued is what was written
  -- before followed by what was queued; and it stops only at an empty queue, a full buffer, or when
  -- the socket refuses the head of the queue or the part of it that fits.
  pub handle_send_ready-Flows :
      (s : S) (queue : List Packet)
      → Flows s queue (send_loop tx_available try_send (rounds_for queue) s queue)
  handle_send_ready-Flows s queue = send_loop-Flows (rounds_for queue) s queue (omega arith)
