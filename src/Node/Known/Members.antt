-- ===== src/Node/Known/Members.antt =====
-- TxIdSet as a set of transaction ids.
use ghostdagsim.Common.{
  ℕ, zero, suc, ◌+◌, ◌-◌, ◌*◌, ◌/◌, ◌%◌, ◌^◌, ◌<◌, ◌≤◌, ◌≡◌, refl, sym, arith, max, Bool, ◌&&◌,
  ◌||◌, List, [], ◌++◌, ◌∷◌, length, get_or, set, replicate, take, if◌then◌else◌, leb, ltb, false,
  ◌==◌, get_or_beyond, get_or-replicate, length-append, length-replicate, get_or-set_self,
  get_or-set_ne, ap, ap₂, ◌∙◌, eq_of_==, ==-refl, false≢true, Bool-cases, inl, inr,
}
use ghostdagsim.Common.Bits.{bit-shift, bit-zero}
use ghostdagsim.BitSet.Words.{digit}
use ghostdagsim.BitSet.Update.{with_bit, digit-with_bit}
use ghostdagsim.Node.Known.{TxIdSet, id_from_tx_id, sequence, knows, learn}

get_or-append-replicate {ℓ} :
    {A : Type ℓ} (xs : List A) (m i : ℕ) (d : A) → get_or (xs ++ replicate m d) i d ≡ get_or xs i d
get_or-append-replicate [] m i d = get_or-replicate m i d
get_or-append-replicate (x ∷ xs) m zero d = refl
get_or-append-replicate (x ∷ xs) m (suc i) d = get_or-append-replicate xs m i d

-- The sequence numbers of one node.
holds : List ℕ → ℕ → Bool
holds v seq = digit v (seq / 64) (seq % 64) == 1

abbrev grow : List ℕ → ℕ → List ℕ
grow v w = if leb (length v) w then v ++ replicate (max (w + 1) (length v * 2) - length v) 0 else v

holds-learnt :
    (v : List ℕ) (seq q : ℕ)
    → holds (with_bit (grow v (seq / 64)) seq) q ≡ ((seq == q) || holds v q)
unfolding holds
holds-learnt v seq q =
    let w : ℕ = seq / 64 in
    let z : ℕ = 0 in
    let more : ℕ = max (w + 1) (length v * 2) - length v in
    ground (
      arith,
      digit-with_bit (grow v w) seq q,
      length-append v (replicate more z),
      length-replicate more z,
      get_or-append-replicate v more (q / 64) z,
    )

holds-word :
    (v : List ℕ) (q : ℕ)
    → holds v q ≡ (ltb (q / 64) (length v) && (get_or v (q / 64) 0 / 2 ^ (q % 64) % 2 == 1))
unfolding holds
holds-word v q =
    ground (
      arith,
      bit-shift (get_or v (q / 64) 0) (q % 64),
      get_or_beyond v (q / 64) 0,
      bit-zero (q % 64),
    )

holds-empty : (q : ℕ) → holds [] q ≡ false
holds-empty q = holds-word [] q ∙ ground arith

row : TxIdSet → ℕ → List ℕ
row s node = get_or s.bits node []

knows-holds : (s : TxIdSet) (t : ℕ) → knows s t ≡ holds (row s (id_from_tx_id t)) (sequence t)
unfolding knows holds row
knows-holds s t = elim (Bool-cases (leb (length s.bits) (id_from_tx_id t))) [
  | inl e ↦
      let empty : row s (id_from_tx_id t) ≡ [] =
        get_or_beyond s.bits (id_from_tx_id t) [] (ground arith) in
      rw e (sym (ap (λ v. holds v (sequence t)) empty ∙ holds-empty (sequence t)))
  | inr e ↦ rw e (sym (holds-word (get_or s.bits (id_from_tx_id t) []) (sequence t)))
]

all_rows : TxIdSet → ℕ → List (List ℕ)
all_rows s node =
    let n : ℕ = (node + 1) % 2 ^ 32 in
    if leb (length s.bits) node then take n s.bits ++ replicate (n - length s.bits) [] else s.bits

take_beyond {ℓ} : {A : Type ℓ} (n : ℕ) (xs : List A) → length xs ≤ n → take n xs ≡ xs
take_beyond zero [] h = refl
take_beyond (suc n) [] h = refl
take_beyond zero (x ∷ xs) h = absurd (omega arith)
take_beyond (suc n) (x ∷ xs) h = ap (◌∷◌ x) (take_beyond n xs (omega arith))

-- Where the number of rows does not wrap, they are resized to one more than the node's number.
all_rows_lem :
    (s : TxIdSet) (node : ℕ)
    → node + 1 < 2 ^ 32
    → all_rows s node ≡ (
        if leb (length s.bits) node
        then s.bits ++ replicate (node + 1 - length s.bits) []
        else s.bits)
unfolding all_rows
all_rows_lem s node h = elim (Bool-cases (leb (length s.bits) node)) [
  | inl e ↦
      let small : (node + 1) % 2 ^ 32 ≡ node + 1 = omega arith in
      let kept = take_beyond (node + 1) s.bits (ground arith) in rw (e, small, kept) refl
  | inr e ↦ rw e refl
]

length-all_rows : (s : TxIdSet) (node : ℕ) → node + 1 < 2 ^ 32 → node < length (all_rows s node)
length-all_rows s node h =
    let e : List ℕ = [] in
    rw (all_rows_lem s node h) (
      ground (
        arith,
        length-append s.bits (replicate (node + 1 - length s.bits) e),
        length-replicate (node + 1 - length s.bits) e,
      ))

row-all_rows :
    (s : TxIdSet) (node n : ℕ)
    → node + 1 < 2 ^ 32
    → get_or (all_rows s node) n [] ≡ get_or s.bits n []
row-all_rows s node n h = rw (all_rows_lem s node h) (elim (Bool-cases (leb (length s.bits) node)) [
  | inl e ↦ rw e (get_or-append-replicate s.bits (node + 1 - length s.bits) n [])
  | inr e ↦ rw e refl
])

row-set :
    (rows : List (List ℕ)) (i n : ℕ) (v : List ℕ)
    → i < length rows
    → get_or (set rows i v) n [] ≡ (if i == n then v else get_or rows n [])
row-set rows i n v h = elim (Bool-cases (i == n)) [
  | inl e ↦ rw e (rw (← (eq_of_== i n e)) (get_or-set_self rows i v [] h))
  | inr e ↦
      rw e (
        get_or-set_ne rows i n v []
          (λ p. false≢true (sym e ∙ ap (λ t. i == t) (sym p) ∙ ==-refl i)))
]

learn-row :
    (s : TxIdSet) (t node : ℕ)
    → id_from_tx_id t + 1 < 2 ^ 32
    → row (learn s t) node ≡ (
        if id_from_tx_id t == node
        then with_bit (grow (row s (id_from_tx_id t)) (sequence t / 64)) (sequence t)
        else row s node)
unfolding learn row all_rows
learn-row s t node h =
    let i : ℕ = id_from_tx_id t in
    row-set (all_rows s i) i node _ (length-all_rows s i h)
    ∙ ap₂
        (λ (v : List ℕ) (old : List ℕ).
          if i == node then with_bit (grow v (sequence t / 64)) (sequence t) else old)
        (row-all_rows s i i h) (row-all_rows s i node h)

same_id :
    (a b : ℕ)
    → a < 2 ^ 64
    → b < 2 ^ 64
    → ((id_from_tx_id a == id_from_tx_id b) && (sequence a == sequence b)) ≡ (a == b)
same_id a b p q = ground arith

-- For ids of 64 bits, `insert` adds the id, and no other, where the number of the id's node is not the
-- last of 32 bits.
pub knows-learn :
    (s : TxIdSet) (a b : ℕ)
    → a < 2 ^ 64 - 2 ^ 32
    → b < 2 ^ 64
    → knows (learn s a) b ≡ ((a == b) || knows s b)
knows-learn s a b p q =
    knows-holds (learn s a) b
    ∙ ap (λ v. holds v (sequence b)) (learn-row s a (id_from_tx_id b) (omega arith))
    ∙ ground (
      arith,
      holds-learnt (row s (id_from_tx_id a)) (sequence a) (sequence b),
      knows-holds s b,
      same_id a b (omega arith) q,
    )
