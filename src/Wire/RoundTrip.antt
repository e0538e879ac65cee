-- ===== src/Wire/RoundTrip.antt =====
-- What EnqueueFrame writes, HandleRead hands out.
pub mod Header
use ghostdagsim.Common.{
  ℕ, suc, zero, ◌+◌, ◌-◌, ◌*◌, ◌%◌, ◌/◌, ◌^◌, ◌<◌, ◌≤◌, ◌≡◌, refl, ap, ap₂, ◌∙◌, [], ◌∷◌, ◌++◌,
  Option, none, some, length, take, arith, length-append, length-replicate,
}
use ghostdagsim.Wire.Frame.{Bytes, Packet, plain, bytes, prefix_bytes}
use ghostdagsim.Wire.Send.{zeros}
use ghostdagsim.Wire.Receive.{
  RxFrameState, fresh_rx, received, and_then, read_prefix, finish, last_tag, resume,
}
use ghostdagsim.Wire.Receive.Bytewise.{run, run-append, deliver_nil}
use ghostdagsim.Wire.Receive.Runs.{prefix_full, payload_run, body_full}

-- Between two frames.
abbrev pub idle : ℕ → RxFrameState
idle n = record fresh_rx { next_seq = n }

pub bytes-plain : (bs : Bytes) → bytes (plain bs) ≡ bs
bytes-plain [] = refl
bytes-plain (b ∷ bs) = ap (◌∷◌ b) (bytes-plain bs)

pub length-plain : (bs : Bytes) → length (plain bs) ≡ length bs
length-plain [] = refl
length-plain (b ∷ bs) = ap suc (length-plain bs)

pub take_all : (bs : Bytes) → take (length bs) bs ≡ bs
take_all [] = refl
take_all (b ∷ bs) = ap (◌∷◌ b) (take_all bs)

-- The state behind a prefix.
abbrev pub opened : ℕ → ℕ → ℕ → RxFrameState
opened n len payload_len = record {
  prefix = prefix_bytes len payload_len n;
  frame_len = len;
  payload_len = payload_len;
  body_remaining = len - 16;
  next_seq = (n + 1) % 2 ^ 32;
  payload = [];
}

pub word-word_bytes :
    (w : ℕ)
    → w < 2 ^ 32
    → w % 256 + w / 256 % 256 * 256 + w / 65536 % 256 * 65536 + w / 16777216 % 256 * 16777216 ≡ w
word-word_bytes w h = omega arith

read_prefix-prefix_bytes :
    (n len payload_len : ℕ)
    → n < 2 ^ 32
    → len < 2 ^ 32
    → 16 < len
    → payload_len ≤ len - 16
    → read_prefix (record (idle n) { prefix = prefix_bytes len payload_len n })
      ≡ some (opened n len payload_len)
unfolding read_prefix
read_prefix-prefix_bytes n len payload_len hn hl h hp =
    let a = word-word_bytes n hn in
    let b = word-word_bytes len hl in
    let c = word-word_bytes payload_len (omega arith) in rw (a, b, c) (ground arith)

pub run-prefix :
    (n len payload_len : ℕ) (rest : Packet)
    → n < 2 ^ 32
    → len < 2 ^ 32
    → 16 < len
    → payload_len ≤ len - 16
    → run (idle n) (plain (prefix_bytes len payload_len n) ++ rest)
      ≡ run (opened n len payload_len) rest
run-prefix n len payload_len rest hn hl h hp =
    run-append (idle n) (plain (prefix_bytes len payload_len n)) rest
    ∙ ap (λ r. and_then r (λ s. run s rest))
        (prefix_full (idle n) (plain (prefix_bytes len payload_len n)) (omega arith) (omega arith)
          ∙ ap (λ o. resume o (λ s. received s []))
              (read_prefix-prefix_bytes n len payload_len hn hl h hp))
    ∙ deliver_nil (run (opened n len payload_len) rest)

pub length-zeros : (k : ℕ) → length (zeros k) ≡ k
length-zeros k = length-replicate k (record { byte = 0; tag = none })

-- An inline payload with padding.
pub run-inline :
    (n len : ℕ) (payload : Bytes)
    → n < 2 ^ 32
    → len < 2 ^ 32
    → 0 < length payload
    → length payload + 16 < len
    → run (idle n) (
        plain (prefix_bytes len (length payload) n)
        ++ (plain payload ++ zeros (len - (16 + length payload))))
      ≡ received (idle ((n + 1) % 2 ^ 32)) (record { payload = payload; wire_bytes = len } ∷ [])
unfolding finish
run-inline n len payload hn hl pos h =
    let st : RxFrameState = opened n len (length payload) in
    let left : ℕ = len - (16 + length payload) in
    let st' : RxFrameState = record st { payload = payload; body_remaining = left } in
    run-prefix n len (length payload) (plain payload ++ zeros left) hn hl (omega arith)
      (omega arith)
    ∙ run-append st (plain payload) (zeros left)
    ∙ ap (λ r. and_then r (λ s. run s (zeros left)))
        (payload_run st (plain payload) refl (omega (arith, length-plain payload))
          ∙ ap₂ (λ p k. received (record st { payload = p; body_remaining = k }) [])
              (bytes-plain payload) (omega (arith, length-plain payload)))
    ∙ deliver_nil (run st' (zeros left))
    ∙ body_full st' none (zeros left) refl (omega arith) (length-zeros left) (omega arith)
    ∙ ap (received (idle ((n + 1) % 2 ^ 32))) (ground arith)

last_tag-zeros :
    (k : ℕ) (l t : Option Bytes) → last_tag l (zeros k ++ (record { byte = 0; tag = t } ∷ [])) ≡ t
last_tag-zeros zero l t = refl
last_tag-zeros (suc k) l t = last_tag-zeros k none t

-- A payload in the tag of the last byte.
pub run-tagged :
    (n len : ℕ) (payload : Bytes)
    → n < 2 ^ 32
    → len < 2 ^ 32
    → 16 < len
    → run (idle n) (
        plain (prefix_bytes len 0 n)
        ++ (zeros (len - 1 - 16) ++ (record { byte = 0; tag = some payload } ∷ [])))
      ≡ received (idle ((n + 1) % 2 ^ 32)) (record { payload = payload; wire_bytes = len } ∷ [])
unfolding finish
run-tagged n len payload hn hl h =
    let st : RxFrameState = opened n len 0 in
    let body : Packet = zeros (len - 1 - 16) ++ (record { byte = 0; tag = some payload } ∷ []) in
    let size : length body ≡ len - 16 =
      length-append (zeros (len - 1 - 16)) (record { byte = 0; tag = some payload } ∷ [])
      ∙ omega (arith, length-zeros (len - 1 - 16)) in
    run-prefix n len 0 body hn hl h (omega arith)
    ∙ body_full st none body refl (omega arith) size (omega arith)
    ∙ ap
        (λ t.
          received (idle ((n + 1) % 2 ^ 32))
            (elim t [ none ↦ [] | some p ↦ record { payload = p; wire_bytes = len } ∷ [] ]))
        (last_tag-zeros (len - 1 - 16) none (some payload))
