-- ===== src/Wire/Frame.antt =====
-- Packets, the frame header and its encoding. A packet of ns-3 is the list of its bytes, each with
-- the payload tag that it carries, if any; tags stay with their bytes when a packet is split.
use ghostdagsim.Common.{
  ℕ, ◌+◌, ◌*◌, ◌/◌, ◌%◌, ◌^◌, List, [], ◌∷◌, ◌++◌, Option, none, length, get_or, take, drop, map,
}

abbrev pub Bytes : Type 0
Bytes = List ℕ

pub record Cell : Type 0 where
  pub byte : ℕ
  pub tag : Option Bytes

abbrev pub Packet : Type 0
Packet = List Cell

-- Bytes without tags.
abbrev pub plain : Bytes → Packet
plain = map λ b. record { byte = b; tag = none }

abbrev pub bytes : Packet → Bytes
bytes = map λ c. c.byte

abbrev pub frame_magic : ℕ
frame_magic = 0x47444147

abbrev pub frame_prefix_size : ℕ
frame_prefix_size = 16

-- WriteHtolsbU32, and the memcpy of a uint32_t on a machine with the low byte first
abbrev pub word_bytes : ℕ → Bytes
word_bytes w = w % 256 ∷ (w / 256 % 256) ∷ (w / 65536 % 256) ∷ (w / 16777216 % 256) ∷ []

abbrev pub word_at : Bytes → ℕ → ℕ
word_at bs i =
    get_or bs i 0
    + get_or bs (i + 1) 0 * 256
    + get_or bs (i + 2) 0 * 65536
    + get_or bs (i + 3) 0 * 16777216

pub record FrameHeader : Type 0 where
  pub frame_len : ℕ
  pub seq : ℕ
  pub payload : Bytes

abbrev pub serialized_size : FrameHeader → ℕ
serialized_size h = (frame_prefix_size + length h.payload % 2 ^ 32) % 2 ^ 32

-- The first 16 bytes.
abbrev pub prefix_bytes : ℕ → ℕ → ℕ → Bytes
prefix_bytes frame_len payload_len seq =
    word_bytes frame_magic ++ word_bytes frame_len ++ word_bytes payload_len ++ word_bytes seq

unfoldable pub serialize : FrameHeader → Bytes
serialize h =
    prefix_bytes h.frame_len (length h.payload % 2 ^ 32) h.seq
    ++ take (length h.payload % 2 ^ 32) h.payload

-- Bytes that are not there abort the simulator; here a number reads them as 0, and a payload ends.
unfoldable pub deserialize : Bytes → FrameHeader
deserialize bs = record {
  frame_len = word_at bs 4;
  seq = word_at bs 12;
  payload = take (word_at bs 8) (drop 16 bs);
}
