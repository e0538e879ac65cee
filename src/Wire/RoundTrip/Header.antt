-- ===== src/Wire/RoundTrip/Header.antt =====
-- GhostDagFrameHeader: Serialize and Deserialize.
use ghostdagsim.Common.{◌%◌, ◌^◌, ◌<◌, ◌≡◌, refl, arith, ◌++◌, length, take-append}
use ghostdagsim.Wire.Frame.{Bytes, FrameHeader, serialize, deserialize}
use ghostdagsim.Wire.RoundTrip.{take_all, word-word_bytes}

-- Whatever follows it, a header of numbers of 32 bits and with a payload of fewer than 2 ^ 32 bytes is
-- read back as it was written.
pub deserialize-serialize :
    (h : FrameHeader) (rest : Bytes)
    → h.frame_len < 2 ^ 32
    → h.seq < 2 ^ 32
    → length h.payload < 2 ^ 32
    → deserialize (serialize h ++ rest) ≡ h
unfolding serialize deserialize
deserialize-serialize h rest l s p =
    let small : length h.payload % 2 ^ 32 ≡ length h.payload = omega arith in
    let a = word-word_bytes h.frame_len l in
    let b = word-word_bytes h.seq s in
    let c = word-word_bytes (length h.payload) p in
    rw (small, take_all h.payload, a, b, c, take-append h.payload rest) refl
