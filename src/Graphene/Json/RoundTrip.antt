-- ===== src/Graphene/Json/RoundTrip.antt =====
-- Filters that were sent are what arrives: SerializeBloomFilter, SerializeIBLT and their inverses.
use ghostdagsim.Common.{ℕ, ◌%◌, ◌^◌, ◌<◌, ◌≡◌, refl, ap, ap₂, ◌∙◌, arith, List, [], ◌∷◌, All, map}
use ghostdagsim.Graphene.Filters.{Entry, Filters}
use ghostdagsim.Graphene.Hex.RoundTrip.{AreBytes, hex_decode-hex_encode, hex_decode_u64-hex_encode}
use ghostdagsim.Graphene.Hex.{hex_decode, hex_encode}
use ghostdagsim.Graphene.Json.{
  serialize_entry, deserialize_entry, serialize_bloom_filter, deserialize_bloom_filter,
  serialize_iblt, deserialize_iblt,
}

-- An entry with numbers of 64 and 32 bits and a value of bytes.
pub record IsEntry (e : Entry) : Type 0 where
  pub key_sum : e.key_sum < 2 ^ 64
  pub key_check : e.key_check < 2 ^ 32
  pub value_sum : AreBytes e.value_sum

deserialize_entry-serialize_entry :
    (e : Entry) → IsEntry e → deserialize_entry (serialize_entry e) ≡ e
unfolding deserialize_entry serialize_entry
deserialize_entry-serialize_entry e h =
    let key = hex_decode_u64-hex_encode e.key_sum h.key_sum in
    let check : e.key_check % 2 ^ 32 ≡ e.key_check = let k = h.key_check in omega arith in
    let value = hex_decode-hex_encode e.value_sum h.value_sum in
    ap
      (λ (k : ℕ). record {
        count = e.count;
        key_sum = k;
        key_check = e.key_check % 2 ^ 32;
        value_sum = hex_decode (hex_encode e.value_sum);
      })
      key
    ∙ ap
        (λ (k : ℕ). record {
          count = e.count;
          key_sum = e.key_sum;
          key_check = k;
          value_sum = hex_decode (hex_encode e.value_sum);
        })
        check
    ∙ ap
        (λ (v : List ℕ). record {
          count = e.count;
          key_sum = e.key_sum;
          key_check = e.key_check;
          value_sum = v;
        })
        value

entries_read_back :
    (es : List Entry) → All IsEntry es → map deserialize_entry (map serialize_entry es) ≡ es
entries_read_back [] h = refl
entries_read_back (e ∷ es) h =
    ap₂ ◌∷◌ (deserialize_entry-serialize_entry e h.0) (entries_read_back es h.1)

module _ {B I : Type 0} (f : Filters B I) where
  -- A table whose constructor gives back what its parts say, with entries that fit.
  pub record IsTable (i : I) : Type 0 where
    pub entries : All IsEntry (f.hash_table i)
    pub rebuilt : f.iblt_of (f.value_size i) (f.num_hashes i) (f.hash_table i) ≡ i

  pub record IsFilter (b : B) : Type 0 where
    pub bytes : AreBytes (f.bit_table b)
    pub hash_count : f.hash_count b < 2 ^ 32
    pub rebuilt : f.bloom_of (f.size b) (f.hash_count b) (f.random_seed b) (f.bit_table b) ≡ b

  -- A table whose keys are of 64 bits, checks of 32 bits and values of bytes, and that is the table
  -- of its own parts, is read back from its JSON object.
  pub deserialize_iblt-serialize_iblt :
      (i : I) → IsTable i → deserialize_iblt f (serialize_iblt f i) ≡ i
  unfolding deserialize_iblt serialize_iblt
  deserialize_iblt-serialize_iblt i h =
      ap (f.iblt_of (f.value_size i) (f.num_hashes i))
        (entries_read_back (f.hash_table i) h.entries)
      ∙ h.rebuilt

  -- A filter of bytes with fewer than 2^32 hash functions that is the filter of its own parts is
  -- read back from its JSON object.
  pub deserialize_bloom_filter-serialize_bloom_filter :
      (b : B) → IsFilter b → deserialize_bloom_filter f (serialize_bloom_filter f b) ≡ b
  unfolding deserialize_bloom_filter serialize_bloom_filter
  deserialize_bloom_filter-serialize_bloom_filter b h =
      let count : f.hash_count b % 2 ^ 32 % 2 ^ 32 ≡ f.hash_count b =
        let k = h.hash_count in omega arith in
      ap₂ (λ n t. f.bloom_of (f.size b) n (f.random_seed b) t) count
        (hex_decode-hex_encode (f.bit_table b) h.bytes)
      ∙ h.rebuilt
