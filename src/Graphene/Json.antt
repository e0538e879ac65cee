-- ===== src/Graphene/Json.antt =====
-- The JSON objects of the Graphene messages, and of the filters in them.
pub mod RoundTrip
use ghostdagsim.Common.{ℕ, ◌%◌, ◌^◌, List, map}
use ghostdagsim.Graphene.Filters.{Entry, Filters}
use ghostdagsim.Graphene.Hex.{u64_to_vec, hex_encode, hex_decode, hex_decode_u64}

pub record BloomJson : Type 0 where
  pub table_size : ℕ
  pub salt_count : ℕ
  pub random_seed : ℕ
  pub bit_table : List ℕ

pub record EntryJson : Type 0 where
  pub count : ℕ
  pub key_sum : List ℕ
  pub key_check : ℕ
  pub value_sum : List ℕ

pub record IbltJson : Type 0 where
  pub value_size : ℕ
  pub num_hashes : ℕ
  pub entries : List EntryJson

-- GRAPHENE_BLOCK
pub record GrapheneBlock : Type 0 where
  pub block_id : ℕ
  pub miner_id : ℕ
  pub time_created : ℕ
  pub parent_hashes : List ℕ
  pub tx_count : ℕ
  pub bloom_filter : BloomJson
  pub iblt : IbltJson
  pub tx_checksum : ℕ
  pub fpr : ℕ

-- GRAPHENE_RECOVERY_REQUEST
pub record RecoveryRequest : Type 0 where
  pub block_id : ℕ
  pub b : ℕ
  pub y_star : ℕ
  pub receiver_bloom : BloomJson

-- GRAPHENE_RECOVERY_RESPONSE
pub record RecoveryResponse : Type 0 where
  pub block_id : ℕ
  pub tx_checksum : ℕ
  pub iblt : IbltJson
  pub missing : List ℕ

unfoldable pub serialize_entry : Entry → EntryJson
serialize_entry e = record {
  count = e.count;
  key_sum = hex_encode (u64_to_vec e.key_sum);
  key_check = e.key_check;
  value_sum = hex_encode e.value_sum;
}

unfoldable pub deserialize_entry : EntryJson → Entry
deserialize_entry j = record {
  count = j.count;
  key_sum = hex_decode_u64 j.key_sum;
  key_check = j.key_check % 2 ^ 32;
  value_sum = hex_decode j.value_sum;
}

module _ {B I : Type 0} (f : Filters B I) where
  unfoldable pub serialize_bloom_filter : B → BloomJson
  serialize_bloom_filter bf = record {
    table_size = f.size bf;
    salt_count = f.hash_count bf % 2 ^ 32;
    random_seed = f.random_seed bf;
    bit_table = hex_encode (f.bit_table bf);
  }

  unfoldable pub deserialize_bloom_filter : BloomJson → B
  deserialize_bloom_filter j =
      f.bloom_of j.table_size (j.salt_count % 2 ^ 32) j.random_seed (hex_decode j.bit_table)

  unfoldable pub serialize_iblt : I → IbltJson
  unfolding serialize_entry
  serialize_iblt i = record {
    value_size = f.value_size i;
    num_hashes = f.num_hashes i;
    entries = map serialize_entry (f.hash_table i);
  }

  unfoldable pub deserialize_iblt : IbltJson → I
  unfolding deserialize_entry
  deserialize_iblt j = f.iblt_of j.value_size j.num_hashes (map deserialize_entry j.entries)
