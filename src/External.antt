-- ===== src/External.antt =====
-- What the crates outside the repository provide: `bitcoin` (data structures, hex, hashes),
-- `serde` and `serde_json`, `std::time` floats. Each is an abstract type or function; no law is
-- assumed here. A `Value` is a `serde_json::Value`, or the content that serde buffers for it.
use electrum_sdk.Base.{ℕ, String, List, Option, Bool, Result}

-- A signed integer (`i32`, `i64`): `negsuc n` is -(n + 1).
pub data ℤ : Type 0 where
  pos : ℕ → ℤ
  negsuc : ℕ → ℤ

abbrev pub Bytes : Type 0
Bytes = List ℕ

pub record External : Type 1 where
  -- bitcoin
  pub BlockHeader : Type 0
  pub Transaction : Type 0
  pub Txid : Type 0
  pub Script : Type 0
  pub Address : Type 0
  pub HexError : Type 0
  pub EncodeError : Type 0
  -- std::io, std::net
  pub IoError : Type 0
  pub SocketAddr : Type 0
  pub serialize_tx : Transaction → Bytes
  pub deserialize_header : Bytes → Result BlockHeader EncodeError
  pub deserialize_tx : Bytes → Result Transaction EncodeError
  -- `Vec::<u8>::from_hex` and `<[u8; 32]>::from_hex`
  pub vec_from_hex : String → Result Bytes HexError
  pub array_from_hex : String → Result Bytes HexError
  pub to_hex : Bytes → String
  pub txid_to_string : Txid → String
  pub sha256 : Bytes → Bytes
  pub script_as_bytes : Script → Bytes
  pub script_pubkey : Address → Script
  -- floats
  pub F32 : Type 0
  pub F64 : Type 0
  pub f32_to_string : F32 → String
  -- serde, serde_json: reading
  pub Value : Type 0
  pub JsonError : Type 0
  pub parse : String → Result Value JsonError
  pub is_null : Value → Bool
  pub read_bool : Value → Result Bool JsonError
  pub read_string : Value → Result String JsonError
  pub read_u8 : Value → Result ℕ JsonError
  pub read_u32 : Value → Result ℕ JsonError
  pub read_u64 : Value → Result ℕ JsonError
  pub read_usize : Value → Result ℕ JsonError
  pub read_i32 : Value → Result ℤ JsonError
  pub read_i64 : Value → Result ℤ JsonError
  pub read_f64 : Value → Result F64 JsonError
  pub read_txid : Value → Result Txid JsonError
  pub read_array : Value → Result (List Value) JsonError
  -- The fields of these names, from the members of an object or the places of an array. The
  -- variants of an untagged enum are read from an object only.
  pub visit_struct : List String → Value → Result (List (Option Value)) JsonError
  pub visit_map : List String → Value → Result (List (Option Value)) JsonError
  pub missing_field : String → JsonError
  pub no_variant : JsonError
  pub custom : String → JsonError
  pub custom_hex : HexError → JsonError
  pub custom_encode : EncodeError → JsonError
  -- serde, serde_json: writing
  pub null_value : Value
  pub bool_value : Bool → Value
  pub number_value : ℕ → Value
  pub string_value : String → Value
  pub array_value : List Value → Value
  pub object_value : List (String × Value) → Value
  pub value_to_string : Value → String
  pub object_to_vec : List (String × Value) → Result Bytes JsonError
