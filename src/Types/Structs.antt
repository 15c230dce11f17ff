-- ===== src/Types/Structs.antt =====
-- src/types/mod.rs: the structures that the server's answers are read into, and how.
-- A derived `Deserialize` reads the fields in the order of declaration; where several fields are
-- wrong, serde may report another of them.
use electrum_sdk.Base.{
  ℕ, String, List, [], ◌∷◌, Option, none, some, Result, ok, err, map_err, ◌>>=◌, traverse,
  get_elem?, if◌then◌else◌,
}
use electrum_sdk.External.{External, Bytes, ℤ}
use electrum_sdk.Types.Hash.{Hex32Bytes, ScriptHash, ScriptStatus}

pub record GetHistoryRes (x : External) : Type 0 where
  pub height : ℤ
  pub tx_hash : x.Txid
  pub fee : Option ℕ

pub record ListUnspentRes (x : External) : Type 0 where
  pub height : ℕ
  pub tx_hash : x.Txid
  pub tx_pos : ℕ
  pub value : ℕ

pub record ServerFeaturesRes : Type 0 where
  pub server_version : String
  pub genesis_hash : Bytes
  pub protocol_min : String
  pub protocol_max : String
  pub hash_function : Option String
  pub pruning : Option ℤ

pub record GetHeadersRes (x : External) : Type 0 where
  pub max : ℕ
  pub count : ℕ
  pub raw_headers : Bytes
  pub headers : List x.BlockHeader

pub record GetBalanceRes : Type 0 where
  pub confirmed : ℕ
  pub unconfirmed : ℤ

pub record GetMerkleRes : Type 0 where
  pub block_height : ℕ
  pub pos : ℕ
  pub merkle : List Bytes

pub record HeaderNotification (x : External) : Type 0 where
  pub height : ℕ
  pub header : x.BlockHeader

pub record RawHeaderNotification : Type 0 where
  pub height : ℕ
  pub header : Bytes

pub record ScriptNotification : Type 0 where
  pub scripthash : ScriptHash
  pub status : ScriptStatus

module _ (x : External) where
  open x use {
    Value, JsonError, HexError, read_string, read_array, missing_field, custom_hex, custom_encode,
    is_null, visit_struct,
  }

  -- A field that must be there, and one of type `Option`.
  abbrev pub required {ℓ} :
      {A : Type ℓ}
      → (Value → Result A JsonError)
      → String
      → Option (Option Value)
      → Result A JsonError
  required read name (some (some v)) = read v
  required read name _ = err (missing_field name)

  abbrev pub optional {ℓ} :
      {A : Type ℓ}
      → (Value → Result A JsonError)
      → Option (Option Value)
      → Result (Option A) JsonError
  optional read (some (some v)) = if is_null v then ok none else read v >>= λ a. ok (some a)
  optional read _ = ok none

  -- `from_hex`, over the `FromHex` of the type.
  unfoldable pub from_hex {ℓ} :
      {T : Type ℓ} → (String → Result T HexError) → Value → Result T JsonError
  from_hex read v = do s ← read_string v; map_err custom_hex (read s)

  unfoldable pub from_hex_array {ℓ} :
      {T : Type ℓ} → (String → Result T HexError) → Value → Result (List T) JsonError
  from_hex_array read v = do
    values ← read_array v
    arr ← traverse read_string values
    traverse (λ s. map_err custom_hex (read s)) arr

  unfoldable pub from_hex_header : Value → Result x.BlockHeader JsonError
  unfolding from_hex
  from_hex_header v = do
    bytes ← from_hex x.vec_from_hex v
    map_err custom_encode (x.deserialize_header bytes)

  unfoldable pub read_hash : Value → Result Hex32Bytes JsonError
  unfolding from_hex
  read_hash v = from_hex x.array_from_hex v >>= λ b. ok (record { bytes = b })

  unfoldable pub read_history_res : Value → Result (GetHistoryRes x) JsonError
  read_history_res v = do
    fs ← visit_struct ("height" ∷ "tx_hash" ∷ "fee" ∷ []) v
    height ← required x.read_i32 "height" (get_elem? fs 0)
    tx_hash ← required x.read_txid "tx_hash" (get_elem? fs 1)
    fee ← optional x.read_u64 (get_elem? fs 2)
    ok (record { height = height; tx_hash = tx_hash; fee = fee })

  unfoldable pub read_unspent_res : Value → Result (ListUnspentRes x) JsonError
  read_unspent_res v = do
    fs ← visit_struct ("height" ∷ "tx_hash" ∷ "tx_pos" ∷ "value" ∷ []) v
    height ← required x.read_usize "height" (get_elem? fs 0)
    tx_hash ← required x.read_txid "tx_hash" (get_elem? fs 1)
    tx_pos ← required x.read_usize "tx_pos" (get_elem? fs 2)
    value ← required x.read_u64 "value" (get_elem? fs 3)
    ok (record { height = height; tx_hash = tx_hash; tx_pos = tx_pos; value = value })

  unfoldable pub read_features_res : Value → Result ServerFeaturesRes JsonError
  unfolding from_hex
  read_features_res v = do
    fs ←
        visit_struct
          ("server_version" ∷ "genesis_hash" ∷ "protocol_min" ∷ "protocol_max" ∷ "hash_function"
            ∷ "pruning" ∷ [])
          v
    server_version ← required read_string "server_version" (get_elem? fs 0)
    genesis_hash ← required (from_hex x.array_from_hex) "genesis_hash" (get_elem? fs 1)
    protocol_min ← required read_string "protocol_min" (get_elem? fs 2)
    protocol_max ← required read_string "protocol_max" (get_elem? fs 3)
    hash_function ← optional read_string (get_elem? fs 4)
    pruning ← optional x.read_i64 (get_elem? fs 5)
    ok (record {
      server_version = server_version;
      genesis_hash = genesis_hash;
      protocol_min = protocol_min;
      protocol_max = protocol_max;
      hash_function = hash_function;
      pruning = pruning;
    })

  -- `headers` is skipped: it starts empty.
  unfoldable pub read_headers_res : Value → Result (GetHeadersRes x) JsonError
  unfolding from_hex
  read_headers_res v = do
    fs ← visit_struct ("max" ∷ "count" ∷ "hex" ∷ []) v
    max ← required x.read_usize "max" (get_elem? fs 0)
    count ← required x.read_usize "count" (get_elem? fs 1)
    raw_headers ← required (from_hex x.vec_from_hex) "hex" (get_elem? fs 2)
    ok (record { max = max; count = count; raw_headers = raw_headers; headers = [] })

  unfoldable pub read_balance_res : Value → Result GetBalanceRes JsonError
  read_balance_res v = do
    fs ← visit_struct ("confirmed" ∷ "unconfirmed" ∷ []) v
    confirmed ← required x.read_u64 "confirmed" (get_elem? fs 0)
    unconfirmed ← required x.read_i64 "unconfirmed" (get_elem? fs 1)
    ok (record { confirmed = confirmed; unconfirmed = unconfirmed })

  unfoldable pub read_merkle_res : Value → Result GetMerkleRes JsonError
  unfolding from_hex_array
  read_merkle_res v = do
    fs ← visit_struct ("block_height" ∷ "pos" ∷ "merkle" ∷ []) v
    block_height ← required x.read_usize "block_height" (get_elem? fs 0)
    pos ← required x.read_usize "pos" (get_elem? fs 1)
    merkle ← required (from_hex_array x.array_from_hex) "merkle" (get_elem? fs 2)
    ok (record { block_height = block_height; pos = pos; merkle = merkle })

  unfoldable pub read_header_notification : Value → Result (HeaderNotification x) JsonError
  unfolding from_hex_header
  read_header_notification v = do
    fs ← visit_struct ("height" ∷ "hex" ∷ []) v
    height ← required x.read_u32 "height" (get_elem? fs 0)
    header ← required from_hex_header "hex" (get_elem? fs 1)
    ok (record { height = height; header = header })

  unfoldable pub read_raw_header_notification : Value → Result RawHeaderNotification JsonError
  unfolding from_hex
  read_raw_header_notification v = do
    fs ← visit_struct ("height" ∷ "hex" ∷ []) v
    height ← required x.read_u32 "height" (get_elem? fs 0)
    header ← required (from_hex x.vec_from_hex) "hex" (get_elem? fs 1)
    ok (record { height = height; header = header })

  unfoldable pub read_script_notification : Value → Result ScriptNotification JsonError
  unfolding read_hash
  read_script_notification v = do
    fs ← visit_struct ("scripthash" ∷ "status" ∷ []) v
    scripthash ← required read_hash "scripthash" (get_elem? fs 0)
    status ← required read_hash "status" (get_elem? fs 1)
    ok (record { scripthash = scripthash; status = status })
