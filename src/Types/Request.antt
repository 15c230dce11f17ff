-- ===== src/Types/Request.antt =====
-- src/types/mod.rs: requests, their methods and parameters.
use electrum_sdk.Base.{ℕ, String, List, [], ◌∷◌, Bool}
use electrum_sdk.External.{External, Bytes}
use electrum_sdk.Types.Hash.{ScriptHash, deref}
use electrum_sdk.Types.Method.{Method}

pub data Param : Type 0 where
  u8 u32 usize : ℕ → Param
  string : String → Param
  bool : Bool → Param
  bytes : Bytes → Param

pub data Request (x : External) : Type 0 where
  get_block_header : (height : ℕ) → Request x
  get_block_headers : (start_height count : ℕ) → Request x
  block_header_subscribe : Request x
  script_subscribe : ScriptHash → Request x
  script_unsubscribe : ScriptHash → Request x
  estimate_fee : (blocks : ℕ) → Request x
  broadcast_tx : x.Transaction → Request x
  get_transaction : x.Txid → Request x
  get_balance : ScriptHash → Request x
  get_history : ScriptHash → Request x
  features : Request x
  version : (name : String) → (version : x.F32) → Request x
  ping : Request x

module _ {x : External} where
  unfoldable pub method : Request x → Method
  method (get_block_header height) = Method.get_block_header
  method (get_block_headers start_height count) = Method.get_block_headers
  method block_header_subscribe = Method.block_header_subscribe
  method (script_subscribe hash) = Method.script_subscribe
  method (script_unsubscribe hash) = Method.script_unsubscribe
  method (estimate_fee blocks) = Method.estimate_fee
  method (broadcast_tx tx) = Method.broadcast_tx
  method (get_transaction txid) = Method.get_transaction
  method (get_balance hash) = Method.get_balance
  method (get_history hash) = Method.get_history
  method features = Method.features
  method (version name number) = Method.version
  method ping = Method.ping

  unfoldable pub params : Request x → List Param
  unfolding deref
  params (get_block_header height) = usize height ∷ []
  params (get_block_headers start_height count) = usize start_height ∷ usize count ∷ []
  params block_header_subscribe = []
  params (script_subscribe hash) = string (x.to_hex (deref hash)) ∷ []
  params (script_unsubscribe hash) = string (x.to_hex (deref hash)) ∷ []
  params (get_balance hash) = string (x.to_hex (deref hash)) ∷ []
  params (get_history hash) = string (x.to_hex (deref hash)) ∷ []
  params (estimate_fee blocks) = u8 blocks ∷ []
  params (broadcast_tx tx) = bytes (x.serialize_tx tx) ∷ []
  params (get_transaction txid) = string (x.txid_to_string txid) ∷ []
  params (version name number) = string name ∷ string (x.f32_to_string number) ∷ []
  params features = []
  params ping = []
