-- ===== src/Types/Message.antt =====
-- src/types/mod.rs: JSON-RPC messages, their errors, and how they are written and read.
pub mod Readback
pub mod Requests
use electrum_sdk.Base.{
  ℕ, String, List, [], ◌∷◌, ◌++◌, map, Bool, true, false, Option, none, some, Result, ok, err,
  map_err, ◌>>=◌, traverse, get_elem?,
}
use electrum_sdk.External.{External, Bytes}
use electrum_sdk.Types.Hash.{ScriptHash}
use electrum_sdk.Types.Method.{Method, serialize, deserialize}
use electrum_sdk.Types.Request.{Request, Param, u8, u32, usize, string, bool, bytes, method, params}
use electrum_sdk.Types.Structs.{required, optional}

pub data Error (x : External) : Type 0 where
  io : x.IoError → Error x
  json : x.JsonError → Error x
  hex : x.HexError → Error x
  bitcoin : x.EncodeError → Error x
  protocol : x.Value → Error x
  already_subscribed : ScriptHash → Error x
  not_subscribed : ScriptHash → Error x
  invalid_response : x.Value → Error x
  unknown_method : String → Error x
  unexpected_method : Method → Error x
  unexpected_msg : Error x

abbrev pub jsonrpc_2_0 : String
jsonrpc_2_0 = "2.0"

pub data JsonRpcMsg (x : External) : Type 0 where
  request : (id : ℕ) → (jsonrpc : String) → Method → List Param → JsonRpcMsg x
  response : (id : ℕ) → (jsonrpc : String) → (result error : Option x.Value) → JsonRpcMsg x
  notification : (jsonrpc : String) → Method → (params : x.Value) → JsonRpcMsg x

module _ {x : External} where
  -- `JsonRpcMsg::request`
  unfoldable pub compose_request : ℕ → Request x → JsonRpcMsg x
  compose_request id req = request id jsonrpc_2_0 (method req) (params req)

  unfoldable pub id : JsonRpcMsg x → Option ℕ
  id (request n jsonrpc m ps) = some n
  id (response n jsonrpc result error) = some n
  id (notification jsonrpc m ps) = none

  unfoldable pub is_request : JsonRpcMsg x → Bool
  is_request (request n jsonrpc m ps) = true
  is_request _ = false

  unfoldable pub is_response : JsonRpcMsg x → Bool
  is_response (response n jsonrpc result error) = true
  is_response _ = false

  unfoldable pub is_notification : JsonRpcMsg x → Bool
  is_notification (notification jsonrpc m ps) = true
  is_notification _ = false

module _ (x : External) where
  open x use {
    Value, JsonError, number_value, string_value, bool_value, array_value, null_value, no_variant,
    visit_map, read_usize, read_string, read_array,
  }

  -- The derived `Serialize` of an untagged enum: what its variant holds.
  unfoldable pub param_value : Param → Value
  param_value (u8 n) = number_value n
  param_value (u32 n) = number_value n
  param_value (usize n) = number_value n
  param_value (string s) = string_value s
  param_value (bool b) = bool_value b
  param_value (bytes b) = array_value (map number_value b)

  abbrev pub option_value : Option Value → Value
  option_value none = null_value
  option_value (some v) = v

  -- The members of the object that a message is written as, in the order of declaration.
  unfoldable pub members : JsonRpcMsg x → List (String × Value)
  unfolding param_value
  members (request n jsonrpc m ps) =
      ("id", number_value n)
      ∷ ("jsonrpc", string_value jsonrpc)
      ∷ ("method", serialize x m)
      ∷ ("params", array_value (map param_value ps))
      ∷ []
  members (response n jsonrpc result error) =
      ("id", number_value n)
      ∷ ("jsonrpc", string_value jsonrpc)
      ∷ ("result", option_value result)
      ∷ ("error", option_value error)
      ∷ []
  members (notification jsonrpc m ps) =
      ("jsonrpc", string_value jsonrpc) ∷ ("method", serialize x m) ∷ ("params", ps) ∷ []

  unfoldable pub as_json : JsonRpcMsg x → String
  as_json msg = x.value_to_string (x.object_value (members msg))

  unfoldable pub as_bytes : JsonRpcMsg x → Result Bytes (Error x)
  as_bytes msg = do line ← map_err json (x.object_to_vec (members msg)); ok (line ++ b'\n' ∷ [])

  -- The derived `Deserialize` of an untagged enum: the first variant that reads the value.
  abbrev pub or_else {ℓ} :
      {A : Type ℓ} → Result A JsonError → Result A JsonError → Result A JsonError
  or_else (ok a) next = ok a
  or_else (err e) next = next

  unfoldable pub read_param : Value → Result Param JsonError
  read_param v = or_else (x.read_u8 v >>= λ n. ok (u8 n)) (
      or_else (x.read_u32 v >>= λ n. ok (u32 n)) (
        or_else (x.read_usize v >>= λ n. ok (usize n)) (
          or_else (x.read_string v >>= λ s. ok (string s)) (
            or_else (x.read_bool v >>= λ b. ok (bool b)) (
              or_else (x.read_array v >>= λ vs. traverse x.read_u8 vs >>= λ b. ok (bytes b))
                (err no_variant))))))

  unfoldable pub read_request : Value → Result (JsonRpcMsg x) JsonError
  unfolding read_param
  read_request v = do
    fs ← visit_map ("id" ∷ "jsonrpc" ∷ "method" ∷ "params" ∷ []) v
    n ← required x read_usize "id" (get_elem? fs 0)
    jsonrpc ← required x read_string "jsonrpc" (get_elem? fs 1)
    m ← required x (deserialize x) "method" (get_elem? fs 2)
    ps ← required x read_array "params" (get_elem? fs 3)
    ps' ← traverse read_param ps
    ok (request n jsonrpc m ps')

  unfoldable pub read_response : Value → Result (JsonRpcMsg x) JsonError
  read_response v = do
    fs ← visit_map ("id" ∷ "jsonrpc" ∷ "result" ∷ "error" ∷ []) v
    n ← required x read_usize "id" (get_elem? fs 0)
    jsonrpc ← required x read_string "jsonrpc" (get_elem? fs 1)
    result ← optional x (λ r. ok r) (get_elem? fs 2)
    error ← optional x (λ e. ok e) (get_elem? fs 3)
    ok (response n jsonrpc result error)

  unfoldable pub read_notification : Value → Result (JsonRpcMsg x) JsonError
  read_notification v = do
    fs ← visit_map ("jsonrpc" ∷ "method" ∷ "params" ∷ []) v
    jsonrpc ← required x read_string "jsonrpc" (get_elem? fs 0)
    m ← required x (deserialize x) "method" (get_elem? fs 1)
    ps ← required x (λ p. ok p) "params" (get_elem? fs 2)
    ok (notification jsonrpc m ps)

  unfoldable pub read_msg : Value → Result (JsonRpcMsg x) JsonError
  unfolding read_request read_response read_notification
  read_msg v =
      or_else (read_request v)
        (or_else (read_response v) (or_else (read_notification v) (err no_variant)))

  unfoldable pub from_json : String → Result (JsonRpcMsg x) (Error x)
  unfolding read_msg
  from_json text = do v ← map_err json (x.parse text); map_err json (read_msg v)
