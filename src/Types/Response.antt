-- ===== src/Types/Response.antt =====
-- src/types/mod.rs: `Response` and `to_response`, which reads an answer by the request that it
-- answers. The arithmetic on `usize` wraps, as in a release build; a slice out of range panics.
pub mod Headers
pub mod Kinds
use electrum_sdk.Base.{
  ℕ, zero, suc, ◌+◌, ◌-◌, ◌*◌, ◌%◌, ◌^◌, List, [], ◌∷◌, ◌++◌, Bool, ◌&&◌, Option, none, some,
  Result, ok, err, map_err, Outcome, done, fail, panic, lift, and_then, traverse, length, take,
  drop, leb, if◌then◌else◌,
}
use electrum_sdk.External.{External, Bytes}
use electrum_sdk.Types.Hash.{ScriptStatus}
use electrum_sdk.Types.Request.{Request}
use electrum_sdk.Types.Request
use electrum_sdk.Types.Structs.{
  GetHeadersRes, HeaderNotification, RawHeaderNotification, GetBalanceRes, GetHistoryRes,
  ServerFeaturesRes, read_headers_res, read_raw_header_notification, read_balance_res,
  read_history_res, read_features_res, read_hash, from_hex,
}
use electrum_sdk.Types.Message.{
  JsonRpcMsg, Error, json, hex, bitcoin, protocol, unexpected_msg, request, response, notification,
}

pub data Response (x : External) : Type 0 where
  block_header : x.BlockHeader → Response x
  block_headers : GetHeadersRes x → Response x
  header_notification : HeaderNotification x → Response x
  script_status : Option ScriptStatus → Response x
  script_unsubscribe : Bool → Response x
  estimate_fee : x.F64 → Response x
  broadcast_tx : x.Txid → Response x
  transaction : x.Transaction → Response x
  balance : GetBalanceRes → Response x
  history : List (GetHistoryRes x) → Response x
  features : ServerFeaturesRes → Response x
  pong null : Response x

abbrev pub usize_mod : ℕ
usize_mod = 2 ^ 64

-- The bytes of one header.
abbrev pub header_size : ℕ
header_size = 80

-- `bytes[start..end]`; `none` is the panic.
unfoldable pub slice : Bytes → ℕ → ℕ → Option Bytes
slice b start end =
    if leb start end && leb end (length b) then some (take (end - start) (drop start b)) else none

module _ {x : External} where
  -- The loop of `GetBlockHeaders` from round `i`, with the rounds left and the headers so far.
  unfoldable pub parse_headers :
      Bytes → ℕ → ℕ → List x.BlockHeader → Outcome (List x.BlockHeader) (Error x)
  unfolding slice
  parse_headers raw i zero hs = done hs
  parse_headers raw i (suc left) hs =
      elim (slice raw ((i * header_size) % usize_mod) (((i + 1) * header_size) % usize_mod)) [
        | none ↦ panic
        | some chunk ↦ elim (x.deserialize_header chunk) [
          | ok h ↦ parse_headers raw (i + 1) left (hs ++ h ∷ [])
          | err e ↦ fail (bitcoin e)
        ]
      ]

  -- `HeaderNotification::try_from`
  unfoldable pub header_of_raw : RawHeaderNotification → Result (HeaderNotification x) (Error x)
  header_of_raw raw = elim (x.deserialize_header raw.header) [
    | ok h ↦ ok (record { height = raw.height; header = h })
    | err e ↦ err (bitcoin e)
  ]

module _ (x : External) where
  open x use {Value, JsonError}

  -- `serde_json::from_value(result)?`
  abbrev pub from_value {ℓ} :
      {A : Type ℓ} → (Value → Result A JsonError) → Value → Outcome A (Error x)
  from_value read v = lift (map_err json (read v))

  -- A text in hexadecimal, decoded and deserialized.
  unfoldable pub from_hex_text {ℓ} :
      {A : Type ℓ} → (Bytes → Result A x.EncodeError) → Value → Outcome A (Error x)
  from_hex_text read v = and_then (from_value x.read_string v) λ text.
      and_then (lift (map_err hex (x.vec_from_hex text))) λ b. lift (map_err bitcoin (read b))

  unfoldable pub headers_response : Value → Outcome (Response x) (Error x)
  headers_response v = and_then (from_value (read_headers_res x) v) λ res.
      and_then (parse_headers res.raw_headers 0 res.count res.headers)
        λ hs. done (block_headers (record res { raw_headers = []; headers = hs }))

  -- `Option<ScriptStatus>`
  unfoldable pub read_status : Value → Result (Option ScriptStatus) JsonError
  read_status v =
      if x.is_null v then ok none else elim (read_hash x v) [ ok h ↦ ok (some h) | err e ↦ err e ]

  unfoldable pub read_history : Value → Result (List (GetHistoryRes x)) JsonError
  read_history v = elim (x.read_array v) [
    | ok vs ↦ traverse (read_history_res x) vs
    | err e ↦ err e
  ]

  -- The `match` of `to_response` on the request, for a result that is there.
  unfoldable pub read_result : Request x → Value → Outcome (Response x) (Error x)
  unfolding from_hex_text headers_response read_status read_history
  read_result (Request.get_block_header height) v =
      and_then (from_hex_text x.deserialize_header v) λ h. done (block_header h)
  read_result (Request.get_block_headers start_height count) v = headers_response v
  read_result Request.block_header_subscribe v =
      and_then (from_value (read_raw_header_notification x) v)
        λ raw. and_then (lift (header_of_raw raw)) λ n. done (header_notification n)
  read_result (Request.script_subscribe hash) v =
      and_then (from_value read_status v) λ s. done (script_status s)
  read_result (Request.script_unsubscribe hash) v =
      and_then (from_value x.read_bool v) λ b. done (script_unsubscribe b)
  read_result (Request.estimate_fee blocks) v =
      and_then (from_value x.read_f64 v) λ fee. done (estimate_fee fee)
  read_result (Request.broadcast_tx tx) v =
      and_then (from_value x.read_txid v) λ txid. done (broadcast_tx txid)
  read_result (Request.get_transaction txid) v =
      and_then (from_hex_text x.deserialize_tx v) λ tx. done (transaction tx)
  read_result (Request.get_balance hash) v =
      and_then (from_value (read_balance_res x) v) λ b. done (balance b)
  read_result (Request.get_history hash) v =
      and_then (from_value read_history v) λ h. done (history h)
  read_result Request.features v =
      and_then (from_value (read_features_res x) v) λ f. done (features f)
  read_result Request.ping v = done pong
  read_result (Request.version name number) v = done null

  unfoldable pub to_response : JsonRpcMsg x → Request x → Outcome (Response x) (Error x)
  to_response (response id jsonrpc (some result) error) req = read_result req result
  to_response (response id jsonrpc none (some e)) req = fail (protocol e)
  to_response (response id jsonrpc none none) req = done null
  to_response (request id jsonrpc m ps) req = fail unexpected_msg
  to_response (notification jsonrpc m ps) req = fail unexpected_msg
