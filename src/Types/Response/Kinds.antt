-- ===== src/Types/Response/Kinds.antt =====
-- Which response a request gets, and which answers are read as `Null`.
use electrum_sdk.Base.{◌≡◌, ◌⊎◌, inl, Option, none, some, done, arith}
use electrum_sdk.External.{External}
use electrum_sdk.Types.Method.{Method}
use electrum_sdk.Types.Request.{Request, method}
use electrum_sdk.Types.Message.{JsonRpcMsg, request, response, notification}
use electrum_sdk.Types.Response.{
  Response, read_result, to_response, block_header, block_headers, header_notification,
  script_status, script_unsubscribe, estimate_fee, broadcast_tx, transaction, balance, history,
  features, pong, null,
}

-- The method whose answers have this form; `Null` belongs to none.
abbrev pub kind : {x : External} → Response x → Option Method
kind (block_header h) = some Method.get_block_header
kind (block_headers r) = some Method.get_block_headers
kind (header_notification n) = some Method.block_header_subscribe
kind (script_status s) = some Method.script_subscribe
kind (script_unsubscribe b) = some Method.script_unsubscribe
kind (estimate_fee fee) = some Method.estimate_fee
kind (broadcast_tx txid) = some Method.broadcast_tx
kind (transaction tx) = some Method.get_transaction
kind (balance b) = some Method.get_balance
kind (history h) = some Method.get_history
kind (features f) = some Method.features
kind pong = some Method.ping
kind null = none

module _ (x : External) where
  read_result-kind :
      (req : Request x) (v : x.Value) (r : Response x)
      → read_result x req v ≡ done r
      → (r ≡ null) ⊎ (kind r ≡ some (method req))
  unfolding read_result method
  read_result-kind (Request.get_block_header height) v r h = ground arith
  read_result-kind (Request.version name number) v r h = inl (ground arith)
  read_result-kind _ v r h = ground arith

  -- An answer that is read, and is not `Null`, has the form that belongs to the request's method.
  pub to_response-kind :
      (msg : JsonRpcMsg x) (req : Request x) (r : Response x)
      → to_response x msg req ≡ done r
      → (r ≡ null) ⊎ (kind r ≡ some (method req))
  unfolding to_response
  to_response-kind (response id jsonrpc (some v) e) req r h = (read_result-kind req v r h)
  to_response-kind (response id jsonrpc none (some e)) req r h = ground arith
  to_response-kind (response id jsonrpc none none) req r h = ground arith
  to_response-kind (request id jsonrpc m ps) req r h = cc
  to_response-kind (notification jsonrpc m ps) req r h = cc
