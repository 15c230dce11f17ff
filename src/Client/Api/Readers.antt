-- ===== src/Client/Api/Readers.antt =====
-- src/client.rs: the `match` of each call on the response to its own request.
use electrum_sdk.Base.{◌≡◌, Bool, true, false, some, arith}
use electrum_sdk.External.{External}
use electrum_sdk.Types.Request.{Request, method}
use electrum_sdk.Types.Response.{Response}
use electrum_sdk.Types.Response.Kinds.{kind}
use electrum_sdk.Client.Await.{Task, returns, fails, waits}
use electrum_sdk.Client.Api.{
  read_block_header, read_block_headers, read_header_notification, read_script_status,
  read_unsubscribe, read_fee, read_txid, read_transaction, read_balance, read_history,
  read_features,
}

abbrev pub is_returned {ℓ} : {A : Type ℓ} → Task A → Bool
is_returned (returns a) = true
is_returned (fails e) = false
is_returned waits = false

module _ {x : External} where
  -- Whether the call that sends the request returns on this response. No call sends `Version`, and
  -- `ping` reads no response.
  unfoldable pub is_accepted : Request x → Response x → Bool
  unfolding read_block_header read_block_headers read_header_notification read_script_status
      read_unsubscribe read_fee read_txid read_transaction read_balance read_history read_features
  is_accepted (Request.get_block_header height) r = is_returned (read_block_header (some r))
  is_accepted (Request.get_block_headers start_height count) r =
      is_returned (read_block_headers (some r))
  is_accepted Request.block_header_subscribe r = is_returned (read_header_notification (some r))
  is_accepted (Request.script_subscribe hash) r = is_returned (read_script_status (some r))
  is_accepted (Request.script_unsubscribe hash) r = is_returned (read_unsubscribe (some r))
  is_accepted (Request.estimate_fee blocks) r = is_returned (read_fee (some r))
  is_accepted (Request.broadcast_tx tx) r = is_returned (read_txid (some r))
  is_accepted (Request.get_transaction txid) r = is_returned (read_transaction (some r))
  is_accepted (Request.get_balance hash) r = is_returned (read_balance (some r))
  is_accepted (Request.get_history hash) r = is_returned (read_history (some r))
  is_accepted Request.features r = is_returned (read_features (some r))
  is_accepted (Request.version name number) r = false
  is_accepted Request.ping r = true

  -- A response of the form that belongs to the method is accepted by the call.
  pub is_accepted-kind :
      (req : Request x) (r : Response x) → kind r ≡ some (method req) → is_accepted req r ≡ true
  unfolding is_accepted method
  is_accepted-kind (Request.version name number) r k = ground (arith, k)
  is_accepted-kind _ r k = ground (arith, k)
