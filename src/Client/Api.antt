-- ===== src/Client/Api.antt =====
-- src/client.rs: the calls of the Electrum protocol.
-- A call is given what its wait for the message and its subscription to the notifications see. The
-- subscription is made when the message has been sent.
pub mod Outcomes
pub mod Histories
pub mod Readers
pub mod Subscriptions
use electrum_sdk.Base.{ℕ, List, [], ◌∷◌, map, Bool, true, Option, none, some, Result, ok, err}
use electrum_sdk.External.{External}
use electrum_sdk.Channel.{Channel}
use electrum_sdk.Types.Hash.{ScriptHash, ScriptStatus, ToElectrumScriptHash}
use electrum_sdk.Types.Request.{Request}
use electrum_sdk.Types.Structs.{
  GetHeadersRes, HeaderNotification, GetBalanceRes, GetHistoryRes, ServerFeaturesRes,
}
use electrum_sdk.Types.Response.{Response}
use electrum_sdk.Client.{Client, Message, Error, invalid_response, set_headers}
use electrum_sdk.Client.Send.{Wait, send_msg, send_batch_msg}
use electrum_sdk.Client.Await.{
  Received, Task, returns, fails, of_result, get_response, get_batch_response, ◌>>=◌,
}
use electrum_sdk.Client.Subscribe.{add_script, drop_script, add_scripts}

-- What the environment gives to a call: the wait for the message (with a timeout), and what the
-- subscription receives.
pub record Given (x : External) : Type 0 where
  pub wait : Wait
  pub received : List (Received x)

abbrev pub Action : (x : External) → Channel (Message x) → Type 0 → Type 0
Action x ch A = Given x → Client x ch → Client x ch × Task A

abbrev pub invalid {ℓ} : {A : Type ℓ} → Task A
invalid = fails invalid_response

module _ {x : External} where
  -- The `match` of each method on the response.
  unfoldable pub read_block_header : Option (Response x) → Task x.BlockHeader
  read_block_header (some (Response.block_header h)) = returns h
  read_block_header _ = invalid

  unfoldable pub read_block_headers : Option (Response x) → Task (GetHeadersRes x)
  read_block_headers (some (Response.block_headers h)) = returns h
  read_block_headers _ = invalid

  unfoldable pub read_header_notification : Option (Response x) → Task (HeaderNotification x)
  read_header_notification (some (Response.header_notification h)) = returns h
  read_header_notification _ = invalid

  unfoldable pub read_script_status : Option (Response x) → Task (Option ScriptStatus)
  read_script_status (some (Response.script_status s)) = returns s
  read_script_status (some Response.null) = returns none
  read_script_status _ = invalid

  unfoldable pub read_unsubscribe : Option (Response x) → Task Bool
  read_unsubscribe (some (Response.script_unsubscribe b)) = returns b
  read_unsubscribe _ = invalid

  unfoldable pub read_fee : Option (Response x) → Task x.F64
  read_fee (some (Response.estimate_fee fee)) = returns fee
  read_fee _ = invalid

  unfoldable pub read_txid : Option (Response x) → Task x.Txid
  read_txid (some (Response.broadcast_tx txid)) = returns txid
  read_txid _ = invalid

  unfoldable pub read_transaction : Option (Response x) → Task x.Transaction
  read_transaction (some (Response.transaction tx)) = returns tx
  read_transaction _ = invalid

  unfoldable pub read_balance : Option (Response x) → Task GetBalanceRes
  read_balance (some (Response.balance b)) = returns b
  read_balance _ = invalid

  unfoldable pub read_history : Option (Response x) → Task (List (GetHistoryRes x))
  read_history (some (Response.history h)) = returns h
  read_history _ = invalid

  unfoldable pub read_features : Option (Response x) → Task ServerFeaturesRes
  read_features (some (Response.features f)) = returns f
  read_features _ = invalid

  -- The loop of `batch_get_history` over the responses.
  unfoldable pub read_histories : List (Response x) → Task (List (List (GetHistoryRes x)))
  unfolding read_history
  read_histories [] = returns []
  read_histories (r ∷ rs) =
      let rest = read_histories rs in read_history (some r) >>= λ h. rest >>= λ hs. returns (h ∷ hs)

module _ {x : External} {ch : Channel (Message x)} where
  -- What a method does after a step that may fail.
  abbrev pub and_then :
      {A : Type 0}
      → Client x ch × Result (Unit {0}) Error
      → (Client x ch → Client x ch × Task A)
      → Client x ch × Task A
  and_then (c, ok _) k = k c
  and_then (c, err e) k = (c, fails e)

  unfoldable pub call : Request x → Action x ch (Option (Response x))
  unfolding send_msg get_response
  call req g c =
      let r = send_msg req g.wait c in (r.0, of_result r.1 >>= λ id. get_response id g.received)

  -- A call, and the `match` on its response.
  unfoldable pub call_and_read :
      {A : Type 0} → Request x → (Option (Response x) → Task A) → Action x ch A
  unfolding call
  call_and_read req read g c = let r = call req g c in (r.0, r.1 >>= read)

  unfoldable pub ping : Wait → Client x ch → Client x ch × Task (Unit {0})
  unfolding send_msg
  ping wait c = let r = send_msg Request.ping wait c in (r.0, of_result r.1 >>= λ id. returns tt)

  unfoldable pub block_header : ℕ → Action x ch x.BlockHeader
  unfolding call_and_read read_block_header
  block_header height = call_and_read (Request.get_block_header height) read_block_header

  unfoldable pub block_headers : ℕ → ℕ → Action x ch (GetHeadersRes x)
  unfolding call_and_read read_block_headers
  block_headers start_height count =
      call_and_read (Request.get_block_headers start_height count) read_block_headers

  -- `_block_headers_subscribe`
  unfoldable pub call_headers_subscribe : Action x ch (HeaderNotification x)
  unfolding call_and_read read_header_notification
  call_headers_subscribe = call_and_read Request.block_header_subscribe read_header_notification

  unfoldable pub block_headers_subscribe : Action x ch (HeaderNotification x)
  unfolding call_headers_subscribe set_headers
  block_headers_subscribe g c = call_headers_subscribe g (set_headers true c)

  -- `_script_subscribe`
  unfoldable pub call_script_subscribe : ScriptHash → Action x ch (Option ScriptStatus)
  unfolding call_and_read read_script_status
  call_script_subscribe script = call_and_read (Request.script_subscribe script) read_script_status

  unfoldable pub estimate_fee : ℕ → Action x ch x.F64
  unfolding call_and_read read_fee
  estimate_fee blocks = call_and_read (Request.estimate_fee blocks) read_fee

  unfoldable pub broadcast_tx : x.Transaction → Action x ch x.Txid
  unfolding call_and_read read_txid
  broadcast_tx tx = call_and_read (Request.broadcast_tx tx) read_txid

  unfoldable pub get_transaction : x.Txid → Action x ch x.Transaction
  unfolding call_and_read read_transaction
  get_transaction txid = call_and_read (Request.get_transaction txid) read_transaction

  unfoldable pub server_features : Action x ch ServerFeaturesRes
  unfolding call_and_read read_features
  server_features = call_and_read Request.features read_features

  -- `_batch_script_subscribe`, of the hashes of the scripts.
  unfoldable pub send_batch_subscribe :
      List ScriptHash → Wait → Client x ch → Client x ch × Task (Unit {0})
  unfolding send_batch_msg
  send_batch_subscribe scripts wait c =
      let r = send_batch_msg (map Request.script_subscribe scripts) wait c in
      (r.0, of_result r.1 >>= λ ids. returns tt)

  -- The calls on anything that has a script hash.
  module _ {S : Type 0} (hash : ToElectrumScriptHash S) where
    open hash use {to_electrum_scripthash}

    unfoldable pub script_subscribe : S → Action x ch (Option ScriptStatus)
    unfolding add_script call_script_subscribe
    script_subscribe s g c =
        let script = to_electrum_scripthash s in
        and_then (add_script script c) (call_script_subscribe script g)

    unfoldable pub script_unsubscribe : S → Action x ch Bool
    unfolding drop_script call_and_read read_unsubscribe
    script_unsubscribe s g c =
        let script = to_electrum_scripthash s in
        and_then (drop_script script c)
          (call_and_read (Request.script_unsubscribe script) read_unsubscribe g)

    unfoldable pub batch_script_subscribe :
        List S → Wait → Client x ch → Client x ch × Task (Unit {0})
    unfolding add_scripts send_batch_subscribe
    batch_script_subscribe scripts wait c =
        let hashes = map to_electrum_scripthash scripts in
        and_then (add_scripts hashes c) (send_batch_subscribe hashes wait)

    unfoldable pub get_balance : S → Action x ch GetBalanceRes
    unfolding call_and_read read_balance
    get_balance s = call_and_read (Request.get_balance (to_electrum_scripthash s)) read_balance

    unfoldable pub get_history : S → Action x ch (List (GetHistoryRes x))
    unfolding call_and_read read_history
    get_history s = call_and_read (Request.get_history (to_electrum_scripthash s)) read_history

    unfoldable pub batch_get_history : List S → Action x ch (List (List (GetHistoryRes x)))
    unfolding send_batch_msg get_batch_response read_histories
    batch_get_history scripts g c =
        let reqs = map (λ s. Request.get_history (to_electrum_scripthash s)) scripts in
        let r = send_batch_msg reqs g.wait c in
        (
          r.0,
          of_result r.1 >>= λ ids. get_batch_response ids g.received >>= λ rs. read_histories rs,
        )
