-- ===== src/Client/Receive.antt =====
-- src/client.rs: the receiver task of `try_connect`, one line of the server at a time.
pub mod Answers
pub mod Nulls
pub mod Pipeline
pub mod Batches
use electrum_sdk.Base.{
  String, ℕ, List, [], ◌∷◌, Option, none, some, Result, ok, err, Outcome, done, fail, panic,
}
use electrum_sdk.Base.Map
use electrum_sdk.External.{External}
use electrum_sdk.Channel.{Channel}
use electrum_sdk.Types.Request.{Request}
use electrum_sdk.Types.Message.{JsonRpcMsg, from_json}
use electrum_sdk.Types.Message
use electrum_sdk.Types.Response.{Response, to_response, null}
use electrum_sdk.Types.Notification.{Notification, to_notification}
use electrum_sdk.Client.{Client, Message, ClientNotification, publish}
use electrum_sdk.Client
use electrum_sdk.Client.Send.{disconnect}

-- What `read_line` gives: a line, the end of the stream (a size of 0), or an error.
pub data Read : Type 0 where
  line : String → Read
  eof failed : Read

-- What becomes of the task. A panic that unwinds ends the task, and skips what follows its loop; a
-- program built to abort on a panic ends as a whole.
pub data Flow : Type 0 where
  goes_on ends panics : Flow

-- The first if the task goes on, and the second if it ends here.
abbrev pub after_flow {ℓ} : {A : Type ℓ} → Flow → A → A → A
after_flow goes_on a b = a
after_flow ends a b = b
after_flow panics a b = b

module _ {x : External} {ch : Channel (Message x)} where
  unfoldable pub remove_request : ℕ → Client x ch → Client x ch
  unfolding Map.remove
  remove_request id c = record c { inventory = Map.remove c.inventory id }

  -- `Null` is not published.
  unfoldable pub publish_response : ℕ → Response x → Client x ch → Client x ch
  unfolding publish
  publish_response id null c = c
  publish_response id r c = publish (ClientNotification.response id r) c

  unfoldable pub handle_answer :
      ℕ → Outcome (Response x) (Message.Error x) → Client x ch → Client x ch × Flow
  unfolding publish_response remove_request
  handle_answer id (done r) c = (remove_request id (publish_response id r c), goes_on)
  handle_answer id (fail e) c = (remove_request id c, goes_on)
  handle_answer id panic c = (c, panics)

  -- The `JsonRpcMsg::Response` arm: the answer is read by the request in the inventory.
  unfoldable pub handle_response : ℕ → JsonRpcMsg x → Client x ch → Client x ch × Flow
  unfolding handle_answer remove_request
  handle_response id msg c = elim (Map.get c.inventory id) [
    | some req ↦ handle_answer id (to_response x msg req) c
    | none ↦ (remove_request id c, goes_on)
  ]

  unfoldable pub handle_notification : JsonRpcMsg x → Client x ch → Client x ch
  unfolding publish
  handle_notification msg c = elim (to_notification x msg) [
    | ok n ↦ publish (ClientNotification.notification n) c
    | err e ↦ c
  ]

  unfoldable pub handle_msg : JsonRpcMsg x → Client x ch → Client x ch × Flow
  unfolding handle_response handle_notification
  handle_msg (Message.response id jsonrpc result error) c =
      handle_response id (Message.response id jsonrpc result error) c
  handle_msg (Message.notification jsonrpc m ps) c =
      (handle_notification (Message.notification jsonrpc m ps) c, goes_on)
  handle_msg (Message.request id jsonrpc m ps) c = (c, goes_on)

  unfoldable pub handle_line : String → Client x ch → Client x ch × Flow
  unfolding handle_msg
  handle_line text c = elim (from_json x text) [ ok msg ↦ handle_msg msg c | err e ↦ (c, goes_on) ]

  -- A round of the loop; after the loop the client is disconnected.
  unfoldable pub receive : Read → Client x ch → Client x ch × Flow
  unfolding handle_line disconnect
  receive (line text) c = handle_line text c
  receive eof c = ((disconnect c).0, ends)
  receive failed c = ((disconnect c).0, ends)

  -- The task reads until it ends.
  unfoldable pub receive_all : List Read → Client x ch → Client x ch
  unfolding receive
  receive_all [] c = c
  receive_all (r ∷ rs) c =
      let rest = receive_all rs (receive r c).0 in after_flow (receive r c).1 rest (receive r c).0
