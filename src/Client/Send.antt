-- ===== src/Client/Send.antt =====
-- src/client.rs: the events that a caller puts into the channel. A wait with a timeout is given
-- as the number of the oneshot channel and what `time::timeout` makes of its receiver; a method
-- writes nothing to the client after it has begun to wait.
pub mod Laws
pub mod Batch
pub mod Sequence
pub mod Results
use electrum_sdk.Base.{
  ℕ, ◌+◌, ◌%◌, List, [], ◌∷◌, ◌++◌, Bool, true, false, not, ◌&&◌, Option, none, some, Result, ok,
  err, if◌then◌else◌,
}
use electrum_sdk.Base.Map
use electrum_sdk.External.{External}
use electrum_sdk.Channel.{Channel}
use electrum_sdk.Types.Request.{Request}
use electrum_sdk.Types.Message.{JsonRpcMsg, compose_request}
use electrum_sdk.Types.Response.{usize_mod}
use electrum_sdk.Client.{
  Client, Message, ClientEvent, Error, message_not_sent, one_shot_recv_error, recv_timeout, Status,
  disconnected, stopped, status_eq, schedule_for_stop,
}
use electrum_sdk.Client

-- What the receiver of the oneshot channel gives: a value, an error as its sender was dropped, or
-- nothing in time.
pub data Reply : Type 0 where
  value : Bool → Reply
  dropped elapsed : Reply

abbrev pub of_reply {ℓ} : {A : Type ℓ} → A → Reply → Result A Error
of_reply a (value true) = ok a
of_reply a (value false) = err message_not_sent
of_reply a dropped = err one_shot_recv_error
of_reply a elapsed = err recv_timeout

abbrev pub Wait : Type 0
Wait = Option (ℕ × Reply)

-- The client has a connection, or may get one: the test of `disconnect` and `stop`.
abbrev pub is_open : Status → Bool
is_open s = not (status_eq s disconnected) && not (status_eq s stopped)

module _ {x : External} {ch : Channel (Message x)} where
  unfoldable pub send_client_event :
      ClientEvent x → Option ℕ → Client x ch → Client x ch × Result (Unit {0}) Error
  send_client_event event sender c =
      elim (ch.try_send c.queue (record { event = event; sender = sender })) [
        | some q ↦ (record c { queue = q }, ok tt)
        | none ↦ (c, err message_not_sent)
      ]

  unfoldable pub disconnect : Client x ch → Client x ch × Result (Unit {0}) Error
  unfolding send_client_event
  disconnect c = if is_open c.status then send_client_event ClientEvent.close none c else (c, ok tt)

  unfoldable pub stop : Client x ch → Client x ch × Result (Unit {0}) Error
  unfolding send_client_event schedule_for_stop
  stop c =
      let c' = schedule_for_stop true c in
      if is_open c'.status then send_client_event ClientEvent.stop none c' else (c', ok tt)

  -- `last_id.fetch_add(1)`
  unfoldable pub take_id : Client x ch → Client x ch
  take_id c = record c { last_id = (c.last_id + 1) % usize_mod }

  -- `inventory.insert`
  unfoldable pub file : ℕ → Request x → Client x ch → Client x ch
  unfolding Map.insert
  file id req c = record c { inventory = Map.insert c.inventory id req }

  -- An id is taken, and the request is filed under it.
  unfoldable pub register : Request x → Client x ch → Client x ch
  unfolding take_id file Map.insert
  register req c = file c.last_id req (take_id c)

  -- The `?` on the result of `send_client_event`, with what follows.
  abbrev pub after_send {ℓ} :
      {A : Type ℓ}
      → Result A Error
      → Client x ch × Result (Unit {0}) Error
      → Client x ch × Result A Error
  after_send r (c, ok _) = (c, r)
  after_send r (c, err e) = (c, err e)

  -- The event is put into the channel, and the answer is waited for.
  unfoldable pub send_and_wait {ℓ} :
      {A : Type ℓ} → ClientEvent x → A → Wait → Client x ch → Client x ch × Result A Error
  unfolding send_client_event
  send_and_wait event a (some (sender, reply)) c =
      after_send (of_reply a reply) (send_client_event event (some sender) c)
  send_and_wait event a none c = after_send (ok a) (send_client_event event none c)

  unfoldable pub send_msg : Request x → Wait → Client x ch → Client x ch × Result ℕ Error
  unfolding register send_and_wait compose_request
  send_msg req wait c =
      send_and_wait (ClientEvent.send_msg (compose_request c.last_id req)) c.last_id wait
        (register req c)

  -- The loop of `send_batch_msg`: the client, the ids and the messages.
  unfoldable pub register_all :
      List (Request x)
      → List ℕ
      → List (JsonRpcMsg x)
      → Client x ch
      → Client x ch × List ℕ × List (JsonRpcMsg x)
  unfolding register compose_request
  register_all [] ids msgs c = (c, ids, msgs)
  register_all (req ∷ reqs) ids msgs c =
      register_all reqs (ids ++ c.last_id ∷ []) (msgs ++ compose_request c.last_id req ∷ [])
        (register req c)

  abbrev send_all :
      List ℕ → List (JsonRpcMsg x) → Wait → Client x ch → Client x ch × Result (List ℕ) Error
  send_all ids [] wait c = (c, ok ids)
  send_all ids (m ∷ ms) wait c = send_and_wait (ClientEvent.send_batch (m ∷ ms)) ids wait c

  unfoldable pub send_batch_msg :
      List (Request x) → Wait → Client x ch → Client x ch × Result (List ℕ) Error
  unfolding register_all send_and_wait
  send_batch_msg reqs wait c = let r = register_all reqs [] [] c in send_all r.1 r.2 wait r.0
