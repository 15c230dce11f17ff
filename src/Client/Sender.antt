-- ===== src/Client/Sender.antt =====
-- src/client.rs: the sender task of `try_connect`, one event at a time. What `write_all` returns is
-- an argument.
pub mod Exchange
pub mod Wire
pub mod Order
pub mod Pipeline
pub mod Failure
pub mod Batches
use electrum_sdk.Base.{
  ℕ, List, [], ◌∷◌, ◌++◌, Bool, true, false, Option, none, some, Result, ok, err, if◌then◌else◌,
}
use electrum_sdk.External.{External, Bytes}
use electrum_sdk.Channel.{Channel}
use electrum_sdk.Types.Message.{JsonRpcMsg, is_request, as_bytes}
use electrum_sdk.Client.{
  Client, Message, ClientEvent, ClientNotification, disconnected, stopped, set_status, publish,
  schedule_for_stop,
}
use electrum_sdk.Client

-- What one event does besides the change of the client: whether the loop breaks, the bytes given to
-- `write_all`, the value sent on the oneshot channel, and whether the stream is shut down.
pub record Effect : Type 0 where
  pub breaks : Bool
  pub written : Option Bytes
  pub reply : Option (ℕ × Bool)
  pub shutdown : Bool

-- The event is dropped; with it the oneshot sender, so that its receiver gets an error.
abbrev pub no_effect : Effect
no_effect = record { breaks = false; written = none; reply = none; shutdown = false }

abbrev pub reply_to : Option ℕ → Bool → Option (ℕ × Bool)
reply_to none b = none
reply_to (some sender) b = some (sender, b)

-- `write_all` of the bytes: `true` is written.
unfoldable pub write : Bytes → Option ℕ → Bool → Effect
write b sender true = record {
  breaks = false;
  written = some b;
  reply = reply_to sender true;
  shutdown = false;
}
write b sender false = record {
  breaks = true;
  written = some b;
  reply = reply_to sender false;
  shutdown = false;
}

module _ {x : External} where
  unfoldable pub send_one : JsonRpcMsg x → Option ℕ → Bool → Effect
  unfolding write is_request
  send_one msg sender success =
      if is_request msg
      then elim (as_bytes x msg) [ ok b ↦ write b sender success | err e ↦ no_effect ]
      else no_effect

  -- The bytes of the requests of a batch; a message that cannot be written is left out.
  unfoldable pub batch_bytes : List (JsonRpcMsg x) → Bytes
  unfolding is_request
  batch_bytes [] = []
  batch_bytes (msg ∷ msgs) =
      let rest = batch_bytes msgs in
      if is_request msg then elim (as_bytes x msg) [ ok b ↦ b ++ rest | err e ↦ rest ] else rest

module _ {x : External} {ch : Channel (Message x)} where
  unfoldable pub handle_event : ClientEvent x → Option ℕ → Bool → Client x ch → Client x ch × Effect
  unfolding send_one batch_bytes write set_status schedule_for_stop publish
  handle_event (ClientEvent.send_msg msg) sender success c = (c, send_one msg sender success)
  handle_event (ClientEvent.send_batch batch) sender success c =
      (c, write (batch_bytes batch) sender success)
  handle_event ClientEvent.close sender success c =
      (set_status disconnected c, record no_effect { breaks = true; shutdown = true })
  handle_event ClientEvent.stop sender success c =
      if c.scheduled_for_stop
      then (
        publish ClientNotification.stop (schedule_for_stop false (set_status stopped c)),
        record no_effect { breaks = true; shutdown = true },
      )
      else (c, no_effect)

  -- A round of the loop: `none` while the channel is empty.
  unfoldable pub sender_step : Bool → Client x ch → Option (Client x ch × Effect)
  unfolding handle_event
  sender_step success c = elim (ch.recv c.queue) [
    | none ↦ none
    | some (m, q) ↦ some (handle_event m.event m.sender success (record c { queue = q }))
  ]

  -- What comes after an event: nothing if the loop breaks.
  abbrev pub after_event :
      Client x ch × Effect → Client x ch × List Effect → Client x ch × List Effect
  after_event (c, f) rest = if f.breaks then (c, f ∷ []) else (rest.0, f ∷ rest.1)

  -- The loop, as long as there are events, with what the calls of `write_all` return.
  unfoldable pub run_sender : List Bool → Client x ch → Client x ch × List Effect
  unfolding sender_step
  run_sender [] c = (c, [])
  run_sender (success ∷ rest) c = elim (sender_step success c) [
    | none ↦ (c, [])
    | some (c', f) ↦ after_event (c', f) (run_sender rest c')
  ]
