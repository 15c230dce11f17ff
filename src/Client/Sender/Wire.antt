-- ===== src/Client/Sender/Wire.antt =====
-- src/client.rs: what the sender task is to write for its events, and what their callers are told.
use electrum_sdk.Base.{
  map, ℕ, ◌≡◌, List, [], ◌∷◌, ◌++◌, Bool, true, Option, none, some, Result, ok, err, if◌then◌else◌,
}
use electrum_sdk.External.{External, Bytes}
use electrum_sdk.Types.Message.{JsonRpcMsg, as_bytes, is_request}
use electrum_sdk.Client.{Message, ClientEvent}
use electrum_sdk.Client.Sender.{Effect, reply_to}

-- The bytes that the effects give to `write_all`, one after the other.
abbrev pub bytes_or_none : Option Bytes → Bytes
bytes_or_none none = []
bytes_or_none (some b) = b

abbrev pub written_bytes : List Effect → Bytes
written_bytes [] = []
written_bytes (f ∷ fs) = bytes_or_none f.written ++ written_bytes fs

module _ {x : External} where
  -- What an event is to put on the wire: a request as its line, a batch as the lines of its requests.
  abbrev pub line_or_none : Result Bytes (electrum_sdk.Types.Message.Error x) → Bytes
  line_or_none (ok b) = b
  line_or_none (err e) = []

  abbrev pub message_bytes : JsonRpcMsg x → Bytes
  message_bytes msg = if is_request msg then line_or_none (as_bytes x msg) else []

  abbrev pub lines_of : List (JsonRpcMsg x) → Bytes
  lines_of [] = []
  lines_of (msg ∷ msgs) = message_bytes msg ++ lines_of msgs

  abbrev pub event_bytes : ClientEvent x → Bytes
  event_bytes (ClientEvent.send_msg msg) = message_bytes msg
  event_bytes (ClientEvent.send_batch batch) = lines_of batch
  event_bytes ClientEvent.close = []
  event_bytes ClientEvent.stop = []

  abbrev pub wire : List (Message x) → Bytes
  wire [] = []
  wire (m ∷ ms) = event_bytes m.event ++ wire ms

  -- What the caller that waits for an event is told: whether it was written; nothing, as its channel is
  -- dropped, if the event is no request or cannot be written as bytes.
  abbrev pub told_of_line :
      Result Bytes (electrum_sdk.Types.Message.Error x) → Option ℕ → Bool → Option (ℕ × Bool)
  told_of_line (ok b) sender success = reply_to sender success
  told_of_line (err e) sender success = none

  abbrev pub told_of : ClientEvent x → Option ℕ → Bool → Option (ℕ × Bool)
  told_of (ClientEvent.send_msg msg) sender success =
      if is_request msg then told_of_line (as_bytes x msg) sender success else none
  told_of (ClientEvent.send_batch batch) sender success = reply_to sender success
  told_of ClientEvent.close sender success = none
  told_of ClientEvent.stop sender success = none

  abbrev pub told : List (Message x) → List (Option (ℕ × Bool))
  told [] = []
  told (m ∷ ms) = told_of m.event m.sender true ∷ told ms

  -- The bytes of the events are written in order, and each caller is told so.
  pub record Writes (fs : List Effect) (ms : List (Message x)) : Type 0 where
    pub written : written_bytes fs ≡ wire ms
    pub replies : map (λ (f : Effect). f.reply) fs ≡ told ms

  -- The event is a message or a batch.
  abbrev pub IsSendingEvent : ClientEvent x → Type 0
  IsSendingEvent (ClientEvent.send_msg msg) = Unit
  IsSendingEvent (ClientEvent.send_batch batch) = Unit
  IsSendingEvent ClientEvent.close = ⊥
  IsSendingEvent ClientEvent.stop = ⊥

  abbrev pub IsSending : Message x → Type 0
  IsSending m = IsSendingEvent m.event

  -- A result of `true` for each event, and then the others.
  abbrev pub successes : List (Message x) → List Bool → List Bool
  successes [] rest = rest
  successes (m ∷ ms) rest = true ∷ successes ms rest
