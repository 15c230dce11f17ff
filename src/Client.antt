-- ===== src/Client.antt =====
-- src/client.rs: the data of the client. The methods and their proofs are in the modules below.
-- `Arc`, `Mutex`, `RwLock` and the atomics share one object between the tasks: here it is a record
-- that each method takes and returns.
pub mod Send
pub mod Receive
pub mod Sender
pub mod Await
pub mod Subscribe
pub mod Api
pub mod Connect
pub mod Pinger
pub mod Run
pub mod System
use electrum_sdk.Base.{ℕ, String, List, [], ◌∷◌, ◌++◌, Bool, true, false, Option, none, some}
use electrum_sdk.External.{External}
use electrum_sdk.Channel.{Channel}
use electrum_sdk.Types.Hash.{ScriptHash}
use electrum_sdk.Types.Request.{Request}
use electrum_sdk.Types.Message.{JsonRpcMsg}
use electrum_sdk.Types.Response.{Response}
use electrum_sdk.Types.Notification.{Notification}

pub data Error : Type 0 where
  channel_timeout recv_timeout timeout message_not_sent : Error
  one_shot_recv_error invalid_response : Error
  already_subscribed not_subscribed : ScriptHash → Error

pub data Status : Type 0 where
  initialized connected connecting disconnected stopped : Status

-- `Display`
unfoldable pub status_text : Status → String
status_text initialized = "Initialized"
status_text connected = "Connected"
status_text connecting = "Connecting"
status_text disconnected = "Disconnected"
status_text stopped = "Stopped"

abbrev pub status_eq : Status → Status → Bool
status_eq initialized initialized = true
status_eq connected connected = true
status_eq connecting connecting = true
status_eq disconnected disconnected = true
status_eq stopped stopped = true
status_eq _ _ = false

pub data ClientEvent (x : External) : Type 0 where
  send_msg : JsonRpcMsg x → ClientEvent x
  send_batch : List (JsonRpcMsg x) → ClientEvent x
  close stop : ClientEvent x

pub data ClientNotification (x : External) : Type 0 where
  response : (id : ℕ) → Response x → ClientNotification x
  notification : Notification x → ClientNotification x
  stop : ClientNotification x

-- An event, and the number of the oneshot channel on which its sender waits for an answer.
pub record Message (x : External) : Type 0 where
  pub event : ClientEvent x
  pub sender : Option ℕ

pub record ActiveSubscriptions : Type 0 where
  pub headers : Bool
  pub scripts : List ScriptHash

pub record Schedule : Type 0 where
  pub scheduled_for_stop : Bool

pub record Client (x : External) (ch : Channel (Message x)) : Type 0 where
  pub addr : String
  pub proxy : Option x.SocketAddr
  pub status : Status
  pub last_id : ℕ
  pub inventory : List (ℕ × Request x)
  pub subscriptions : ActiveSubscriptions
  pub open subscriptions use *
  pub schedule : Schedule
  pub open schedule use *
  -- the channel of `sender` and `receiver`
  pub queue : ch.Chan
  -- what was given to `notifications.send`, in order
  pub published : List (ClientNotification x)

-- The capacity of the channel of events.
abbrev pub queue_size : ℕ
queue_size = 1024

module _ (x : External) (ch : Channel (Message x)) where
  unfoldable pub new : String → Option x.SocketAddr → Client x ch
  new addr proxy = record {
    addr = addr;
    proxy = proxy;
    status = initialized;
    last_id = 0;
    inventory = [];
    subscriptions = record { headers = false; scripts = [] };
    schedule = record { scheduled_for_stop = false };
    queue = ch.create queue_size;
    published = [];
  }

module _ {x : External} {ch : Channel (Message x)} where
  unfoldable pub set_headers : Bool → Client x ch → Client x ch
  set_headers enabled c = record c { subscriptions = record c.subscriptions { headers = enabled } }

  unfoldable pub set_scripts : List ScriptHash → Client x ch → Client x ch
  set_scripts scripts c = record c { subscriptions = record c.subscriptions { scripts = scripts } }

  unfoldable pub schedule_for_stop : Bool → Client x ch → Client x ch
  schedule_for_stop value c = record c { schedule = record { scheduled_for_stop = value } }

  unfoldable pub set_status : Status → Client x ch → Client x ch
  set_status status c = record c { status = status }

  unfoldable pub is_connected : Client x ch → Bool
  is_connected c = status_eq c.status connected

  -- `notifications.send`
  unfoldable pub publish : ClientNotification x → Client x ch → Client x ch
  publish n c = record c { published = c.published ++ n ∷ [] }
