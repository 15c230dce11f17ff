-- ===== src/Client/System.antt =====
-- src/client.rs: the accesses of all tasks to what they share, each as one action, in any order.
-- Beside the client stands what became of each id: a history that no task reads, except that a task
-- files the request for which it took the id.
pub mod Phases
pub mod Inventory
pub mod Handling
pub mod Consistent
pub mod Refine
pub mod Answers
use electrum_sdk.Base.{ℕ, ◌+◌, ◌≡◌, List, Bool, Option, none, some, nat_eq, if◌then◌else◌, String}
use electrum_sdk.External.{External}
use electrum_sdk.Channel.{Channel}
use electrum_sdk.Types.Hash.{ScriptHash}
use electrum_sdk.Types.Request.{Request}
use electrum_sdk.Types.Message.{JsonRpcMsg}
use electrum_sdk.Types.Message
use electrum_sdk.Client.{
  Client, Message, ClientEvent, ClientNotification, Status, set_headers, set_status,
  schedule_for_stop, publish, new,
}
use electrum_sdk.Client
use electrum_sdk.Client.Send.{take_id, file, send_client_event}
use electrum_sdk.Client.Receive.{Flow, goes_on, ends, panics, handle_msg}
use electrum_sdk.Client.Subscribe.{add_script, drop_script, add_scripts}

-- What became of an id: nothing yet; a task took it for a request; the request is in the inventory;
-- the request was taken out of it, with or without an answer.
pub data Phase (x : External) : Type 0 where
  free : Phase x
  taken filed settled : Request x → Phase x

abbrev pub update {ℓ} : {A : Type ℓ} → (ℕ → A) → ℕ → A → ℕ → A
update f k a j = if nat_eq k j then a else f j

abbrev pub settle : {x : External} → Phase x → Phase x
settle (filed req) = settled req
settle free = free
settle (taken req) = taken req
settle (settled req) = settled req

-- The history after a message: an answer on which the receiver task goes on settles its id.
abbrev pub after_msg : {x : External} → JsonRpcMsg x → Flow → (ℕ → Phase x) → ℕ → Phase x
after_msg (Message.response id jsonrpc result error) goes_on phase =
    update phase id (settle (phase id))
after_msg (Message.response id jsonrpc result error) ends phase = phase
after_msg (Message.response id jsonrpc result error) panics phase = phase
after_msg (Message.request id jsonrpc m ps) flow phase = phase
after_msg (Message.notification jsonrpc m ps) flow phase = phase

pub record System (x : External) (ch : Channel (Message x)) : Type 0 where
  pub client : Client x ch
  pub phase : ℕ → Phase x

module _ {x : External} {ch : Channel (Message x)} where
  -- A new client.
  abbrev pub start : String → Option x.SocketAddr → System x ch
  start addr proxy = record { client = new x ch addr proxy; phase = λ id. free }

  -- An access that leaves the history as it is.
  abbrev pub at : System x ch → Client x ch → System x ch
  at s c = record { client = c; phase = s.phase }

  -- The number is that of the ids which the action takes.
  pub data Action : ℕ → System x ch → System x ch → Type 0 where
    -- callers: an id, the inventory, the channel, the subscriptions
    takes_id :
        (req : Request x) {s : System x ch}
        → Action 1 s (record {
          client = take_id s.client;
          phase = update s.phase s.client.last_id (taken req);
        })
    files :
        (id : ℕ) (req : Request x) {s : System x ch}
        → s.phase id ≡ taken req
        → Action 0 s
            (record { client = file id req s.client; phase = update s.phase id (filed req) })
    queues :
        (event : ClientEvent x) (sender : Option ℕ) {s : System x ch}
        → Action 0 s (at s (send_client_event event sender s.client).0)
    marks_headers :
        (enabled : Bool) {s : System x ch} → Action 0 s (at s (set_headers enabled s.client))
    adds : (h : ScriptHash) {s : System x ch} → Action 0 s (at s (add_script h s.client).0)
    drops : (h : ScriptHash) {s : System x ch} → Action 0 s (at s (drop_script h s.client).0)
    adds_all :
        (hs : List ScriptHash) {s : System x ch} → Action 0 s (at s (add_scripts hs s.client).0)
    -- the receiver task, which holds the inventory while it handles an answer
    handles :
        (msg : JsonRpcMsg x) {s : System x ch}
        → Action 0 s (record {
          client = (handle_msg msg s.client).0;
          phase = after_msg msg (handle_msg msg s.client).1 s.phase;
        })
    -- the sender task
    dequeues :
        (m : Message x) (q : ch.Chan) {s : System x ch}
        → ch.recv s.client.queue ≡ some (m, q)
        → Action 0 s (at s (record s.client { queue = q }))
    publishes_stop :
        {s : System x ch} → Action 0 s (at s (publish ClientNotification.stop s.client))
    -- `change_address`
    readdresses :
        (addr : String) (proxy : Option x.SocketAddr) {s : System x ch}
        → Action 0 s (at s (record s.client { addr = addr; proxy = proxy }))
    -- the status and the schedule, from any task
    marks_status :
        (status : Status) {s : System x ch} → Action 0 s (at s (set_status status s.client))
    schedules :
        (value : Bool) {s : System x ch} → Action 0 s (at s (schedule_for_stop value s.client))

  pub data Actions : ℕ → System x ch → System x ch → Type 0 where
    here : {s : System x ch} → Actions 0 s s
    next : {n k : ℕ} {s t u : System x ch} → Action n s t → Actions k t u → Actions (n + k) s u
