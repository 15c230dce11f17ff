-- ===== src/Client/Run.antt =====
-- src/client.rs: the tasks of a client and its callers, in any order. Each step is what one task does
-- to the client without waiting; the number is that of the ids which the step takes.
pub mod Keeps
pub mod Leaves
pub mod Ids
pub mod Invariant
pub mod Methods
use electrum_sdk.Base.{ℕ, ◌+◌, ◌≡◌, List, Bool, Option, some, String, length}
use electrum_sdk.External.{External}
use electrum_sdk.Channel.{Channel}
use electrum_sdk.Types.Hash.{ScriptHash}
use electrum_sdk.Types.Request.{Request}
use electrum_sdk.Client.{Client, Message, Status, set_headers, set_status, schedule_for_stop}
use electrum_sdk.Client.Send.{Wait, send_msg, send_batch_msg, disconnect, stop}
use electrum_sdk.Client.Receive.{Read, receive}
use electrum_sdk.Client.Sender.{Effect, sender_step}
use electrum_sdk.Client.Subscribe.{add_script, drop_script, add_scripts}

module _ {x : External} {ch : Channel (Message x)} where
  pub data Step : ℕ → Client x ch → Client x ch → Type 0 where
    -- callers
    sends : (req : Request x) (wait : Wait) {c : Client x ch} → Step 1 c (send_msg req wait c).0
    sends_batch :
        (reqs : List (Request x)) (wait : Wait) {c : Client x ch}
        → Step (length reqs) c (send_batch_msg reqs wait c).0
    marks_headers : (enabled : Bool) {c : Client x ch} → Step 0 c (set_headers enabled c)
    adds : (s : ScriptHash) {c : Client x ch} → Step 0 c (add_script s c).0
    drops : (s : ScriptHash) {c : Client x ch} → Step 0 c (drop_script s c).0
    adds_all : (ss : List ScriptHash) {c : Client x ch} → Step 0 c (add_scripts ss c).0
    disconnects : {c : Client x ch} → Step 0 c (disconnect c).0
    stops : {c : Client x ch} → Step 0 c (stop c).0
    -- the receiver task and the sender task
    receives : (r : Read) {c : Client x ch} → Step 0 c (receive r c).0
    takes :
        (success : Bool) (f : Effect) {c c' : Client x ch}
        → sender_step success c ≡ some (c', f)
        → Step 0 c c'
    -- `change_address`
    readdresses :
        (addr : String) (proxy : Option x.SocketAddr) {c : Client x ch}
        → Step 0 c (record c { addr = addr; proxy = proxy })
    -- `connect` and the auto connect loop
    marks_status : (status : Status) {c : Client x ch} → Step 0 c (set_status status c)
    schedules : (value : Bool) {c : Client x ch} → Step 0 c (schedule_for_stop value c)

  -- Steps one after the other, with the number of the ids that were taken.
  pub data Run : ℕ → Client x ch → Client x ch → Type 0 where
    here : {c : Client x ch} → Run 0 c c
    onward : {n k : ℕ} {c d e : Client x ch} → Step n c d → Run k d e → Run (n + k) c e
