-- ===== src/Client/Run/Methods.antt =====
-- src/client.rs: the methods of the client, as runs of the steps.
use electrum_sdk.Base.{
  ℕ, List, map, Bool, true, false, Result, ok, err, Option, none, if◌then◌else◌,
}
use electrum_sdk.External.{External}
use electrum_sdk.Channel.{Channel}
use electrum_sdk.Types.Hash.{ScriptHash, ToElectrumScriptHash}
use electrum_sdk.Types.Request.{Request}
use electrum_sdk.Types.Response.{Response}
use electrum_sdk.Client.{
  Client, Message, Error, Status, initialized, connected, connecting, disconnected, stopped,
  schedule_for_stop,
}
use electrum_sdk.Client.Send.{Wait}
use electrum_sdk.Client.Await.{Task, Received}
use electrum_sdk.Client.Subscribe.{add_script, drop_script, add_scripts}
use electrum_sdk.Client.Api.{
  Given, and_then, call, call_and_read, call_headers_subscribe, send_batch_subscribe,
  call_script_subscribe, script_subscribe, script_unsubscribe, batch_script_subscribe,
  read_script_status, read_unsubscribe,
}
use electrum_sdk.Client.Connect.{
  Attempt, refused, accepted, not_waiting, resubscribe_scripts, resubscribe, try_connect,
  loop_status, loop_round, connect, is_startable,
}
use electrum_sdk.Client.Run.Invariant.{IsWellFormed, Run-IsWellFormed}
use electrum_sdk.Client.Run.{
  Step, sends, sends_batch, adds, drops, adds_all, marks_status, schedules, Run, here, onward,
}

module _ {x : External} {ch : Channel (Message x)} where
  -- A run that takes some number of ids.
  abbrev pub Steps : Client x ch → Client x ch → Type 0
  Steps c c' = (n : ℕ) × Run n c c'

  one : {n : ℕ} {c d : Client x ch} → Step n c d → Steps c d
  one step = (_, onward step here)

  before : {n : ℕ} {c d e : Client x ch} → Step n c d → Steps d e → Steps c e
  before step (k, run) = (_, onward step run)

  if-Steps :
      {A : Type 0} (b : Bool) (c : Client x ch) (r s : Client x ch × A)
      → Steps c r.0
      → Steps c s.0
      → Steps c (if b then r else s).0
  if-Steps true c r s f g = f
  if-Steps false c r s f g = g

  and_then-Steps :
      {A : Type 0} {n : ℕ} (c : Client x ch) (r : Client x ch × Result (Unit {0}) Error)
      (k : Client x ch → Client x ch × Task A)
      → Step n c r.0
      → ((d : Client x ch) → Steps d (k d).0)
      → Steps c (and_then r k).0
  and_then-Steps c (d, ok _) k step rest = before step (rest d)
  and_then-Steps c (d, err e) k step rest = one step

  call_and_read-Steps :
      {A : Type 0} (req : Request x) (read : Option (Response x) → Task A) (g : Given x)
      (c : Client x ch)
      → Steps c (call_and_read req read g c).0
  unfolding call_and_read call
  call_and_read-Steps req read g c = one (sends req g.wait)

  send_batch_subscribe-Steps :
      (ss : List ScriptHash) (wait : Wait) (c : Client x ch)
      → Steps c (send_batch_subscribe ss wait c).0
  unfolding send_batch_subscribe
  send_batch_subscribe-Steps ss wait c = one (sends_batch (map Request.script_subscribe ss) wait)

  resubscribe-Steps : (rs : List (Received x)) (c : Client x ch) → Steps c (resubscribe rs c).0
  unfolding resubscribe resubscribe_scripts send_batch_subscribe call_headers_subscribe
      call_and_read call
  resubscribe-Steps rs c =
      let r = call_headers_subscribe (record { wait = none; received = rs }) c in
      if-Steps c.headers c
        (if not_waiting r.1 then (resubscribe_scripts r.0, true) else (r.0, false))
        (resubscribe_scripts c, true)
        (if-Steps (not_waiting r.1) c (resubscribe_scripts r.0, true) (r.0, false)
          (before (sends Request.block_header_subscribe none)
            (send_batch_subscribe-Steps r.0.scripts none r.0))
          (one (sends Request.block_header_subscribe none)))
        (send_batch_subscribe-Steps c.scripts none c)

  try_connect-Steps : (a : Attempt x) (c : Client x ch) → Steps c (try_connect a c).0
  unfolding try_connect
  try_connect-Steps refused c = before (marks_status connecting) (one (marks_status disconnected))
  try_connect-Steps (accepted rs) c =
      before (marks_status connecting) (before (marks_status connected) (resubscribe-Steps rs _))

  loop_status-Steps : (s : Status) (a : Attempt x) (c : Client x ch) → Steps c (loop_status s a c).0
  unfolding loop_status
  loop_status-Steps disconnected a c = try_connect-Steps a c
  loop_status-Steps stopped a c = (0, here)
  loop_status-Steps initialized a c = (0, here)
  loop_status-Steps connected a c = (0, here)
  loop_status-Steps connecting a c = (0, here)

  -- A round of the auto connect loop is some steps, whatever its attempt to connect gives.
  pub loop_round-Steps : (a : Attempt x) (c : Client x ch) → Steps c (loop_round a c).0
  unfolding loop_round
  loop_round-Steps a c =
      if-Steps c.scheduled_for_stop c _ _ (before (marks_status stopped) (one (schedules false)))
        (loop_status-Steps c.status a c)

  -- `connect` is some steps too, with or without the wait for the connection.
  pub connect-Steps : (wait : Bool) (a : Attempt x) (c : Client x ch) → Steps c (connect wait a c).0
  unfolding connect
  connect-Steps wait a c = before (schedules false) (
      if-Steps (is_startable c.status) (schedule_for_stop false c) _ _
        (if-Steps wait (schedule_for_stop false c) _ _
          (try_connect-Steps a (schedule_for_stop false c)) (one (marks_status disconnected)))
        (0, here))

  module _ {S : Type 0} (hash : ToElectrumScriptHash S) where
    -- The calls that change the set of scripts are some steps, whether they fail at the set or not.
    pub subscriptions-Steps :
        (s : S) (ss : List S) (g : Given x) (c : Client x ch)
        → Steps c (script_subscribe hash s g c).0
          × Steps c (script_unsubscribe hash s g c).0
          × Steps c (batch_script_subscribe hash ss g.wait c).0
    unfolding script_subscribe script_unsubscribe batch_script_subscribe call_script_subscribe
    subscriptions-Steps s ss g c =
        let script = hash.to_electrum_scripthash s in
        let hashes = map (λ (t : S). hash.to_electrum_scripthash t) ss in
        (
          and_then-Steps c (add_script script c) _ (adds script)
              (λ d. call_and_read-Steps (Request.script_subscribe script) read_script_status g d),
          and_then-Steps c (drop_script script c) _ (drops script)
              (λ d. call_and_read-Steps (Request.script_unsubscribe script) read_unsubscribe g d),
          and_then-Steps c (add_scripts hashes c) _ (adds_all hashes)
              (λ d. send_batch_subscribe-Steps hashes g.wait d),
        )

    -- A round of the auto connect loop, `connect`, and the calls that change the set of scripts keep the
    -- set without repetitions and the notifications without `Null`, on every branch.
    methods-IsWellFormed :
        (s : S) (ss : List S) (g : Given x) (wait : Bool) (a : Attempt x) (c : Client x ch)
        → IsWellFormed c
        → IsWellFormed (loop_round a c).0
          × IsWellFormed (connect wait a c).0
          × IsWellFormed (script_subscribe hash s g c).0
          × IsWellFormed (script_unsubscribe hash s g c).0
          × IsWellFormed (batch_script_subscribe hash ss g.wait c).0
    methods-IsWellFormed s ss g wait a c w =
        let (added, dropped, all_added) = subscriptions-Steps s ss g c in
        (
          Run-IsWellFormed (loop_round-Steps a c).1 w,
          Run-IsWellFormed (connect-Steps wait a c).1 w,
          Run-IsWellFormed added.1 w,
          Run-IsWellFormed dropped.1 w,
          Run-IsWellFormed all_added.1 w,
        )
