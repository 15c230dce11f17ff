-- ===== src/Client/Connect.antt =====
-- src/client.rs: connecting, the auto connect loop, and the change of the address. What
-- `net::connect` returns is an argument.
pub mod Stopping
pub mod Reconnect
pub mod Persistence
pub mod Closing
pub mod Headers
pub mod Recovery
use electrum_sdk.Base.{
  String, List, [], ◌∷◌, Bool, true, false, ◌||◌, Option, none, Result, ok, err, if◌then◌else◌,
}
use electrum_sdk.External.{External}
use electrum_sdk.Channel.{Channel}
use electrum_sdk.Client.{
  Client, Message, Status, initialized, connected, connecting, disconnected, stopped, set_status,
  status_eq, schedule_for_stop, ClientNotification, Error,
}
use electrum_sdk.Client
use electrum_sdk.Client.Send.{stop}
use electrum_sdk.Client.Await.{Received, received, lost, elapsed, Task, returns, fails, waits}
use electrum_sdk.Client.Api.{call_headers_subscribe, send_batch_subscribe}

-- The outcome of `net::connect`: refused; or accepted, with what the renewal of the subscription to
-- the headers receives.
pub data Attempt (x : External) : Type 0 where
  refused : Attempt x
  accepted : List (Received x) → Attempt x

-- What becomes of the auto connect loop after a round: it sleeps and goes on, it ends, or it still
-- waits for the answer to a request.
pub data LoopFlow : Type 0 where
  sleeps ends blocks : LoopFlow

abbrev pub not_waiting : {A : Type 0} → Task A → Bool
not_waiting waits = false
not_waiting (returns a) = true
not_waiting (fails e) = true

abbrev pub sleeps_or_blocks : Bool → LoopFlow
sleeps_or_blocks true = sleeps
sleeps_or_blocks false = blocks

abbrev pub is_startable : Status → Bool
is_startable s = status_eq s initialized || status_eq s stopped

module _ {x : External} where
  -- The loop of `change_address`, which has no timeout: an error of `recv` ends it too.
  unfoldable pub await_stop : List (Received x) → Task (Unit {0})
  await_stop [] = waits
  await_stop (received ClientNotification.stop ∷ rs) = returns tt
  await_stop (received (ClientNotification.response id r) ∷ rs) = await_stop rs
  await_stop (received (ClientNotification.notification n) ∷ rs) = await_stop rs
  await_stop (lost ∷ rs) = returns tt
  await_stop (elapsed ∷ rs) = await_stop rs

module _ {x : External} {ch : Channel (Message x)} where
  -- The renewal of the subscriptions on a new connection: while the answer to the headers is
  -- awaited, without a timeout, the scripts are not sent.
  unfoldable pub resubscribe_scripts : Client x ch → Client x ch
  unfolding send_batch_subscribe
  resubscribe_scripts c = (send_batch_subscribe c.scripts none c).0

  unfoldable pub resubscribe : List (Received x) → Client x ch → Client x ch × Bool
  unfolding call_headers_subscribe resubscribe_scripts
  resubscribe rs c =
      let r = call_headers_subscribe (record { wait = none; received = rs }) c in
      if c.headers
      then if not_waiting r.1 then (resubscribe_scripts r.0, true) else (r.0, false)
      else (resubscribe_scripts c, true)

  -- The client after `try_connect`, and whether it has returned.
  unfoldable pub try_connect : Attempt x → Client x ch → Client x ch × Bool
  unfolding set_status resubscribe
  try_connect refused c = (set_status disconnected (set_status connecting c), true)
  try_connect (accepted rs) c = resubscribe rs (set_status connected (set_status connecting c))

  -- The `match` of the loop on the status.
  unfoldable pub loop_status : Status → Attempt x → Client x ch → Client x ch × LoopFlow
  unfolding try_connect
  loop_status disconnected a c = let r = try_connect a c in (r.0, sleeps_or_blocks r.1)
  loop_status stopped a c = (c, ends)
  loop_status initialized a c = (c, sleeps)
  loop_status connected a c = (c, sleeps)
  loop_status connecting a c = (c, sleeps)

  -- A round of the auto connect loop.
  unfoldable pub loop_round : Attempt x → Client x ch → Client x ch × LoopFlow
  unfolding loop_status schedule_for_stop set_status
  loop_round a c =
      if c.scheduled_for_stop
      then (schedule_for_stop false (set_status stopped c), ends)
      else loop_status c.status a c

  -- What comes after a round.
  abbrev pub after_round : Client x ch × LoopFlow → Client x ch × LoopFlow → Client x ch × LoopFlow
  after_round (c, sleeps) rest = rest
  after_round (c, ends) rest = (c, ends)
  after_round (c, blocks) rest = (c, blocks)

  -- The rounds of the loop, one for each attempt, with nothing else in between.
  unfoldable pub run_loop : List (Attempt x) → Client x ch → Client x ch × LoopFlow
  unfolding loop_round
  run_loop [] c = (c, sleeps)
  run_loop (a ∷ attempts) c =
      let rest = run_loop attempts (loop_round a c).0 in after_round (loop_round a c) rest

  -- The client, and whether an auto connect loop was started.
  unfoldable pub connect : Bool → Attempt x → Client x ch → Client x ch × Bool
  unfolding try_connect schedule_for_stop set_status
  connect wait_for_connection a c =
      let c' = schedule_for_stop false c in
      let r = try_connect a c' in
      if is_startable c'.status
      then if wait_for_connection then r else (set_status disconnected c', true)
      else (c', false)

  unfoldable pub start : Client x ch → Client x ch × Bool
  unfolding connect
  start c = connect false refused c

  -- The part of `change_address` after the wait.
  unfoldable pub change_to : String → Option x.SocketAddr → Client x ch → Client x ch × Bool
  unfolding start
  change_to addr proxy c = start (record c { addr = addr; proxy = proxy })

  -- `meanwhile` is what the other tasks do during the wait. The second result tells whether a loop
  -- was started.
  unfoldable pub change_when :
      String
      → Option x.SocketAddr
      → (Client x ch → Client x ch)
      → Result (Unit {0}) Error
      → Task (Unit {0})
      → Client x ch
      → Client x ch × Task Bool
  unfolding change_to
  change_when addr proxy meanwhile (err e) t c = (c, fails e)
  change_when addr proxy meanwhile (ok _) waits c = (meanwhile c, waits)
  change_when addr proxy meanwhile (ok _) (fails e) c = (meanwhile c, fails e)
  change_when addr proxy meanwhile (ok _) (returns _) c =
      let r = change_to addr proxy (meanwhile c) in (r.0, returns r.1)

  unfoldable pub change_address :
      String
      → Option x.SocketAddr
      → List (Received x)
      → (Client x ch → Client x ch)
      → Client x ch
      → Client x ch × Task Bool
  unfolding stop await_stop change_when
  change_address addr proxy rs meanwhile c =
      let s = stop c in change_when addr proxy meanwhile s.1 (await_stop rs) s.0
