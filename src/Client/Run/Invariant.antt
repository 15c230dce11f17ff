-- ===== src/Client/Run/Invariant.antt =====
-- The scripts and the notifications, in any order of the steps.
use electrum_sdk.Base.{
  ℕ, sym, subst, String, Bool, false, Option, none, some, All, Bool-cases, Option-cases, inl, inr,
}
use electrum_sdk.Base.Set.{Distinct}
use electrum_sdk.External.{External}
use electrum_sdk.Channel.{Channel}
use electrum_sdk.Types.Hash.{hash_eq}
use electrum_sdk.Client.{
  Client, Message, ClientEvent, ClientNotification, publish, set_headers, set_scripts, set_status,
  schedule_for_stop, new,
}
use electrum_sdk.Client
use electrum_sdk.Client.Receive.Nulls.{NotNull, NoNull, publish-NoNull, receive-NoNull}
use electrum_sdk.Client.Sender.{Effect, sender_step, handle_event}
use electrum_sdk.Client.Subscribe.Laws.{
  add_script-Distinct, drop_script-Distinct, add_scripts-Distinct,
}
use electrum_sdk.Client.Run.Leaves.{
  Leaves, send_msg-Leaves, send_batch_msg-Leaves, disconnect-Leaves, stop-Leaves,
  add_script-published, drop_script-published, add_scripts-published, receive-scripts,
}
use electrum_sdk.Client.Run.{
  Step, sends, sends_batch, marks_headers, adds, drops, adds_all, disconnects, stops, receives,
  takes, readdresses, marks_status, schedules, Run, here, onward,
}

module _ {x : External} {ch : Channel (Message x)} where
  -- No script is in the set twice, and no `Null` response was published.
  abbrev pub IsWellFormed : Client x ch → Type 0
  IsWellFormed c = Distinct c.scripts × NoNull c

  Leaves-IsWellFormed : {c c' : Client x ch} → Leaves c c' → IsWellFormed c → IsWellFormed c'
  Leaves-IsWellFormed l (d, n) =
      (subst Distinct (sym l.scripts) d, subst (All NotNull) (sym l.published) n)

  handle_event-IsWellFormed :
      (event : ClientEvent x) (sender : Option ℕ) (success : Bool) (c : Client x ch)
      → IsWellFormed c
      → IsWellFormed (handle_event event sender success c).0
  unfolding handle_event set_status schedule_for_stop
  handle_event-IsWellFormed (ClientEvent.send_msg msg) sender success c w = w
  handle_event-IsWellFormed (ClientEvent.send_batch batch) sender success c w = w
  handle_event-IsWellFormed ClientEvent.close sender success c w = w
  handle_event-IsWellFormed ClientEvent.stop sender success c w =
      elim (Bool-cases c.scheduled_for_stop) [
        | inl yes' ↦ rw yes' (
          unfold publish in w.0,
          publish-NoNull ClientNotification.stop
              (schedule_for_stop false (set_status Client.stopped c)) tt w.1,
        )
        | inr no' ↦ rw no' w
      ]

  abbrev RoundIsWellFormed : Option (Client x ch × Effect) → Type 0
  RoundIsWellFormed none = Unit
  RoundIsWellFormed (some (c', f)) = IsWellFormed c'

  sender_step-IsWellFormed :
      (success : Bool) (c : Client x ch)
      → IsWellFormed c
      → RoundIsWellFormed (sender_step success c)
  unfolding sender_step
  sender_step-IsWellFormed success c w = elim (Option-cases (ch.recv c.queue)) [
    | inl empty ↦ rw (empty, sender_step) tt
    | inr ((m, q), first) ↦
        rw (first, sender_step)
          (handle_event-IsWellFormed m.event m.sender success (record c { queue = q }) w)
  ]

  -- Every step of every task keeps the set of scripts without repetitions and the notifications
  -- without `Null`.
  pub Step-IsWellFormed :
      {n : ℕ} {c c' : Client x ch} → Step n c c' → IsWellFormed c → IsWellFormed c'
  unfolding set_headers set_status schedule_for_stop
  Step-IsWellFormed (sends req wait {c}) w = Leaves-IsWellFormed (send_msg-Leaves req wait c) w
  Step-IsWellFormed (sends_batch reqs wait {c}) w =
      Leaves-IsWellFormed (send_batch_msg-Leaves reqs wait c) w
  Step-IsWellFormed (marks_headers enabled {c}) w = w
  Step-IsWellFormed (adds s {c}) w =
      (add_script-Distinct s c w.0, subst (All NotNull) (sym (add_script-published s c)) w.1)
  Step-IsWellFormed (drops s {c}) w =
      (drop_script-Distinct s c w.0, subst (All NotNull) (sym (drop_script-published s c)) w.1)
  Step-IsWellFormed (adds_all ss {c}) w =
      (add_scripts-Distinct ss c w.0, subst (All NotNull) (sym (add_scripts-published ss c)) w.1)
  Step-IsWellFormed (disconnects {c}) w = Leaves-IsWellFormed (disconnect-Leaves c) w
  Step-IsWellFormed (stops {c}) w = Leaves-IsWellFormed (stop-Leaves c) w
  Step-IsWellFormed (receives r {c}) w =
      (subst Distinct (sym (receive-scripts r c)) w.0, receive-NoNull r c w.1)
  Step-IsWellFormed (takes success f {c} {c'} e) w =
      subst RoundIsWellFormed e (sender_step-IsWellFormed success c w)
  Step-IsWellFormed (readdresses addr proxy {c}) w = w
  Step-IsWellFormed (marks_status status {c}) w = w
  Step-IsWellFormed (schedules value {c}) w = w

  pub Run-IsWellFormed :
      {n : ℕ} {c c' : Client x ch} → Run n c c' → IsWellFormed c → IsWellFormed c'
  Run-IsWellFormed here w = w
  Run-IsWellFormed (onward step rest) w = Run-IsWellFormed rest (Step-IsWellFormed step w)

  -- After any steps of the callers, the tasks and the loop from a new client on, in any order: no script
  -- is in the set twice, and no `Null` response was published.
  Run-new-IsWellFormed :
      (addr : String) (proxy : Option x.SocketAddr) (n : ℕ) (c : Client x ch)
      → Run n (new x ch addr proxy) c
      → IsWellFormed c
  unfolding new
  Run-new-IsWellFormed addr proxy n c run = Run-IsWellFormed run (tt, tt)
