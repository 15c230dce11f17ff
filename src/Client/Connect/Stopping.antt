-- ===== src/Client/Connect/Stopping.antt =====
-- What a stop does, and what it leaves to the auto connect loop.
use electrum_sdk.Base.{
  ℕ, ◌<◌, ◌≡◌, refl, ap, ◌∙◌, [], ◌∷◌, ◌++◌, Bool, true, false, Option, none, some, Result, ok,
  arith, length,
}
use electrum_sdk.External.{External, Bytes}
use electrum_sdk.Channel.{Channel, IsChannel}
use electrum_sdk.Types.Request.{Request}
use electrum_sdk.Types.Message.{as_bytes, compose_request}
use electrum_sdk.Client.{
  Client, Message, ClientEvent, ClientNotification, connected, disconnected, stopped, set_status,
  schedule_for_stop, publish, Error,
}
use electrum_sdk.Client.Send.{stop}
use electrum_sdk.Client.Send.Laws.{stop-room}
use electrum_sdk.Client.Sender.{Effect, write, handle_event, sender_step, no_effect}
use electrum_sdk.Client.Sender.Exchange.{sender_step-first, handle_event-request}
use electrum_sdk.Client.Connect.{
  Attempt, refused, sleeps, ends, loop_round, connect, start, is_startable,
}

module _ {x : External} where
  abbrev stop_message : Message x
  stop_message = record { event = ClientEvent.stop; sender = none }

module _ {x : External} {ch : Channel (Message x)} where
  -- The loop ends on a stopped client, and sleeps on a connected one, as long as no stop is scheduled.
  loop_round-stopped :
      (a : Attempt x) (c : Client x ch)
      → c.scheduled_for_stop ≡ false
      → c.status ≡ stopped
      → loop_round a c ≡ (c, ends)
  unfolding loop_round
  loop_round-stopped a c s e = rw (loop_round, s, e)

  -- `connect` on a client that is connected, connecting or disconnected only takes back a scheduled
  -- stop; no loop is started.
  pub connect_again :
      (wait : Bool) (a : Attempt x) (c : Client x ch)
      → is_startable c.status ≡ false
      → connect wait a c ≡ (schedule_for_stop false c, false)
  unfolding connect
  connect_again wait a c e = ground (arith, e)

  -- A client that is stopped while disconnected is `Stopped` after the next round of its loop, which
  -- ends. Nothing was queued, and no notification tells of the stop.
  pub stop_disconnected :
      (a : Attempt x) (c : Client x ch)
      → c.status ≡ disconnected
      → let r = loop_round a (stop c).0 in
        (r.1 ≡ ends)
        × (r.0.status ≡ stopped)
        × (r.0.scheduled_for_stop ≡ false)
        × (r.0.queue ≡ c.queue)
        × (r.0.published ≡ c.published)
  unfolding stop loop_round
  stop_disconnected a c e = ground (arith, e)

  -- A client that is started again after a stop gets a second loop; the loop from before, if it was
  -- asleep all the while, goes on too.
  restart_keeps_loop :
      (c : Client x ch)
      → c.status ≡ stopped
      → ((start c).1 ≡ true) × ((loop_round refused (start c).0).1 ≡ sleeps)
  unfolding start loop_round
  restart_keeps_loop c e = ground (arith, e)

  -- When a request cannot be written, the sender task ends and leaves the client as it was; the loop
  -- of a connected client goes on sleeping, so that the client stays `Connected`.
  write_failure_unnoticed :
      (id : ℕ) (req : Request x) (sender : Option ℕ) (b : Bytes) (a : Attempt x) (c : Client x ch)
      → c.status ≡ connected
      → c.scheduled_for_stop ≡ false
      → as_bytes x (compose_request id req) ≡ ok b
      → let r = handle_event (ClientEvent.send_msg (compose_request id req)) sender false c in
        (r.0 ≡ c) × (r.1.breaks ≡ true) × (loop_round a r.0 ≡ (c, sleeps))
  unfolding loop_round write
  write_failure_unnoticed id req sender b a c s n e =
      rw (handle_event-request id req sender false b c e) (refl, refl, ground (arith, s, n))

module _ {x : External} {ch : Channel (Message x)} where
  pub handle_event-stop :
      (sender : Option ℕ) (success : Bool) (c : Client x ch)
      → c.scheduled_for_stop ≡ true
      → handle_event ClientEvent.stop sender success c ≡ (
        publish ClientNotification.stop (schedule_for_stop false (set_status stopped c)),
        record no_effect { breaks = true; shutdown = true },
      )
  unfolding handle_event
  handle_event-stop sender success c e = ground (arith, e)

module _ {x : External} {ch : Channel (Message x)} (law : IsChannel ch) where
  -- The stop of a connected client with an empty channel: the sender task shuts the stream down and
  -- ends, the client is `Stopped`, with the schedule taken back and the stop published, and the auto
  -- connect loop ends at its next round.
  pub stop_connected :
      (success : Bool) (a : Attempt x) (c : Client x ch)
      → c.status ≡ connected
      → ch.pending c.queue ≡ []
      → 0 < ch.capacity c.queue
      → (c' : Client x ch) × (f : Effect) × (sender_step success (stop c).0 ≡ some (c', f))
        × (f.breaks ≡ true)
        × (f.shutdown ≡ true)
        × (c'.status ≡ stopped)
        × (c'.scheduled_for_stop ≡ false)
        × (c'.published ≡ c.published ++ ClientNotification.stop ∷ [])
        × (loop_round a c' ≡ (c', ends))
  unfolding publish schedule_for_stop set_status
  stop_connected success a c e empty room =
      let (c1, sent, q) = (stop-room law c (rw e) (omega (arith, ap length empty))).1 in
      let scheduled = ap (λ (d : Client x ch). d.scheduled_for_stop) q.rest in
      let (taken, stepped, left) =
        sender_step-first law success c1 stop_message []
          (q.pending ∙ ap (λ ms. ms ++ stop_message ∷ []) empty) in
      let d : Client x ch = record c1 { queue = taken } in
      let e : d.scheduled_for_stop ≡ true = scheduled in
      (
        publish ClientNotification.stop (schedule_for_stop false (set_status stopped d)),
        record no_effect { breaks = true; shutdown = true },
        ap (λ (r : Client x ch × Result (Unit {0}) Error). sender_step success r.0) sent
            ∙ stepped
            ∙ ap some (handle_event-stop none success d e),
        refl,
        refl,
        refl,
        refl,
        ap (λ (k : Client x ch). k.published ++ ClientNotification.stop ∷ []) q.rest,
        loop_round-stopped a _ refl refl,
      )
