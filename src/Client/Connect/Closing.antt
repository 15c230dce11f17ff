-- ===== src/Client/Connect/Closing.antt =====
-- src/client.rs: the end of a connection, by the end of the stream or by a stop, through the tasks that
-- take part in it: the receiver task or a caller, the channel, the sender task, the auto connect loop.
use electrum_sdk.Base.{
  ◌<◌, ◌≡◌, refl, ap, ◌∙◌, String, List, [], ◌∷◌, ◌++◌, Bool, true, false, Option, none, Result, ok,
  length, All,
}
use electrum_sdk.External.{External}
use electrum_sdk.Channel.{Channel, IsChannel}
use electrum_sdk.Client.{
  Client, Message, ClientEvent, ClientNotification, Error, connected, disconnected, stopped,
  set_status, schedule_for_stop, publish,
}
use electrum_sdk.Client.Send.{stop, disconnect}
use electrum_sdk.Client.Send.Laws.{stop-room}
use electrum_sdk.Client.Receive.{Read, eof, receive}
use electrum_sdk.Client.Receive
use electrum_sdk.Client.Sender.{Effect, handle_event, after_event, no_effect, run_sender}
use electrum_sdk.Client.Sender.Wire.{Writes, IsSending, successes}
use electrum_sdk.Client.Sender.Order.{Drained, drains_to, after_effects}
use electrum_sdk.Client.Await.{Received, received, lost, elapsed, returns, Task}
use electrum_sdk.Client.Connect.{
  Attempt, loop_round, try_connect, sleeps_or_blocks, change_address, change_when, change_to,
  await_stop, start,
}
use electrum_sdk.Client.Connect.Persistence.{loop_round-tries}
use electrum_sdk.Client.Connect.Stopping.{handle_event-stop}

-- The stream has ended, or cannot be read.
abbrev pub IsEnd : Read → Type 0
IsEnd (Receive.line text) = ⊥
IsEnd eof = Unit
IsEnd Receive.failed = Unit

abbrev pub closing : Effect
closing = record no_effect { breaks = true; shutdown = true }

module _ {x : External} where
  abbrev message_of : ClientEvent x → Message x
  message_of event = record { event = event; sender = none }

  -- The wait of `change_address` ends, whatever comes before the stop.
  await_stop-stop :
      (before after : List (Received x))
      → await_stop (before ++ received ClientNotification.stop ∷ after) ≡ returns tt
  unfolding await_stop
  await_stop-stop [] after = refl
  await_stop-stop (received (ClientNotification.response id r) ∷ rs) after =
      await_stop-stop rs after
  await_stop-stop (received (ClientNotification.notification n) ∷ rs) after =
      await_stop-stop rs after
  await_stop-stop (received ClientNotification.stop ∷ rs) after = refl
  await_stop-stop (lost ∷ rs) after = refl
  await_stop-stop (elapsed ∷ rs) after = await_stop-stop rs after

module _ {x : External} {ch : Channel (Message x)} where
  receive-end :
      (r : Read) (c : Client x ch) → IsEnd r → receive r c ≡ ((disconnect c).0, Receive.ends)
  unfolding receive
  receive-end (Receive.line text) c h = absurd h
  receive-end eof c h = refl
  receive-end Receive.failed c h = refl

module _ {x : External} {ch : Channel (Message x)} (law : IsChannel ch) where
  -- A connected client that is not to be stopped, whose channel has room, and holds only messages and
  -- batches: after the end of the stream the sender task, whose calls of `write_all` succeed, writes
  -- what waits, tells its callers, shuts the stream down and ends; the client is disconnected, with an
  -- empty channel and nothing else changed, and the next round of the auto connect loop tries to
  -- connect again.
  pub end_of_stream :
      (r : Read) (ms : List (Message x)) (more : List Bool) (a : Attempt x) (c : Client x ch)
      → IsEnd r
      → c.status ≡ connected
      → c.scheduled_for_stop ≡ false
      → All IsSending ms
      → ch.pending c.queue ≡ ms
      → length (ch.pending c.queue) < ch.capacity c.queue
      → (c' : Client x ch) × (fs : List Effect) × (run_sender
            (successes ms (true ∷ more))
            (receive r c).0
          ≡ (c', fs ++ closing ∷ []))
        × Writes fs ms
        × Drained law [] (set_status disconnected c) c'
        × (loop_round a c' ≡ ((try_connect a c').0, sleeps_or_blocks (try_connect a c').1))
  unfolding handle_event set_status
  end_of_stream r ms more a c h up going sending waiting room =
      let (c1, sent, q) = (stop-room law c (rw up) room).0 in
      let (d, fs, ran, wrote, k) =
        drains_to law ms (message_of ClientEvent.close) [] true more c1 sending
          (q.pending ∙ ap (λ l. l ++ message_of ClientEvent.close ∷ []) waiting) in
      let rest : Path (Client x ch) (record d { queue = c.queue }) c =
        ap (λ (e : Client x ch). record e { queue = c.queue }) k.rest ∙ q.rest in
      (
        set_status disconnected d,
        fs,
        ap (λ (e : Client x ch × Receive.Flow). run_sender (successes ms (true ∷ more)) e.0)
              (receive-end r c h)
            ∙ ap
                (λ (e : Client x ch × Result (Unit {0}) Error).
                  run_sender (successes ms (true ∷ more)) e.0)
                sent
            ∙ ran,
        wrote,
        record {
          pending = k.pending;
          capacity = k.capacity ∙ q.capacity;
          rest = ap (set_status disconnected) rest;
        },
        loop_round-tries a (set_status disconnected d) refl
            (ap (λ (e : Client x ch). e.scheduled_for_stop) rest ∙ going),
      )

module _ {x : External} {ch : Channel (Message x)} where
  -- The client after a change of the address: disconnected, not to be stopped, with the stop published.
  abbrev pub moved : String → Option x.SocketAddr → Client x ch → Client x ch
  moved addr proxy c = record c {
    addr = addr;
    proxy = proxy;
    status = disconnected;
    schedule = record { scheduled_for_stop = false };
    published = c.published ++ ClientNotification.stop ∷ [];
  }

  change_when-returns :
      (addr : String) (proxy : Option x.SocketAddr) (meanwhile : Client x ch → Client x ch)
      (c d : Client x ch)
      → meanwhile c
        ≡ publish ClientNotification.stop (schedule_for_stop false (set_status stopped d))
      → change_when addr proxy meanwhile (ok tt) (returns tt) c ≡ (moved addr proxy d, returns true)
  unfolding change_when change_to start publish schedule_for_stop set_status
  change_when-returns addr proxy meanwhile c d e =
      ap (λ (k : Client x ch). let r = change_to addr proxy k in (r.0, returns r.1)) e

module _ {x : External} {ch : Channel (Message x)} (law : IsChannel ch) where
  -- A change of the address of a connected client whose channel has room, and holds only messages and
  -- batches: when the sender task runs during the wait, its calls of `write_all` succeed, and the
  -- subscription receives the stop at some time, then the call returns, and a loop is started; what
  -- waited is written, its callers are told, the client is disconnected with the new address and proxy, an empty channel
  -- and the stop published, and nothing else is changed; the next round of the loop tries to connect.
  pub change_connected :
      (addr : String) (proxy : Option x.SocketAddr) (before after : List (Received x))
      (ms : List (Message x)) (more : List Bool) (a : Attempt x) (c : Client x ch)
      → c.status ≡ connected
      → All IsSending ms
      → ch.pending c.queue ≡ ms
      → length (ch.pending c.queue) < ch.capacity c.queue
      → let sender_task : Client x ch → Client x ch × List Effect =
          run_sender (successes ms (true ∷ more)) in
        (c' : Client x ch) × (change_address addr proxy
            (before ++ received ClientNotification.stop ∷ after)
            (λ d. (sender_task d).0)
            c
          ≡ (c', returns true))
        × ((fs : List Effect) × ((sender_task (stop c).0).1 ≡ fs ++ closing ∷ []) × Writes fs ms)
        × Drained law [] (moved addr proxy c) c'
        × (loop_round a c' ≡ ((try_connect a c').0, sleeps_or_blocks (try_connect a c').1))
  unfolding change_address schedule_for_stop
  change_connected addr proxy before after ms more a c up sending waiting room =
      let (c1, sent, q) = (stop-room law c (rw up) room).1 in
      let (d, fs, ran, wrote, k) =
        drains_to law ms (message_of ClientEvent.stop) [] true more c1 sending
          (q.pending ∙ ap (λ l. l ++ message_of ClientEvent.stop ∷ []) waiting) in
      let rest : Path (Client x ch) (record d { queue = c.queue }) (schedule_for_stop true c) =
        ap (λ (e : Client x ch). record e { queue = c.queue }) k.rest ∙ q.rest in
      let meanwhile : Client x ch → Client x ch =
        λ e. (run_sender (successes ms (true ∷ more)) e).0 in
      let ended : Path (Client x ch × List Effect) (run_sender (successes ms (true ∷ more)) c1) (
        publish ClientNotification.stop (schedule_for_stop false (set_status stopped d)),
        fs ++ closing ∷ [],
      ) =
        ran
        ∙ ap (λ (r : Client x ch × Effect). after_effects fs (after_event r (run_sender more r.0)))
            (handle_event-stop none true d (ap (λ (e : Client x ch). e.scheduled_for_stop) rest)) in
      (
        moved addr proxy d,
        ap
              (λ (s : Client x ch × Result (Unit {0}) Error).
                change_when addr proxy meanwhile s.1
                  (await_stop (before ++ received ClientNotification.stop ∷ after)) s.0)
              sent
            ∙ ap (λ (t : Task (Unit {0})). change_when addr proxy meanwhile (ok tt) t c1)
                (await_stop-stop before after)
            ∙ change_when-returns addr proxy meanwhile c1 d
                (ap (λ (r : Client x ch × List Effect). r.0) ended),
        (
          fs,
          ap
                (λ (s : Client x ch × Result (Unit {0}) Error).
                  (run_sender (successes ms (true ∷ more)) s.0).1)
                sent
              ∙ ap (λ (r : Client x ch × List Effect). r.1) ended,
          wrote,
        ),
        record {
          pending = k.pending;
          capacity = k.capacity ∙ q.capacity;
          rest = ap (moved addr proxy) rest;
        },
        loop_round-tries a (moved addr proxy d) refl refl,
      )
