-- ===== src/Client/Sender/Failure.antt =====
-- src/client.rs: a call of `write_all` that fails in the sender task.
use electrum_sdk.Base.{
  ℕ, ◌≡◌, refl, ap, ◌∙◌, List, [], ◌∷◌, ◌++◌, Bool, true, false, Option, ok, All, arith,
}
use electrum_sdk.External.{External, Bytes}
use electrum_sdk.Channel.{Channel, IsChannel}
use electrum_sdk.Types.Message.{is_request, as_bytes}
use electrum_sdk.Client.{Client, Message, ClientEvent, connected}
use electrum_sdk.Client.Sender.{
  Effect, reply_to, write, send_one, batch_bytes, handle_event, after_event, run_sender,
}
use electrum_sdk.Client.Sender.Wire.{Writes, IsSending, successes, bytes_or_none, event_bytes}
use electrum_sdk.Client.Sender.Order.{Drained, drains_to, after_effects, batch_bytes_lem}
use electrum_sdk.Client.Connect.{Attempt, sleeps, loop_round, loop_status}

module _ {x : External} where
  -- The event has bytes to be written: a batch, or a request that can be encoded.
  abbrev pub IsWritable : ClientEvent x → Type 0
  IsWritable (ClientEvent.send_msg msg) =
      (is_request msg ≡ true) × ((b : Bytes) × (as_bytes x msg ≡ ok b))
  IsWritable (ClientEvent.send_batch batch) = Unit
  IsWritable ClientEvent.close = ⊥
  IsWritable ClientEvent.stop = ⊥

module _ {x : External} {ch : Channel (Message x)} where
  handle_event-failed :
      (event : ClientEvent x) (sender : Option ℕ) (c : Client x ch)
      → IsWritable event
      → (f : Effect) × (handle_event event sender false c ≡ (c, f))
        × (f.breaks ≡ true)
        × (bytes_or_none f.written ≡ event_bytes event)
        × (f.reply ≡ reply_to sender false)
  unfolding handle_event write send_one
  handle_event-failed (ClientEvent.send_msg msg) sender c (r, (b, e)) =
      (write b sender false, ground (arith, r, e), refl, ground (arith, r, e), refl)
  handle_event-failed (ClientEvent.send_batch batch) sender c h =
      (write (batch_bytes batch) sender false, refl, refl, batch_bytes_lem batch, refl)
  handle_event-failed ClientEvent.close sender c h = absurd h
  handle_event-failed ClientEvent.stop sender c h = absurd h

  loop_round-asleep :
      (a : Attempt x) (c : Client x ch)
      → c.scheduled_for_stop ≡ false
      → c.status ≡ connected
      → loop_round a c ≡ (c, sleeps)
  unfolding loop_round loop_status
  loop_round-asleep a c s e = rw (loop_round, s, e)

  breaks_off :
      (fs : List Effect) (f : Effect) (c : Client x ch) (rest : Client x ch × List Effect)
      → f.breaks ≡ true
      → after_effects fs (after_event (c, f) rest) ≡ (c, fs ++ f ∷ [])
  breaks_off fs f c rest e = rw (e, after_event) refl

module _ {x : External} {ch : Channel (Message x)} (law : IsChannel ch) where
  -- On a connected client that is not to be stopped, when a request or a batch cannot be written after
  -- others that were: the caller that waits for it is told so, and the sender task ends; the event is
  -- gone, those after it stay in the channel, and nothing else of the client is changed, so that it
  -- stays `Connected`, and the auto connect loop goes on sleeping.
  pub write_fails :
      (ms : List (Message x)) (m : Message x) (left : List (Message x)) (more : List Bool)
      (a : Attempt x) (c : Client x ch)
      → All IsSending ms
      → IsWritable m.event
      → ch.pending c.queue ≡ ms ++ m ∷ left
      → c.status ≡ connected
      → c.scheduled_for_stop ≡ false
      → (c' : Client x ch) × (fs : List Effect) × (f : Effect) × (run_sender
            (successes ms (false ∷ more))
            c
          ≡ (c', fs ++ f ∷ []))
        × Writes fs ms
        × (f.breaks ≡ true)
        × (bytes_or_none f.written ≡ event_bytes m.event)
        × (f.reply ≡ reply_to m.sender false)
        × Drained law left c c'
        × (loop_round a c' ≡ (c', sleeps))
  write_fails ms m left more a c h w e up going =
      let (c', fs, ran, wrote, d) = drains_to law ms m left false more c h e in
      let (f, handled, ended, tried, told) = handle_event-failed m.event m.sender c' w in
      (
        c',
        fs,
        f,
        ran
            ∙ ap
                (λ (r : Client x ch × Effect).
                  after_effects fs (after_event r (run_sender more r.0)))
                handled
            ∙ breaks_off fs f c' (run_sender more c') ended,
        wrote,
        ended,
        tried,
        told,
        d,
        loop_round-asleep a c' (ap (λ (k : Client x ch). k.scheduled_for_stop) d.rest ∙ going)
            (ap (λ (k : Client x ch). k.status) d.rest ∙ up),
      )
