-- ===== src/Client/Connect/Recovery.antt =====
-- src/client.rs: from the end of a connection to the next one.
use electrum_sdk.Base.{
  ℕ, zero, suc, ◌<◌, ◌≡◌, refl, ap, ◌∙◌, List, [], ◌∷◌, ◌++◌, map, Bool, true, false, none, length,
  All, arith,
}
use electrum_sdk.External.{External}
use electrum_sdk.Channel.{Channel, IsChannel}
use electrum_sdk.Types.Hash.{ScriptHash}
use electrum_sdk.Types.Request.{Request}
use electrum_sdk.Client.{
  Client, Message, ClientEvent, connected, connecting, disconnected, set_status,
}
use electrum_sdk.Client.Send.Laws.{Queued}
use electrum_sdk.Client.Send.Batch.{file_all, messages_from, queue-file_all}
use electrum_sdk.Client.Receive.{Read, receive}
use electrum_sdk.Client.Sender.{Effect, run_sender}
use electrum_sdk.Client.Sender.Wire.{Writes, IsSending, successes}
use electrum_sdk.Client.Sender.Order.{Drained}
use electrum_sdk.Client.Await.{Received}
use electrum_sdk.Client.Connect.{
  LoopFlow, refused, accepted, sleeps, sleeps_or_blocks, after_round, try_connect, run_loop,
}
use electrum_sdk.Client.Connect.Headers.{renewal_message}
use electrum_sdk.Client.Connect.Reconnect.{try_connect-resubscribes}
use electrum_sdk.Client.Connect.Persistence.{refusals_then, loop_round-tries}
use electrum_sdk.Client.Connect.Closing.{IsEnd, closing, end_of_stream}

module _ {x : External} where
  -- The requests that renew the subscriptions to the scripts.
  abbrev pub renewals : List ScriptHash → List (Request x)
  renewals ss = map Request.script_subscribe ss

module _ {x : External} {ch : Channel (Message x)} (law : IsChannel ch) where
  -- The client is connected, and the subscriptions to the scripts are filed and queued; nothing else is
  -- changed.
  pub record Renewed (ss : List ScriptHash) (c c' : Client x ch) : Type 0 where
    pub status : c'.status ≡ connected
    pub queued :
        Queued law
          (ClientEvent.send_batch (messages_from c.last_id (renewals ss)))
          none
          (file_all (renewals ss) (set_status connected c))
          c'

  run_loop-renews :
      (n : ℕ) (rs : List (Received x)) (s : ScriptHash) (ss : List ScriptHash) (c : Client x ch)
      → c.status ≡ disconnected
      → c.scheduled_for_stop ≡ false
      → c.headers ≡ false
      → c.scripts ≡ s ∷ ss
      → length (ch.pending c.queue) < ch.capacity c.queue
      → (c' : Client x ch) × (run_loop (refusals_then n (accepted rs)) c ≡ (c', sleeps))
        × Renewed (s ∷ ss) c c'
  unfolding run_loop try_connect set_status
  run_loop-renews zero rs s ss c d k h e room =
      let (c', made, up, q) = try_connect-resubscribes law rs s ss c h e room in
      (
        c',
        ap (λ (r : Client x ch × LoopFlow). after_round r (r.0, sleeps))
            (loop_round-tries (accepted rs) c d k
              ∙ ap (λ (r : Client x ch × Bool). (r.0, sleeps_or_blocks r.1)) made),
        record { status = up; queued = q },
      )
  run_loop-renews (suc n) rs s ss c d k h e room =
      let again : Client x ch = set_status disconnected (set_status connecting c) in
      let (c', ran, w) = run_loop-renews n rs s ss again refl k h e room in
      (
        c',
        ap
              (λ (r : Client x ch × LoopFlow).
                after_round r (run_loop (refusals_then n (accepted rs)) r.0))
              (loop_round-tries refused c d k)
            ∙ ran,
        record { status = w.status; queued = w.queued },
      )

  -- A connected client that is not to be stopped, is subscribed to some scripts but not to the headers,
  -- and has room in its channel, which holds only messages and batches. After the end of the stream
  -- the sender task, whose calls of `write_all` succeed, writes what waits, and ends; and the auto
  -- connect loop, however many attempts are refused before one is accepted, connects the client again,
  -- and queues one batch, alone in the channel, that subscribes to every script of the set under the
  -- next ids. The requests of that batch are filed; nothing else is changed.
  pub recovers :
      (r : Read) (ms : List (Message x)) (more : List Bool) (n : ℕ) (rs : List (Received x))
      (s : ScriptHash) (ss : List ScriptHash) (c : Client x ch)
      → IsEnd r
      → c.status ≡ connected
      → c.scheduled_for_stop ≡ false
      → c.headers ≡ false
      → c.scripts ≡ s ∷ ss
      → All IsSending ms
      → ch.pending c.queue ≡ ms
      → length (ch.pending c.queue) < ch.capacity c.queue
      → (c' : Client x ch) × (fs : List Effect) × (run_sender
            (successes ms (true ∷ more))
            (receive r c).0
          ≡ (c', fs ++ closing ∷ []))
        × Writes fs ms
        × Drained law [] (set_status disconnected c) c'
        × ((c'' : Client x ch) × (run_loop (refusals_then n (accepted rs)) c' ≡ (c'', sleeps))
            × Renewed (s ∷ ss) c' c''
            × (ch.pending c''.queue ≡ renewal_message c.last_id (s ∷ ss) ∷ []))
  unfolding set_status
  recovers r ms more n rs s ss c h up going plain scripts sending waiting room =
      let (c', fs, ran, wrote, d, next) =
        end_of_stream law r ms more refused c h up going sending waiting room in
      let (c'', looped, w) =
        run_loop-renews n rs s ss c' (ap (λ (k : Client x ch). k.status) d.rest)
          (ap (λ (k : Client x ch). k.scheduled_for_stop) d.rest ∙ going)
          (ap (λ (k : Client x ch). k.headers) d.rest ∙ plain)
          (ap (λ (k : Client x ch). k.scripts) d.rest ∙ scripts)
          (omega (arith, ap length d.pending, d.capacity)) in
      let batch = renewal_message c'.last_id (s ∷ ss) in
      (
        c',
        fs,
        ran,
        wrote,
        d,
        (
          c'',
          looped,
          w,
          w.queued.pending
              ∙ ap (λ q. ch.pending q ++ batch ∷ [])
                  (queue-file_all (renewals (s ∷ ss)) (set_status connected c'))
              ∙ ap (λ l. l ++ batch ∷ []) d.pending
              ∙ ap (λ i. renewal_message i (s ∷ ss) ∷ [])
                  (ap (λ (k : Client x ch). k.last_id) d.rest),
        ),
      )
