-- ===== src/Client/Sender/Order.antt =====
-- src/client.rs: the events that wait in the channel, and what the sender task writes for them.
use electrum_sdk.Base.{
  map, ℕ, ◌≡◌, refl, ap, ◌∙◌, List, [], ◌∷◌, ◌++◌, append-nil, Bool, true, false, Option, arith,
  All, Result-cases, Bool-cases, inl, inr,
}
use electrum_sdk.External.{External}
use electrum_sdk.Channel.{Channel, IsChannel}
use electrum_sdk.Types.Message.{JsonRpcMsg, as_bytes, is_request}
use electrum_sdk.Client.{Client, Message, ClientEvent}
use electrum_sdk.Client.Sender.{
  Effect, write, send_one, batch_bytes, handle_event, sender_step, after_event, run_sender,
}
use electrum_sdk.Client.Sender.Wire.{
  bytes_or_none, written_bytes, lines_of, event_bytes, told_of, Writes, IsSendingEvent, IsSending,
  successes,
}

module _ {x : External} where
  pub batch_bytes_lem : (msgs : List (JsonRpcMsg x)) → batch_bytes msgs ≡ lines_of msgs
  unfolding batch_bytes is_request
  batch_bytes_lem [] = refl
  batch_bytes_lem (msg ∷ msgs) =
      let rest = batch_bytes_lem msgs in
      elim (Result-cases (as_bytes x msg)) [
        | inl (b, e) ↦ elim (Bool-cases (is_request msg)) [
          | inl r ↦ rw (e, r) (ap (λ l. b ++ l) rest)
          | inr r ↦ rw (e, r) rest
        ]
        | inr (er, e) ↦ ground (arith, e, rest)
      ]

  send_one-written :
      (msg : JsonRpcMsg x) (sender : Option ℕ)
      → ((send_one msg sender true).breaks ≡ false)
        × (bytes_or_none (send_one msg sender true).written
            ≡ event_bytes (ClientEvent.send_msg msg))
        × ((send_one msg sender true).reply ≡ told_of (ClientEvent.send_msg msg) sender true)
  unfolding send_one write is_request
  send_one-written msg sender = elim (Result-cases (as_bytes x msg)) [
    | inl (b, e) ↦ elim (Bool-cases (is_request msg)) [
      | inl r ↦ rw (e, r) (refl, refl, refl)
      | inr r ↦ rw (e, r) (refl, refl, refl)
    ]
    | inr (er, e) ↦ ground (arith, e)
  ]

module _ {x : External} {ch : Channel (Message x)} where
  -- What the loop gives after the rounds that had the effects.
  abbrev pub after_effects : List Effect → Client x ch × List Effect → Client x ch × List Effect
  after_effects fs r = (r.0, fs ++ r.1)

  handle_event-sending :
      (event : ClientEvent x) (sender : Option ℕ) (c : Client x ch)
      → IsSendingEvent event
      → (f : Effect) × (handle_event event sender true c ≡ (c, f))
        × (f.breaks ≡ false)
        × (bytes_or_none f.written ≡ event_bytes event)
        × (f.reply ≡ told_of event sender true)
  unfolding handle_event write
  handle_event-sending (ClientEvent.send_msg msg) sender c h =
      let (goes_on, wrote, replied) = send_one-written msg sender in
      (send_one msg sender true, refl, goes_on, wrote, replied)
  handle_event-sending (ClientEvent.send_batch batch) sender c h =
      (write (batch_bytes batch) sender true, refl, refl, batch_bytes_lem batch, refl)
  handle_event-sending ClientEvent.close sender c h = absurd h
  handle_event-sending ClientEvent.stop sender c h = absurd h

module _ {x : External} {ch : Channel (Message x)} (law : IsChannel ch) where
  -- Some events are left in the channel, the capacity is the same, and nothing else of the client is
  -- changed.
  pub record Drained (left : List (Message x)) (c c' : Client x ch) : Type 0 where
    pub pending : ch.pending c'.queue ≡ left
    pub capacity : ch.capacity c'.queue ≡ ch.capacity c.queue
    pub rest : record c' { queue = c.queue } ≡ c

  after_event-goes_on :
      (c : Client x ch) (f : Effect) (r : Client x ch × List Effect)
      → f.breaks ≡ false
      → after_event (c, f) r ≡ (r.0, f ∷ r.1)
  after_event-goes_on c f r e = rw (e, after_event) refl

  run_sender-first :
      (success : Bool) (rest : List Bool) (c : Client x ch) (m : Message x)
      (left : List (Message x))
      → ch.pending c.queue ≡ m ∷ left
      → (q : ch.Chan) × (run_sender (success ∷ rest) c ≡ (
          let r = handle_event m.event m.sender success (record c { queue = q }) in
          after_event r (run_sender rest r.0)))
        × (ch.pending q ≡ left)
        × (ch.capacity q ≡ ch.capacity c.queue)
  unfolding run_sender sender_step
  run_sender-first success rest c m left e =
      let (q, taken, held, size) = law.recv_first c.queue m left e in
      (q, rw (run_sender, sender_step, taken) refl, held, size)

  pub drains :
      (ms left : List (Message x)) (ss : List Bool) (c : Client x ch)
      → All IsSending ms
      → ch.pending c.queue ≡ ms ++ left
      → (c' : Client x ch) × (fs : List Effect) × (run_sender (successes ms ss) c
          ≡ after_effects fs (run_sender ss c'))
        × Writes fs ms
        × Drained left c c'
  drains [] left ss c h e = (
    c,
    [],
    refl,
    record { written = refl; replies = refl },
    record { pending = e; capacity = refl; rest = refl },
  )
  drains (m ∷ ms) left ss c h e =
      let (q, first, held, size) = run_sender-first true (successes ms ss) c m (ms ++ left) e in
      let (f, handled, goes_on, wrote, replied) =
        handle_event-sending m.event m.sender (record c { queue = q }) h.0 in
      let (c', fs, ran, wrote_all, d) = drains ms left ss (record c { queue = q }) h.1 held in
      (
        c',
        f ∷ fs,
        first
            ∙ ap (λ (r : Client x ch × Effect). after_event r (run_sender (successes ms ss) r.0))
                handled
            ∙ after_event-goes_on (record c { queue = q }) f
                (run_sender (successes ms ss) (record c { queue = q })) goes_on
            ∙ ap (after_effects (f ∷ [])) ran,
        record {
          written =
              ap (λ b. b ++ written_bytes fs) wrote
              ∙ ap (λ b. event_bytes m.event ++ b) wrote_all.written;
          replies =
              ap (λ r. r ∷ map (λ (f : Effect). f.reply) fs) replied
              ∙ ap (λ rs. told_of m.event m.sender true ∷ rs) wrote_all.replies;
        },
        record {
          pending = d.pending;
          capacity = d.capacity ∙ size;
          rest = ap (λ (k : Client x ch). record k { queue = c.queue }) d.rest;
        },
      )

  -- When only messages and batches wait in front of some other events, and each `write_all` succeeds,
  -- the loop of the sender task writes their bytes in the order in which they were sent, and tells
  -- each caller that waits so; a message that is no request, or cannot be encoded, adds no bytes, and
  -- its caller is told nothing. The other events stay in the channel, and nothing else of the client
  -- is changed.
  pub sends_in_order :
      (ms left : List (Message x)) (c : Client x ch)
      → All IsSending ms
      → ch.pending c.queue ≡ ms ++ left
      → (c' : Client x ch) × (fs : List Effect) × (run_sender (successes ms []) c ≡ (c', fs))
        × Writes fs ms
        × Drained left c c'
  unfolding run_sender
  sends_in_order ms left c h e =
      let (c', fs, ran, wrote, d) = drains ms left [] c h e in
      (c', fs, ran ∙ ap (λ gs. (c', gs)) (append-nil fs), wrote, d)

  -- The loop up to an event `m` that comes after messages and batches.
  pub drains_to :
      (ms : List (Message x)) (m : Message x) (left : List (Message x)) (success : Bool)
      (more : List Bool) (c : Client x ch)
      → All IsSending ms
      → ch.pending c.queue ≡ ms ++ m ∷ left
      → (c' : Client x ch) × (fs : List Effect) × (run_sender (successes ms (success ∷ more)) c
          ≡ after_effects fs (
              let r = handle_event m.event m.sender success c' in
              after_event r (run_sender more r.0)))
        × Writes fs ms
        × Drained left c c'
  drains_to ms m left success more c h e =
      let (d, fs, ran, wrote, k) = drains ms (m ∷ left) (success ∷ more) c h e in
      let (q, first, held, size) = run_sender-first success more d m left k.pending in
      (
        record d { queue = q },
        fs,
        ran ∙ ap (after_effects fs) first,
        wrote,
        record { pending = held; capacity = size ∙ k.capacity; rest = k.rest },
      )
