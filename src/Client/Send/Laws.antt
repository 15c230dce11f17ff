-- ===== src/Client/Send/Laws.antt =====
-- What `send_msg`, `send_batch_msg`, `disconnect` and `stop` leave in the channel and the inventory.
use electrum_sdk.Base.{
  ℕ, ◌≤◌, ◌<◌, ◌≡◌, refl, [], ◌∷◌, ◌++◌, true, false, Option, none, some, Result, ok, err, length,
  nat_eq, if◌then◌else◌,
}
use electrum_sdk.Base.Map
use electrum_sdk.Base.Map.{get-insert}
use electrum_sdk.External.{External}
use electrum_sdk.Channel.{Channel, IsChannel}
use electrum_sdk.Types.Request.{Request}
use electrum_sdk.Types.Message.{compose_request}
use electrum_sdk.Client.{Client, Message, ClientEvent, Error, message_not_sent, schedule_for_stop}
use electrum_sdk.Client.Send.{
  Wait, of_reply, is_open, send_client_event, disconnect, stop, register, send_and_wait, send_msg,
}

-- The number of the oneshot channel of a wait, and the result when the event was taken.
abbrev pub slot : Wait → Option ℕ
slot none = none
slot (some (sender, reply)) = some sender

abbrev pub outcome {ℓ} : {A : Type ℓ} → A → Wait → Result A Error
outcome a none = ok a
outcome a (some (sender, reply)) = of_reply a reply

module _ {x : External} {ch : Channel (Message x)} (law : IsChannel ch) where
  -- The event is the next one in the channel, and nothing else is changed.
  pub record Queued (event : ClientEvent x) (sender : Option ℕ) (c c' : Client x ch) : Type 0 where
    pub pending :
        ch.pending c'.queue ≡ ch.pending c.queue ++ record { event = event; sender = sender } ∷ []
    pub capacity : ch.capacity c'.queue ≡ ch.capacity c.queue
    pub rest : record c' { queue = c.queue } ≡ c

  send_client_event-room :
      (event : ClientEvent x) (sender : Option ℕ) (c : Client x ch)
      → length (ch.pending c.queue) < ch.capacity c.queue
      → (c' : Client x ch) × (send_client_event event sender c ≡ (c', ok tt))
        × Queued event sender c c'
  unfolding send_client_event
  send_client_event-room event sender c room =
      let (q, sent, holds, size) =
        law.try_send_room c.queue (record { event = event; sender = sender }) room in
      (
        record c { queue = q },
        rw (sent, send_client_event),
        record { pending = holds; capacity = size; rest = refl },
      )

  send_client_event-full :
      (event : ClientEvent x) (sender : Option ℕ) (c : Client x ch)
      → ch.capacity c.queue ≤ length (ch.pending c.queue)
      → send_client_event event sender c ≡ (c, err message_not_sent)
  unfolding send_client_event
  send_client_event-full event sender c full = rw (
    law.try_send_full c.queue (record { event = event; sender = sender }) full,
    send_client_event,
  )

  pub send_and_wait-room :
      {A : Type 0} (event : ClientEvent x) (a : A) (wait : Wait) (c : Client x ch)
      → length (ch.pending c.queue) < ch.capacity c.queue
      → (c' : Client x ch) × (send_and_wait event a wait c ≡ (c', outcome a wait))
        × Queued event (slot wait) c c'
  unfolding send_and_wait
  send_and_wait-room event a none c room =
      let (c', sent, q) = send_client_event-room event none c room in
      (c', rw (send_and_wait, sent), q)
  send_and_wait-room event a (some (sender, reply)) c room =
      let (c', sent, q) = send_client_event-room event (some sender) c room in
      (c', rw (send_and_wait, sent), q)

  pub send_and_wait-full :
      {A : Type 0} (event : ClientEvent x) (a : A) (wait : Wait) (c : Client x ch)
      → ch.capacity c.queue ≤ length (ch.pending c.queue)
      → send_and_wait event a wait c ≡ (c, err message_not_sent)
  unfolding send_and_wait
  send_and_wait-full event a none c full =
      rw (send_and_wait, send_client_event-full event none c full)
  send_and_wait-full event a (some (sender, reply)) c full =
      rw (send_and_wait, send_client_event-full event (some sender) c full)

  -- With room in the channel, `send_msg` files the request under the next id, queues the message
  -- with this id, and gives the id, or what the wait gives; nothing else is changed.
  pub send_msg-room :
      (req : Request x) (wait : Wait) (c : Client x ch)
      → length (ch.pending c.queue) < ch.capacity c.queue
      → (c' : Client x ch) × (send_msg req wait c ≡ (c', outcome c.last_id wait))
        × Queued
            (ClientEvent.send_msg (compose_request c.last_id req))
            (slot wait)
            (register req c)
            c'
  unfolding send_msg
  send_msg-room req wait c =
      send_and_wait-room (ClientEvent.send_msg (compose_request c.last_id req)) c.last_id wait
        (register req c)

  -- With a full channel `send_msg` fails with `MessageNotSent`, and the request stays filed under an
  -- id that is used up.
  send_msg-full :
      (req : Request x) (wait : Wait) (c : Client x ch)
      → ch.capacity c.queue ≤ length (ch.pending c.queue)
      → send_msg req wait c ≡ (register req c, err message_not_sent)
  unfolding send_msg
  send_msg-full req wait c =
      send_and_wait-full (ClientEvent.send_msg (compose_request c.last_id req)) c.last_id wait
        (register req c)

  -- With room in the channel and a status other than `Disconnected` and `Stopped`, `disconnect` queues
  -- `Close`, and `stop` schedules the stop and queues `Stop`.
  pub stop-room :
      (c : Client x ch)
      → is_open c.status ≡ true
      → length (ch.pending c.queue) < ch.capacity c.queue
      → ((c' : Client x ch) × (disconnect c ≡ (c', ok tt)) × Queued ClientEvent.close none c c')
        × ((c' : Client x ch) × (stop c ≡ (c', ok tt))
            × Queued ClientEvent.stop none (schedule_for_stop true c) c')
  unfolding disconnect stop
  stop-room c o room = (
    rw (disconnect, o) (send_client_event-room ClientEvent.close none c room),
    rw (stop, o) (send_client_event-room ClientEvent.stop none (schedule_for_stop true c) room),
  )

  -- With a full channel and such a status both fail with `MessageNotSent`; the stop stays scheduled.
  stop-full :
      (c : Client x ch)
      → is_open c.status ≡ true
      → ch.capacity c.queue ≤ length (ch.pending c.queue)
      → (disconnect c ≡ (c, err message_not_sent))
        × (stop c ≡ (schedule_for_stop true c, err message_not_sent))
  unfolding disconnect stop
  stop-full c o full = (
    rw (disconnect, o) (send_client_event-full ClientEvent.close none c full),
    rw (stop, o) (send_client_event-full ClientEvent.stop none (schedule_for_stop true c) full),
  )

-- A client that is disconnected or stopped gets no event: `disconnect` does nothing, and `stop`
-- only schedules the stop.
pub stop-closed :
    {x : External} {ch : Channel (Message x)} (c : Client x ch)
    → is_open c.status ≡ false
    → (disconnect c ≡ (c, ok tt)) × (stop c ≡ (schedule_for_stop true c, ok tt))
unfolding disconnect stop
stop-closed c o = (rw (disconnect, o), rw (stop, o))

module _ {x : External} {ch : Channel (Message x)} where
  -- Filing a request changes the entry of its id alone.
  pub get-register :
      (req : Request x) (c : Client x ch) (j : ℕ)
      → Map.get (register req c).inventory j
        ≡ (if nat_eq c.last_id j then some req else Map.get c.inventory j)
  unfolding register
  get-register req c j = get-insert c.inventory c.last_id j req
