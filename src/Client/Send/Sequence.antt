-- ===== src/Client/Send/Sequence.antt =====
-- src/client.rs: several calls of `send_msg`, one after the other.
use electrum_sdk.Base.{
  ℕ, ◌+◌, ◌%◌, ◌≤◌, ◌<◌, ◌≡◌, refl, sym, subst, ap, ◌∙◌, List, [], ◌∷◌, ◌++◌, append-nil,
  append_assoc, Result, length, length-append, arith,
}
use electrum_sdk.External.{External}
use electrum_sdk.Channel.{Channel, IsChannel}
use electrum_sdk.Types.Request.{Request}
use electrum_sdk.Types.Message.{compose_request}
use electrum_sdk.Types.Response.{usize_mod}
use electrum_sdk.Client.{Client, Message, ClientEvent, Error}
use electrum_sdk.Client.Send.{Wait, register, send_msg}
use electrum_sdk.Client.Send.Laws.{Queued, slot, send_msg-room}
use electrum_sdk.Client.Send.Batch.{file_all}

module _ {x : External} where
  -- The message of a call under an id, and those of several calls, from the next id on.
  abbrev pub call_message : ℕ → Request x × Wait → Message x
  call_message n (req, wait) = record {
    event = ClientEvent.send_msg (compose_request n req);
    sender = slot wait;
  }

  abbrev pub call_messages : ℕ → List (Request x × Wait) → List (Message x)
  call_messages n [] = []
  call_messages n (call ∷ calls) = call_message n call ∷ call_messages ((n + 1) % usize_mod) calls

  abbrev pub requests : List (Request x × Wait) → List (Request x)
  requests [] = []
  requests (call ∷ calls) = call.0 ∷ requests calls

module _ {x : External} {ch : Channel (Message x)} where
  unfoldable pub send_each : List (Request x × Wait) → Client x ch → Client x ch
  send_each [] c = c
  send_each (call ∷ calls) c = send_each calls (send_msg call.0 call.1 c).0

  -- Filing reads and changes nothing of the channel.
  pub file_all-queue :
      (reqs : List (Request x)) (c : Client x ch) (q : ch.Chan)
      → file_all reqs (record c { queue = q }) ≡ record (file_all reqs c) { queue = q }
  unfolding file_all register
  file_all-queue [] c q = refl
  file_all-queue (req ∷ reqs) c q = file_all-queue reqs (register req c) q

module _ {x : External} {ch : Channel (Message x)} (law : IsChannel ch) where
  pub send_msg-Queued :
      (call : Request x × Wait) (c : Client x ch)
      → length (ch.pending c.queue) < ch.capacity c.queue
      → Queued law
          (ClientEvent.send_msg (compose_request c.last_id call.0))
          (slot call.1)
          (register call.0 c)
          (send_msg call.0 call.1 c).0
  send_msg-Queued (req, wait) c room =
      let (c1, sent, q) = send_msg-room law req wait c room in
      subst
        (Queued law (ClientEvent.send_msg (compose_request c.last_id req)) (slot wait)
          (register req c))
        (sym (ap (λ (r : Client x ch × Result ℕ Error). r.0) sent)) q

  -- With room for them all, the calls queue their messages in order and under the next ids, whatever
  -- their waits give, errors included; the requests are filed, and nothing else is changed.
  pub send_each-queues :
      (calls : List (Request x × Wait)) (c : Client x ch)
      → length (ch.pending c.queue) + length calls ≤ ch.capacity c.queue
      → (ch.pending (send_each calls c).queue ≡ ch.pending c.queue ++ call_messages c.last_id calls)
        × (record (send_each calls c) { queue = c.queue } ≡ file_all (requests calls) c)
  unfolding send_each file_all register
  send_each-queues [] c room = (sym (append-nil (ch.pending c.queue)), refl)
  send_each-queues (call ∷ calls) c room =
      let d = (send_msg call.0 call.1 c).0 in
      let q = send_msg-Queued call c (omega arith) in
      let next : d.last_id ≡ (c.last_id + 1) % usize_mod =
        ap (λ (k : Client x ch). k.last_id) q.rest in
      let message = call_message c.last_id call in
      let (held, rest) = send_each-queues calls d (
        omega (
          arith,
          q.capacity,
          ap length q.pending ∙ length-append (ch.pending c.queue) (message ∷ []),
        )) in
      (
        held
            ∙ ap (λ l. l ++ call_messages d.last_id calls) q.pending
            ∙ append_assoc (ch.pending c.queue) (message ∷ []) (call_messages d.last_id calls)
            ∙ ap (λ n. ch.pending c.queue ++ message ∷ call_messages n calls) next,
        ap (λ (k : Client x ch). record k { queue = c.queue }) rest
            ∙ sym (file_all-queue (requests calls) d c.queue)
            ∙ ap (file_all (requests calls)) q.rest,
      )
