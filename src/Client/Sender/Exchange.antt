-- ===== src/Client/Sender/Exchange.antt =====
-- src/client.rs: a request on its way from the caller to the stream, and its answer on the way back.
use electrum_sdk.Base.{
  ℕ, ◌<◌, ◌≡◌, ◌≢◌, ap, ◌∙◌, List, [], ◌∷◌, ◌++◌, Bool, true, Option, some, Result, ok, done,
  String, arith, length,
}
use electrum_sdk.Base.Map
use electrum_sdk.External.{External, Bytes}
use electrum_sdk.Channel.{Channel, IsChannel}
use electrum_sdk.Types.Request.{Request}
use electrum_sdk.Types.Message.{JsonRpcMsg, compose_request, as_bytes, is_request}
use electrum_sdk.Types.Message
use electrum_sdk.Types.Response.{Response, to_response, null}
use electrum_sdk.Client.{Client, Message, ClientEvent, ClientNotification, Error}
use electrum_sdk.Client.Send.{Wait, send_msg, register}
use electrum_sdk.Client.Send.Laws.{slot, send_msg-room, get-register}
use electrum_sdk.Client.Receive.{handle_msg}
use electrum_sdk.Client.Receive.Answers.{answer_published}
use electrum_sdk.Client.Sender.{Effect, write, send_one, handle_event, sender_step}
use electrum_sdk.Client.Await.{received, returns, get_response}

send_one-request :
    {x : External} (id : ℕ) (req : Request x) (sender : Option ℕ) (success : Bool) (b : Bytes)
    → as_bytes x (compose_request id req) ≡ ok b
    → send_one (compose_request id req) sender success ≡ write b sender success
unfolding send_one compose_request
send_one-request id req sender success b e = ground (arith, e)

module _ {x : External} {ch : Channel (Message x)} where
  pub handle_event-request :
      (id : ℕ) (req : Request x) (sender : Option ℕ) (success : Bool) (b : Bytes) (c : Client x ch)
      → as_bytes x (compose_request id req) ≡ ok b
      → handle_event (ClientEvent.send_msg (compose_request id req)) sender success c
        ≡ (c, write b sender success)
  unfolding handle_event
  handle_event-request id req sender success b c e =
      ap (λ (f : Effect). (c, f)) (send_one-request id req sender success b e)

module _ {x : External} {ch : Channel (Message x)} (law : IsChannel ch) where
  abbrev sent_message : Option ℕ → ℕ → Request x → Message x
  sent_message sender id req = record {
    event = ClientEvent.send_msg (compose_request id req);
    sender = sender;
  }

  -- A round takes the oldest event, and leaves the others in the channel.
  pub sender_step-first :
      (success : Bool) (c : Client x ch) (m : Message x) (rest : List (Message x))
      → ch.pending c.queue ≡ m ∷ rest
      → (q : ch.Chan) × (sender_step success c
          ≡ some (handle_event m.event m.sender success (record c { queue = q })))
        × (ch.pending q ≡ rest)
  unfolding sender_step
  sender_step-first success c m rest e =
      let (q, taken, left, size) = law.recv_first c.queue m rest e in
      (q, rw (taken, sender_step), left)

  -- A request that is sent on a client with an empty channel, and encodes to some bytes, is written
  -- as these bytes in the next round of the sender task, with the answer for the caller; it stays
  -- filed under its id, and the channel is empty again.
  send_msg-written :
      (req : Request x) (wait : Wait) (success : Bool) (b : Bytes) (c : Client x ch)
      → ch.pending c.queue ≡ []
      → 0 < ch.capacity c.queue
      → as_bytes x (compose_request c.last_id req) ≡ ok b
      → (c' : Client x ch) × (sender_step success (send_msg req wait c).0
          ≡ some (c', write b (slot wait) success))
        × (ch.pending c'.queue ≡ [])
        × (Map.get c'.inventory c.last_id ≡ some req)
        × (c'.published ≡ c.published)
  unfolding register
  send_msg-written req wait success b c empty room bytes =
      let (c1, sent, q) = send_msg-room law req wait c (omega (arith, ap length empty)) in
      let message =
        q.pending ∙ ap (λ ms. ms ++ sent_message (slot wait) c.last_id req ∷ []) empty in
      let (taken, stepped, left) =
        sender_step-first success c1 (sent_message (slot wait) c.last_id req) [] message in
      let filed = ap (λ (d : Client x ch). Map.get d.inventory c.last_id) q.rest in
      (
        record c1 { queue = taken },
        ap (λ (r : Client x ch × Result ℕ Error). sender_step success r.0) sent
            ∙ stepped
            ∙ ap some (
                handle_event-request c.last_id req (slot wait) success b
                  (record c1 { queue = taken }) bytes),
        left,
        filed ∙ get-register req c c.last_id ∙ ground arith,
        ap (λ (d : Client x ch). d.published) q.rest,
      )

  -- The whole exchange of a request that encodes to some bytes, on a client with an empty channel: the
  -- bytes are written, with the next id in them; when the answer under this id is read as `r`, other
  -- than `Null`, then `r` is published after what was there, and a caller whose subscription receives
  -- it gets `r`.
  call_completes :
      (req : Request x) (wait : Wait) (b : Bytes) (c : Client x ch) (jsonrpc : String)
      (result error : Option x.Value) (r : Response x)
      → ch.pending c.queue ≡ []
      → 0 < ch.capacity c.queue
      → as_bytes x (compose_request c.last_id req) ≡ ok b
      → to_response x (Message.response c.last_id jsonrpc result error) req ≡ done r
      → r ≢ null
      → (c' : Client x ch) × (sender_step true (send_msg req wait c).0
          ≡ some (c', write b (slot wait) true))
        × ((handle_msg (Message.response c.last_id jsonrpc result error) c').0.published
            ≡ c.published ++ ClientNotification.response c.last_id r ∷ [])
        × (get_response c.last_id (received (ClientNotification.response c.last_id r) ∷ [])
            ≡ returns (some r))
  unfolding get_response
  call_completes req wait b c jsonrpc result error r empty room bytes read other =
      let (c', stepped, left, filed, same) = send_msg-written req wait true b c empty room bytes in
      (
        c',
        stepped,
        (answer_published c.last_id jsonrpc result error c' req r filed read other).1
            ∙ ap (λ ns. ns ++ ClientNotification.response c.last_id r ∷ []) same,
        ground arith,
      )
