-- ===== src/Client/Api/Outcomes.antt =====
-- What a call returns, by the outcome of its wait for the message and of its subscription.
use electrum_sdk.Base.{ℕ, ◌<◌, ◌≡◌, refl, ap, ◌∙◌, Option, some, Result, ok, err, length}
use electrum_sdk.External.{External}
use electrum_sdk.Channel.{Channel, IsChannel}
use electrum_sdk.Types.Request.{Request}
use electrum_sdk.Types.Response.{Response}
use electrum_sdk.Client.{Client, Message, Error}
use electrum_sdk.Client.Send.Laws.{outcome, send_msg-room}
use electrum_sdk.Client.Await.{Task, returns, fails, waits, of_result, get_response, ◌>>=◌}
use electrum_sdk.Client.Await.First.{First, get_response_iff}
use electrum_sdk.Client.Api.{Given, call, call_and_read}

-- A chain of waits that returns.
pub task_returns {ℓ κ} :
    {A : Type ℓ} {B : Type κ} (t : Task A) (f : A → Task B) {b : B}
    → (t >>= f) ≡ returns b
    → (a : A) × (t ≡ returns a) × (f a ≡ returns b)
task_returns (returns a) f e = (a, refl, e)
task_returns (fails r) f e = cc
task_returns waits f e = cc

module _ {x : External} {ch : Channel (Message x)} (law : IsChannel ch) where
  module _ {A : Type 0} (req : Request x) (read : Option (Response x) → Task A) (g : Given x)
      (c : Client x ch) where
    call_and_read-sent :
        length (ch.pending c.queue) < ch.capacity c.queue
        → (call_and_read req read g c).1
          ≡ ((of_result (outcome c.last_id g.wait) >>= λ id. get_response id g.received) >>= read)
    unfolding call_and_read call
    call_and_read-sent room =
        let (c', sent, q) = send_msg-room law req g.wait c room in
        ap
          (λ (r : Client x ch × Result ℕ Error).
            (of_result r.1 >>= λ id. get_response id g.received) >>= read)
          sent

    -- With room in the channel, and once the message is known to be sent where the call waits for that: a
    -- call returns what its `match` makes of the first response under the id that it took, if that
    -- response comes before the end of the time and of the subscription.
    pub call_and_read-First :
        (r : Response x)
        → length (ch.pending c.queue) < ch.capacity c.queue
        → outcome c.last_id g.wait ≡ ok c.last_id
        → First c.last_id r g.received
        → (call_and_read req read g c).1 ≡ read (some r)
    call_and_read-First r room sent first =
        call_and_read-sent room
        ∙ ap (λ o. (of_result o >>= λ id. get_response id g.received) >>= read) sent
        ∙ ap (λ t. t >>= read) ((get_response_iff c.last_id r g.received).1 first)

    -- A call whose wait for the message ends in an error fails with that error, whatever arrives.
    pub call_and_read-unsent :
        (e : Error)
        → length (ch.pending c.queue) < ch.capacity c.queue
        → outcome c.last_id g.wait ≡ err e
        → (call_and_read req read g c).1 ≡ fails e
    call_and_read-unsent e room failed =
        call_and_read-sent room
        ∙ ap (λ o. (of_result o >>= λ id. get_response id g.received) >>= read) failed
