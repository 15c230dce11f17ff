-- ===== src/Client/Connect/Headers.antt =====
-- src/client.rs: a new connection of a client that is subscribed to the headers. Its renewal waits for
-- the answer of the server without a timeout.
use electrum_sdk.Base.{
  ℕ, ◌<◌, ◌+◌, ◌%◌, ◌≡◌, refl, ap, ◌∙◌, List, [], ◌∷◌, ◌++◌, append_assoc, map, Bool, true, false,
  Option, none, some, Result, length, length-append, arith, All, if◌then◌else◌,
}
use electrum_sdk.External.{External}
use electrum_sdk.Channel.{Channel, IsChannel}
use electrum_sdk.Types.Hash.{ScriptHash}
use electrum_sdk.Types.Request.{Request}
use electrum_sdk.Types.Message.{compose_request}
use electrum_sdk.Types.Response.{Response, usize_mod}
use electrum_sdk.Types.Structs.{HeaderNotification}
use electrum_sdk.Client.{
  Client, Message, ClientEvent, Error, connected, connecting, disconnected, set_status,
}
use electrum_sdk.Client.Send.{register, send_batch_msg}
use electrum_sdk.Client.Send.Laws.{Queued, send_msg-room}
use electrum_sdk.Client.Send.Batch.{messages_from, queue-file_all, send_batch_msg-room}
use electrum_sdk.Client.Await.{Received, Task, returns, of_result, get_response, ◌>>=◌}
use electrum_sdk.Client.Await.First.{First, PassesBy, get_response_iff, get_response-ends}
use electrum_sdk.Client.Api.{
  call, call_and_read, call_headers_subscribe, send_batch_subscribe, read_header_notification,
}
use electrum_sdk.Client.Connect.{
  Attempt, accepted, LoopFlow, blocks, after_round, not_waiting, sleeps_or_blocks, resubscribe,
  resubscribe_scripts, try_connect, run_loop,
}
use electrum_sdk.Client.Connect.Reconnect.{status-file_all}
use electrum_sdk.Client.Connect.Persistence.{loop_round-tries}

module _ {x : External} where
  abbrev pub headers_message : ℕ → Message x
  headers_message id = record {
    event = ClientEvent.send_msg (compose_request id Request.block_header_subscribe);
    sender = none;
  }

  abbrev pub renewal_message : ℕ → List ScriptHash → Message x
  renewal_message id ss = record {
    event = ClientEvent.send_batch (messages_from id (map Request.script_subscribe ss));
    sender = none;
  }

  read_header-settles : (r : Response x) → not_waiting (read_header_notification (some r)) ≡ true
  unfolding read_header_notification
  read_header-settles (Response.header_notification h) = refl
  read_header-settles _ = refl

if_true : {A : Type 0} (b : Bool) (a b' : A) → b ≡ true → (if b then a else b') ≡ a
if_true b a b' e = rw e refl

module _ {x : External} {ch : Channel (Message x)} (law : IsChannel ch) where
  -- What the wait gives, when the request was sent.
  call_headers-sent :
      (rs : List (Received x)) (c : Client x ch)
      → length (ch.pending c.queue) < ch.capacity c.queue
      → (c' : Client x ch) × (call_headers_subscribe (record { wait = none; received = rs }) c
          ≡ (c', get_response c.last_id rs >>= read_header_notification))
        × Queued law
            (ClientEvent.send_msg (compose_request c.last_id Request.block_header_subscribe))
            none
            (register Request.block_header_subscribe c)
            c'
  unfolding call_headers_subscribe call_and_read call
  call_headers-sent rs c room =
      let (c', sent, q) = send_msg-room law Request.block_header_subscribe none c room in
      (
        c',
        ap
            (λ (r : Client x ch × Result ℕ Error).
              (r.0, (of_result r.1 >>= λ id. get_response id rs) >>= read_header_notification))
            sent,
        q,
      )

  -- The renewal in terms of the wait.
  resubscribe-headers :
      (rs : List (Received x)) (c c' : Client x ch) (t : Task (HeaderNotification x))
      → c.headers ≡ true
      → call_headers_subscribe (record { wait = none; received = rs }) c ≡ (c', t)
      → resubscribe rs c ≡ (if not_waiting t then (resubscribe_scripts c', true) else (c', false))
  unfolding resubscribe
  resubscribe-headers rs c c' t h e =
      if_true c.headers _ _ h
      ∙ ap
          (λ (r : Client x ch × Task (HeaderNotification x)).
            if not_waiting r.1 then (resubscribe_scripts r.0, true) else (r.0, false))
          e

  -- A round of the auto connect loop on a disconnected client that is not to be stopped, is subscribed
  -- to the headers and has room in its channel, when its attempt is accepted, and neither the answer
  -- nor an end of the subscription is received: the client is connected, only the subscription to the
  -- headers is queued, and the loop waits; whatever attempts there were to come, it makes none.
  pub headers_unanswered :
      (rs : List (Received x)) (attempts : List (Attempt x)) (c : Client x ch)
      → c.status ≡ disconnected
      → c.scheduled_for_stop ≡ false
      → c.headers ≡ true
      → length (ch.pending c.queue) < ch.capacity c.queue
      → All (PassesBy c.last_id) rs
      → (c' : Client x ch) × (run_loop (accepted rs ∷ attempts) c ≡ (c', blocks))
        × Queued law
            (ClientEvent.send_msg (compose_request c.last_id Request.block_header_subscribe))
            none
            (register Request.block_header_subscribe (set_status connected c))
            c'
  unfolding run_loop try_connect set_status
  headers_unanswered rs attempts c s k h room others =
      let d : Client x ch = set_status connected (set_status connecting c) in
      let (c', sent, q) = call_headers-sent rs d room in
      let waiting = (get_response-ends c.last_id rs [] others).2 in
      let renewed : Path (Client x ch × Bool) (resubscribe rs d) (c', false) =
        resubscribe-headers rs d c' _ h sent
        ∙ ap
            (λ (t : Task (Option (Response x))).
              if not_waiting (t >>= read_header_notification)
              then (resubscribe_scripts c', true)
              else (c', false))
            waiting in
      let round =
        loop_round-tries (accepted rs) c s k
        ∙ ap (λ (r : Client x ch × Bool). (r.0, sleeps_or_blocks r.1)) renewed in
      (c', ap (λ (r : Client x ch × LoopFlow). after_round r (run_loop attempts r.0)) round, q)

  renewed_scripts :
      (ss : List ScriptHash) (c c' : Client x ch) (r : Result (List ℕ) Error)
      → c.scripts ≡ ss
      → send_batch_msg (map Request.script_subscribe ss) none c ≡ (c', r)
      → resubscribe_scripts c ≡ c'
  unfolding resubscribe_scripts send_batch_subscribe
  renewed_scripts ss c c' r e sent =
      ap (λ l. (send_batch_msg (map Request.script_subscribe l) none c).0) e
      ∙ ap (λ (o : Client x ch × Result (List ℕ) Error). o.0) sent

  -- A new connection of a client that is subscribed to the headers and to some scripts, with room in
  -- its channel, when the answer to the headers arrives, whatever it is: two events are queued in this
  -- order, the subscription to the headers under the next id, and one batch that subscribes to every
  -- script of the set under the ids after it; the client is connected.
  pub headers_answered :
      (rs : List (Received x)) (r : Response x) (s : ScriptHash) (ss : List ScriptHash)
      (c : Client x ch)
      → c.headers ≡ true
      → c.scripts ≡ s ∷ ss
      → 1 + length (ch.pending c.queue) < ch.capacity c.queue
      → First c.last_id r rs
      → (c' : Client x ch) × (try_connect (accepted rs) c ≡ (c', true))
        × (c'.status ≡ connected)
        × (ch.pending c'.queue
            ≡ ch.pending c.queue
              ++ headers_message c.last_id
                ∷ renewal_message ((c.last_id + 1) % usize_mod) (s ∷ ss)
                ∷ [])
  unfolding try_connect set_status register
  headers_answered rs r s ss c h e room first =
      let d : Client x ch = set_status connected (set_status connecting c) in
      let (c1, sent, q) = call_headers-sent rs d (omega arith) in
      let size = length-append (ch.pending c.queue) (headers_message c.last_id ∷ []) in
      let (c', queued, p) =
        send_batch_msg-room law (Request.script_subscribe s) (map Request.script_subscribe ss) none
          c1 (omega (arith, q.capacity, ap length q.pending, size)) in
      let scripts : c1.scripts ≡ s ∷ ss = ap (λ (k : Client x ch). k.scripts) q.rest ∙ e in
      let next : c1.last_id ≡ (c.last_id + 1) % usize_mod =
        ap (λ (k : Client x ch). k.last_id) q.rest in
      let answered : get_response c.last_id rs ≡ returns (some r) =
        (get_response_iff c.last_id r rs).1 first in
      let renewed : Path (Client x ch × Bool) (resubscribe rs d) (c', true) =
        resubscribe-headers rs d c1 _ h sent
        ∙ ap
            (λ (t : Task (Option (Response x))).
              if not_waiting (t >>= read_header_notification)
              then (resubscribe_scripts c1, true)
              else (c1, false))
            answered
        ∙ if_true (not_waiting (read_header_notification (some r))) _ _ (read_header-settles r)
        ∙ ap (λ (k : Client x ch). (k, true)) (renewed_scripts (s ∷ ss) c1 c' _ scripts queued) in
      let reqs = map Request.script_subscribe (s ∷ ss) in
      (
        c',
        renewed,
        ap (λ (k : Client x ch). k.status) p.rest
            ∙ status-file_all reqs c1
            ∙ ap (λ (k : Client x ch). k.status) q.rest,
        p.pending
            ∙ ap (λ k. ch.pending k ++ renewal_message c1.last_id (s ∷ ss) ∷ [])
                (queue-file_all reqs c1)
            ∙ ap (λ l. l ++ renewal_message c1.last_id (s ∷ ss) ∷ []) q.pending
            ∙ append_assoc (ch.pending c.queue) (headers_message c.last_id ∷ [])
                (renewal_message c1.last_id (s ∷ ss) ∷ [])
            ∙ ap
                (λ n.
                  ch.pending c.queue ++ headers_message c.last_id ∷ renewal_message n (s ∷ ss) ∷ [])
                next,
      )
