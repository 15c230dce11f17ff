-- ===== src/Client/Connect/Reconnect.antt =====
-- The auto connect loop on a client that is not connected.
use electrum_sdk.Base.{
  ℕ, ◌<◌, ◌≡◌, refl, ap, ◌∙◌, List, [], ◌∷◌, map, Bool, true, false, none, Result, length,
  if◌then◌else◌,
}
use electrum_sdk.External.{External}
use electrum_sdk.Channel.{Channel, IsChannel}
use electrum_sdk.Types.Hash.{ScriptHash}
use electrum_sdk.Types.Request.{Request}
use electrum_sdk.Client.{Client, Message, ClientEvent, connected, connecting, set_status, Error}
use electrum_sdk.Client.Send.{send_batch_msg, register}
use electrum_sdk.Client.Send.Laws.{Queued}
use electrum_sdk.Client.Send.Batch.{file_all, messages_from, send_batch_msg-room}
use electrum_sdk.Client.Await.{Received}
use electrum_sdk.Client.Api.{send_batch_subscribe}
use electrum_sdk.Client.Connect.{accepted, try_connect, resubscribe, resubscribe_scripts}

if_false : {A : Type 0} (b : Bool) (a b' : A) → b ≡ false → (if b then a else b') ≡ b'
if_false b a b' e = rw e refl

module _ {x : External} {ch : Channel (Message x)} where
  pub status-file_all :
      (reqs : List (Request x)) (c : Client x ch) → (file_all reqs c).status ≡ c.status
  unfolding file_all register
  status-file_all [] c = refl
  status-file_all (req ∷ reqs) c = status-file_all reqs (register req c)

  abbrev returned : Client x ch × Result (List ℕ) Error → Client x ch × Bool
  returned r = (r.0, true)

  pub resubscribe-scripts :
      (rs : List (Received x)) (ss : List ScriptHash) (c c' : Client x ch)
      (res : Result (List ℕ) Error)
      → c.headers ≡ false
      → c.scripts ≡ ss
      → send_batch_msg (map Request.script_subscribe ss) none c ≡ (c', res)
      → resubscribe rs c ≡ (c', true)
  unfolding resubscribe resubscribe_scripts send_batch_subscribe
  resubscribe-scripts rs ss c c' res h e sent =
      if_false c.headers _ _ h
      ∙ ap (λ l. returned (send_batch_msg (map Request.script_subscribe l) none c)) e
      ∙ ap returned sent

  -- A new connection of a client without a subscription to the headers, with room in the channel:
  -- the client is connected, and one batch is queued that subscribes to every script of the set, with
  -- the next ids; nothing else is changed.
  pub try_connect-resubscribes :
      (law : IsChannel ch) (rs : List (Received x)) (s : ScriptHash) (ss : List ScriptHash)
      (c : Client x ch)
      → c.headers ≡ false
      → c.scripts ≡ s ∷ ss
      → length (ch.pending c.queue) < ch.capacity c.queue
      → let reqs = map Request.script_subscribe (s ∷ ss) in
        (c' : Client x ch) × (try_connect (accepted rs) c ≡ (c', true))
        × (c'.status ≡ connected)
        × Queued law
            (ClientEvent.send_batch (messages_from c.last_id reqs))
            none
            (file_all reqs (set_status connected c))
            c'
  unfolding try_connect set_status
  try_connect-resubscribes law rs s ss c h e room =
      let d : Client x ch = set_status connected (set_status connecting c) in
      let (c', sent, q) =
        send_batch_msg-room law (Request.script_subscribe s) (map Request.script_subscribe ss) none
          d room in
      (
        c',
        resubscribe-scripts rs (s ∷ ss) d c' _ h e sent,
        ap (λ (k : Client x ch). k.status) q.rest ∙ status-file_all _ d,
        q,
      )
