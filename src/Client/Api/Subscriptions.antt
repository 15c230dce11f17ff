-- ===== src/Client/Api/Subscriptions.antt =====
-- src/client.rs: a batch of scripts that is refused, and one that is sent.
use electrum_sdk.Base.{
  ℕ, ok, sym, length, ◌<◌, ◌≡◌, refl, ap, ◌∙◌, List, [], ◌∷◌, ◌++◌, map, true, false, ◌||◌, Result,
  err, All, Bool-cases, inl, inr,
}
use electrum_sdk.Base.Set
use electrum_sdk.Base.Set.{Distinct}
use electrum_sdk.External.{External}
use electrum_sdk.Channel.{Channel, IsChannel}
use electrum_sdk.Types.Request.{Request}
use electrum_sdk.Types.Hash.{ScriptHash, ToElectrumScriptHash, hash_eq}
use electrum_sdk.Client.{
  Client, Message, ClientEvent, ActiveSubscriptions, Error, already_subscribed, set_scripts,
}
use electrum_sdk.Types.Message.{JsonRpcMsg}
use electrum_sdk.Client.Send.{Wait, register, register_all}
use electrum_sdk.Client.Send.Laws.{slot, outcome, Queued}
use electrum_sdk.Client.Send.Batch.{
  ids_from, messages_from, file_all, queue-file_all, register_all_lem, send_batch_msg-room,
}
use electrum_sdk.Client.Send.Results.{of_result-outcome}
use electrum_sdk.Client.Await.{Task, returns, fails, of_result, ◌>>=◌}
use electrum_sdk.Client.Subscribe.{add_scripts}
use electrum_sdk.Client.Subscribe.Laws.{
  subscribed, add_scripts-nil, add_scripts-old, add_scripts-new, add_scripts_partial,
  add_scripts_accepts, add_scripts_accepted,
}
use electrum_sdk.Client.Api.{and_then, batch_script_subscribe, send_batch_subscribe}

map-append : {A B : Type 0} (f : A → B) (xs ys : List A) → map f (xs ++ ys) ≡ map f xs ++ map f ys
map-append f [] ys = refl
map-append f (x ∷ xs) ys = ap (λ l. f x ∷ l) (map-append f xs ys)

module _ {x : External} {ch : Channel (Message x)} where
  -- Adding scripts changes the set of scripts alone.
  add_scripts_rest :
      (ss : List ScriptHash) (c : Client x ch)
      → (record (add_scripts ss c).0 { subscriptions = c.subscriptions } ≡ c)
        × ((add_scripts ss c).0.headers ≡ c.headers)
  unfolding set_scripts
  add_scripts_rest [] c = rw (add_scripts-nil c) (refl, refl)
  add_scripts_rest (s ∷ ss) c = elim (Bool-cases (subscribed c s)) [
    | inl old ↦ rw (add_scripts-old s c ss old) (refl, refl)
    | inr new ↦
        let (rest, headers) = add_scripts_rest ss (set_scripts (Set.insert c.scripts s) c) in
        rw (add_scripts-new s c ss new)
          (ap (λ (k : Client x ch). record k { subscriptions = c.subscriptions }) rest, headers)
  ]

  and_then-ok :
      {A : Type 0} (o : Client x ch × Result (Unit {0}) Error)
      (k : Client x ch → Client x ch × Task A)
      → o.1 ≡ ok tt
      → and_then o k ≡ k o.0
  and_then-ok o k h = ap (λ r. and_then (o.0, r) k) h

  and_then-err :
      {A : Type 0} (o : Client x ch × Result (Unit {0}) Error)
      (k : Client x ch → Client x ch × Task A) (e : Error)
      → o.1 ≡ err e
      → and_then o k ≡ (o.0, fails e)
  and_then-err o k e h = ap (λ r. and_then (o.0, r) k) h

  -- Filing reads and changes nothing of the subscriptions.
  file_all_subscriptions :
      (reqs : List (Request x)) (c : Client x ch) (a : ActiveSubscriptions)
      → file_all reqs (record c { subscriptions = a })
        ≡ record (file_all reqs c) { subscriptions = a }
  unfolding file_all register
  file_all_subscriptions [] c a = refl
  file_all_subscriptions (req ∷ reqs) c a = file_all_subscriptions reqs (register req c) a

  send_batch_subscribe-room :
      (law : IsChannel ch) (h : ScriptHash) (hs : List ScriptHash) (wait : Wait) (c : Client x ch)
      → length (ch.pending c.queue) < ch.capacity c.queue
      → let reqs = map Request.script_subscribe (h ∷ hs) in
        (c' : Client x ch) × (send_batch_subscribe (h ∷ hs) wait c
          ≡ (c', of_result (outcome tt wait)))
        × Queued law
            (ClientEvent.send_batch (messages_from c.last_id reqs))
            (slot wait)
            (file_all reqs c)
            c'
  unfolding send_batch_subscribe
  send_batch_subscribe-room law h hs wait c room =
      let reqs = map Request.script_subscribe (h ∷ hs) in
      let (c', sent, q) =
        send_batch_msg-room law (Request.script_subscribe h) (map Request.script_subscribe hs) wait
          c room in
      (
        c',
        ap (λ (r : Client x ch × Result (List ℕ) Error). (r.0, of_result r.1 >>= λ ids. returns tt))
              sent
            ∙ ap (λ t. (c', t))
                (of_result-outcome (ids_from c.last_id reqs) tt (λ ids. returns tt) wait refl),
        q,
      )

  module _ {S : Type 0} (hash : ToElectrumScriptHash S) where
    open hash use {to_electrum_scripthash}

    -- `batch_script_subscribe` that meets a script which is subscribed to already, after scripts that
    -- are not, fails with that script, and the scripts before it then count as subscribed to, though
    -- nothing was sent: the channel, the inventory and all else is as it was.
    pub batch_script_subscribe_partial :
        (before : List S) (s : S) (after : List S) (wait : Wait) (c : Client x ch)
        → Distinct (map to_electrum_scripthash before)
        → All (λ t. subscribed c t ≡ false) (map to_electrum_scripthash before)
        → subscribed c (to_electrum_scripthash s) ≡ true
        → let r = batch_script_subscribe hash (before ++ s ∷ after) wait c in
          (r.1 ≡ fails (already_subscribed (to_electrum_scripthash s)))
          × ((t : ScriptHash)
              → subscribed r.0 t
                ≡ (Set.contains (map to_electrum_scripthash before) t || subscribed c t))
          × (record r.0 { subscriptions = c.subscriptions } ≡ c)
          × (r.0.headers ≡ c.headers)
    unfolding batch_script_subscribe
    batch_script_subscribe_partial before s after wait c d n h =
        let hs = map to_electrum_scripthash (before ++ s ∷ after) in
        let split = map-append to_electrum_scripthash before (s ∷ after) in
        let (failed, members) =
          add_scripts_partial (map to_electrum_scripthash before) (to_electrum_scripthash s)
            (map to_electrum_scripthash after) c d n h in
        let (rest, headers) = add_scripts_rest hs c in
        rw
          (and_then-err (add_scripts hs c) (send_batch_subscribe hs wait)
            (already_subscribed (to_electrum_scripthash s))
            (ap (λ l. (add_scripts l c).1) split ∙ failed))
          (refl, λ t. ap (λ l. subscribed (add_scripts l c).0 t) split ∙ members t, rest, headers)

    -- `batch_script_subscribe` with at least one script, no two of them with the same hash and none
    -- subscribed to already, on a channel with room: one event with a `ScriptSubscribe` request for each
    -- script, in order and under the next ids, is queued last, the inventory is that of `register_all`, the
    -- scripts are added, and the result is that of the wait for the message.
    pub batch_script_subscribe_sent :
        (law : IsChannel ch) (s : S) (ss : List S) (wait : Wait) (c : Client x ch)
        → Distinct (map to_electrum_scripthash (s ∷ ss))
        → All (λ t. subscribed c t ≡ false) (map to_electrum_scripthash (s ∷ ss))
        → length (ch.pending c.queue) < ch.capacity c.queue
        → let hs = map to_electrum_scripthash (s ∷ ss) in
          let reqs : List (Request x) = map Request.script_subscribe hs in
          let r = batch_script_subscribe hash (s ∷ ss) wait c in
          (r.1 ≡ of_result (outcome tt wait))
          × (ch.pending r.0.queue
              ≡ ch.pending c.queue
                ++ record {
                  event = ClientEvent.send_batch (messages_from c.last_id reqs);
                  sender = slot wait;
                }
                  ∷ [])
          × (r.0.inventory ≡ (register_all reqs [] [] c).0.inventory)
          × ((t : ScriptHash) → subscribed r.0 t ≡ (Set.contains hs t || subscribed c t))
    unfolding batch_script_subscribe
    batch_script_subscribe_sent law s ss wait c d n room =
        let hs = map to_electrum_scripthash (s ∷ ss) in
        let reqs : List (Request x) = map Request.script_subscribe hs in
        let message : ℕ → Message x = λ m. record {
          event = ClientEvent.send_batch (messages_from m reqs);
          sender = slot wait;
        } in
        let accepted = add_scripts_accepts hs c d n in
        let members = (add_scripts_accepted hs c accepted).2 in
        let c1 = (add_scripts hs c).0 in
        let same : c1 ≡ record c { subscriptions = c1.subscriptions } =
          ap (λ (k : Client x ch). record k { subscriptions = c1.subscriptions })
            (add_scripts_rest hs c).0 in
        let same_queue : c1.queue ≡ c.queue = ap (λ (k : Client x ch). k.queue) same in
        let same_filed = ap (file_all reqs) same ∙ file_all_subscriptions reqs c c1.subscriptions in
        let (c', sent, q) =
          send_batch_subscribe-room law (to_electrum_scripthash s) (map to_electrum_scripthash ss)
            wait c1 (rw same_queue room) in
        let ran = and_then-ok (add_scripts hs c) (send_batch_subscribe hs wait) accepted ∙ sent in
        (
          ap (λ (o : Client x ch × Task (Unit {0})). o.1) ran,
          ap (λ (o : Client x ch × Task (Unit {0})). ch.pending o.0.queue) ran
              ∙ q.pending
              ∙ ap (λ k. ch.pending k ++ message c1.last_id ∷ [])
                  (queue-file_all reqs c1 ∙ same_queue)
              ∙ ap (λ m. ch.pending c.queue ++ message m ∷ [])
                  (ap (λ (k : Client x ch). k.last_id) same),
          ap (λ (o : Client x ch × Task (Unit {0})). o.0.inventory) ran
              ∙ ap (λ (k : Client x ch). k.inventory) q.rest
              ∙ ap (λ (k : Client x ch). k.inventory) same_filed
              ∙ sym (
                  ap (λ (o : Client x ch × List ℕ × List (JsonRpcMsg x)). o.0.inventory)
                    (register_all_lem reqs [] [] c)),
          λ t.
              ap (λ (o : Client x ch × Task (Unit {0})). subscribed o.0 t) ran
              ∙ ap (λ (k : Client x ch). subscribed k t) q.rest
              ∙ ap (λ (k : Client x ch). subscribed k t) same_filed
              ∙ members t,
        )
