-- ===== src/Client/Run/Keeps.antt =====
-- What leaves the ids and the inventory as they are, or only drops requests.
use electrum_sdk.Base.{
  ℕ, ◌≡◌, refl, sym, ◌∙◌, List, [], ◌∷◌, Bool, Option, none, some, Result, arith, Option-cases,
  Bool-cases, subst, inl, inr, Outcome, done, fail, panic, Result-cases,
}
use electrum_sdk.Base.Map
use electrum_sdk.Base.Set
use electrum_sdk.Base.Map.{get-remove}
use electrum_sdk.External.{External}
use electrum_sdk.Channel.{Channel}
use electrum_sdk.Types.Hash.{ScriptHash, hash_eq}
use electrum_sdk.Types.Message.{JsonRpcMsg, from_json, compose_request}
use electrum_sdk.Types.Message
use electrum_sdk.Types.Notification.{to_notification}
use electrum_sdk.Types.Response.{Response, null}
use electrum_sdk.Client.{
  Client, Message, ClientEvent, Error, publish, set_scripts, set_status, schedule_for_stop,
}
use electrum_sdk.Client.Send.{Wait, send_client_event, send_and_wait, disconnect, stop}
use electrum_sdk.Client.Receive.{
  Read, line, eof, failed, receive, handle_line, handle_msg, handle_response, handle_answer,
  handle_notification, remove_request, publish_response,
}
use electrum_sdk.Client.Sender.{Effect, sender_step, handle_event}
use electrum_sdk.Client.Subscribe.{add_script, drop_script, add_scripts}
use electrum_sdk.Client.Subscribe.Laws.{subscribed, add_scripts-old, add_scripts-new}

module _ {x : External} {ch : Channel (Message x)} where
  -- No id is taken, and no request is filed.
  pub record Keeps (c c' : Client x ch) : Type 0 where
    pub last_id : c'.last_id ≡ c.last_id
    pub absent : (j : ℕ) → Map.get c.inventory j ≡ none → Map.get c'.inventory j ≡ none

  pub Keeps-refl : (c : Client x ch) → Keeps c c
  Keeps-refl c = record { last_id = refl; absent = λ j e. e }

  pub send_and_wait-Keeps :
      {A : Type 0} (event : ClientEvent x) (a : A) (wait : Wait) (c : Client x ch)
      → Keeps c (send_and_wait event a wait c).0
  unfolding send_and_wait send_client_event
  send_and_wait-Keeps event a none c = record {
    last_id = ground arith;
    absent = λ j e. ground (arith, e);
  }
  send_and_wait-Keeps event a (some (sender, reply)) c = record {
    last_id = ground arith;
    absent = λ j e. ground (arith, e);
  }

  pub disconnect-Keeps : (c : Client x ch) → Keeps c (disconnect c).0
  unfolding disconnect send_client_event
  disconnect-Keeps c = record { last_id = ground arith; absent = λ j e. ground (arith, e) }

  pub stop-Keeps : (c : Client x ch) → Keeps c (stop c).0
  unfolding stop send_client_event schedule_for_stop
  stop-Keeps c = record { last_id = ground arith; absent = λ j e. ground (arith, e) }

  pub remove_request-Keeps : (id : ℕ) (c : Client x ch) → Keeps c (remove_request id c)
  unfolding remove_request
  remove_request-Keeps id c = record {
    last_id = refl;
    absent = λ j e. ground (arith, e, get-remove c.inventory id j);
  }

  pub publish_response-Keeps :
      (id : ℕ) (r : Response x) (c : Client x ch) → Keeps c (publish_response id r c)
  unfolding publish_response publish
  publish_response-Keeps id null c = Keeps-refl c
  publish_response-Keeps id _ c = record { last_id = refl; absent = λ j e. e }

  pub Keeps-trans : {c d e : Client x ch} → Keeps c d → Keeps d e → Keeps c e
  Keeps-trans k l = record {
    last_id = l.last_id ∙ k.last_id;
    absent = λ j e. l.absent j (k.absent j e);
  }

  pub handle_answer-Keeps :
      (id : ℕ) (o : Outcome (Response x) (Message.Error x)) (c : Client x ch)
      → Keeps c (handle_answer id o c).0
  unfolding handle_answer
  handle_answer-Keeps id (done r) c =
      Keeps-trans (publish_response-Keeps id r c)
        (remove_request-Keeps id (publish_response id r c))
  handle_answer-Keeps id (fail e) c = remove_request-Keeps id c
  handle_answer-Keeps id panic c = Keeps-refl c

  pub handle_msg-Keeps : (msg : JsonRpcMsg x) (c : Client x ch) → Keeps c (handle_msg msg c).0
  unfolding handle_msg handle_response handle_notification publish
  handle_msg-Keeps (Message.response id jsonrpc result error) c =
      elim (Option-cases (Map.get c.inventory id)) [
        | inl missing ↦ rw (missing, handle_response) (remove_request-Keeps id c)
        | inr (req, filed) ↦ rw (filed, handle_response) (handle_answer-Keeps id _ c)
      ]
  handle_msg-Keeps (Message.notification jsonrpc m ps) c =
      elim (Result-cases (to_notification x (Message.notification jsonrpc m ps))) [
        | inl (n, read) ↦
            rw (read, handle_notification) (record { last_id = refl; absent = λ j e. e })
        | inr (r, read) ↦ rw (read, handle_notification) (Keeps-refl c)
      ]
  handle_msg-Keeps (Message.request id jsonrpc m ps) c = Keeps-refl c

  pub receive-Keeps : (r : Read) (c : Client x ch) → Keeps c (receive r c).0
  unfolding receive handle_line
  receive-Keeps (line text) c = elim (Result-cases (from_json x text)) [
    | inl (msg, read) ↦ rw (read, handle_line) (handle_msg-Keeps msg c)
    | inr (r, read) ↦ rw (read, handle_line) (Keeps-refl c)
  ]
  receive-Keeps eof c = disconnect-Keeps c
  receive-Keeps failed c = disconnect-Keeps c

  pub handle_event-Keeps :
      (event : ClientEvent x) (sender : Option ℕ) (success : Bool) (c : Client x ch)
      → Keeps c (handle_event event sender success c).0
  unfolding handle_event set_status schedule_for_stop publish
  handle_event-Keeps (ClientEvent.send_msg msg) sender success c = Keeps-refl c
  handle_event-Keeps (ClientEvent.send_batch batch) sender success c = Keeps-refl c
  handle_event-Keeps ClientEvent.close sender success c = record {
    last_id = refl;
    absent = λ j e. e;
  }
  handle_event-Keeps ClientEvent.stop sender success c = record {
    last_id = ground arith;
    absent = λ j e. ground (arith, e);
  }

  -- The client after a round, if there was one.
  abbrev pub KeepsRound : Client x ch → Option (Client x ch × Effect) → Type 0
  KeepsRound c none = Unit
  KeepsRound c (some (c', f)) = Keeps c c'

  pub sender_step-Keeps : (success : Bool) (c : Client x ch) → KeepsRound c (sender_step success c)
  unfolding sender_step
  sender_step-Keeps success c = elim (Option-cases (ch.recv c.queue)) [
    | inl empty ↦ rw (empty, sender_step) tt
    | inr ((m, q), first) ↦
        rw (first, sender_step)
          (Keeps-trans (record { last_id = refl; absent = λ j e. e })
            (handle_event-Keeps m.event m.sender success (record c { queue = q })))
  ]

  pub set_scripts-Keeps : (ss : List ScriptHash) (c : Client x ch) → Keeps c (set_scripts ss c)
  unfolding set_scripts
  set_scripts-Keeps ss c = record { last_id = refl; absent = λ j e. e }

  pub add_script-Keeps : (s : ScriptHash) (c : Client x ch) → Keeps c (add_script s c).0
  unfolding add_script set_scripts
  add_script-Keeps s c = record { last_id = ground arith; absent = λ j e. ground (arith, e) }

  pub drop_script-Keeps : (s : ScriptHash) (c : Client x ch) → Keeps c (drop_script s c).0
  unfolding drop_script set_scripts
  drop_script-Keeps s c = record { last_id = ground arith; absent = λ j e. ground (arith, e) }

  pub add_scripts-Keeps : (ss : List ScriptHash) (c : Client x ch) → Keeps c (add_scripts ss c).0
  unfolding add_scripts
  add_scripts-Keeps [] c = Keeps-refl c
  add_scripts-Keeps (s ∷ ss) c = elim (Bool-cases (subscribed c s)) [
    | inl old ↦
        subst (λ (r : Client x ch × Result (Unit {0}) Error). Keeps c r.0)
          (sym (add_scripts-old s c ss old)) (Keeps-refl c)
    | inr fresh ↦
        subst (λ (r : Client x ch × Result (Unit {0}) Error). Keeps c r.0)
          (sym (add_scripts-new s c ss fresh))
          (Keeps-trans (set_scripts-Keeps (Set.insert c.scripts s) c)
            (add_scripts-Keeps ss (set_scripts (Set.insert c.scripts s) c)))
  ]
