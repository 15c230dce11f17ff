-- ===== src/Client/Run/Leaves.antt =====
-- What leaves the scripts, or the notifications, as they are.
use electrum_sdk.Base.{
  ℕ, ◌≡◌, refl, ◌∙◌, List, [], ◌∷◌, none, some, arith, Bool-cases, Option-cases, Result-cases,
  Outcome, done, fail, panic, inl, inr,
}
use electrum_sdk.Base.Map
use electrum_sdk.External.{External}
use electrum_sdk.Channel.{Channel}
use electrum_sdk.Types.Hash.{ScriptHash, hash_eq}
use electrum_sdk.Types.Request.{Request}
use electrum_sdk.Types.Message.{JsonRpcMsg, from_json, compose_request}
use electrum_sdk.Types.Message
use electrum_sdk.Types.Notification.{to_notification}
use electrum_sdk.Types.Response.{Response, null}
use electrum_sdk.Client.{Client, Message, ClientEvent, publish, set_scripts, schedule_for_stop}
use electrum_sdk.Client.Send.{
  Wait, send_client_event, send_and_wait, register, register_all, send_msg, send_batch_msg,
  disconnect, stop,
}
use electrum_sdk.Client.Send.Batch.{file_all, register_all_lem, ids_from, messages_from}
use electrum_sdk.Client.Receive.{
  Read, line, eof, failed, receive, handle_line, handle_msg, handle_response, handle_answer,
  handle_notification, remove_request, publish_response,
}
use electrum_sdk.Client.Subscribe.{add_script, drop_script, add_scripts}
use electrum_sdk.Client.Subscribe.Laws.{subscribed, add_scripts-old, add_scripts-new}

module _ {x : External} {ch : Channel (Message x)} where
  -- The scripts and the notifications are left as they are.
  pub record Leaves (c c' : Client x ch) : Type 0 where
    pub scripts : c'.scripts ≡ c.scripts
    pub published : c'.published ≡ c.published

  pub Leaves-trans : {c d e : Client x ch} → Leaves c d → Leaves d e → Leaves c e
  Leaves-trans k l = record {
    scripts = l.scripts ∙ k.scripts;
    published = l.published ∙ k.published;
  }

  pub send_and_wait-Leaves :
      {A : Type 0} (event : ClientEvent x) (a : A) (wait : Wait) (c : Client x ch)
      → Leaves c (send_and_wait event a wait c).0
  unfolding send_and_wait send_client_event
  send_and_wait-Leaves event a none c = record { scripts = ground arith; published = ground arith }
  send_and_wait-Leaves event a (some (sender, reply)) c = record {
    scripts = ground arith;
    published = ground arith;
  }

  pub file_all-Leaves : (reqs : List (Request x)) (c : Client x ch) → Leaves c (file_all reqs c)
  unfolding file_all register
  file_all-Leaves [] c = record { scripts = refl; published = refl }
  file_all-Leaves (req ∷ reqs) c =
      let l = file_all-Leaves reqs (register req c) in
      record { scripts = l.scripts; published = l.published }

  pub send_msg-Leaves :
      (req : Request x) (wait : Wait) (c : Client x ch) → Leaves c (send_msg req wait c).0
  unfolding send_msg file_all
  send_msg-Leaves req wait c = Leaves-trans (file_all-Leaves (req ∷ []) c) (
      send_and_wait-Leaves (ClientEvent.send_msg (compose_request c.last_id req)) c.last_id wait
        (register req c))

  pub send_batch_msg-Leaves :
      (reqs : List (Request x)) (wait : Wait) (c : Client x ch)
      → Leaves c (send_batch_msg reqs wait c).0
  unfolding send_batch_msg register_all
  send_batch_msg-Leaves [] wait c = record { scripts = refl; published = refl }
  send_batch_msg-Leaves (req ∷ reqs) wait c =
      rw (send_batch_msg, register_all_lem (req ∷ reqs) [] [] c)
        (Leaves-trans (file_all-Leaves (req ∷ reqs) c) (
          send_and_wait-Leaves (ClientEvent.send_batch (messages_from c.last_id (req ∷ reqs)))
            (ids_from c.last_id (req ∷ reqs)) wait (file_all (req ∷ reqs) c)))

  pub disconnect-Leaves : (c : Client x ch) → Leaves c (disconnect c).0
  unfolding disconnect send_client_event
  disconnect-Leaves c = record { scripts = ground arith; published = ground arith }

  pub stop-Leaves : (c : Client x ch) → Leaves c (stop c).0
  unfolding stop send_client_event schedule_for_stop
  stop-Leaves c = record { scripts = ground arith; published = ground arith }

  pub add_script-published :
      (s : ScriptHash) (c : Client x ch) → (add_script s c).0.published ≡ c.published
  unfolding add_script set_scripts
  add_script-published s c = ground arith

  pub drop_script-published :
      (s : ScriptHash) (c : Client x ch) → (drop_script s c).0.published ≡ c.published
  unfolding drop_script set_scripts
  drop_script-published s c = ground arith

  pub add_scripts-published :
      (ss : List ScriptHash) (c : Client x ch) → (add_scripts ss c).0.published ≡ c.published
  unfolding set_scripts
  add_scripts-published [] c = unfold add_scripts in refl
  add_scripts-published (s ∷ ss) c = elim (Bool-cases (subscribed c s)) [
    | inl old ↦ rw (add_scripts-old s c ss old) refl
    | inr fresh ↦ rw (add_scripts-new s c ss fresh) (add_scripts-published ss _)
  ]

  pub handle_answer-scripts :
      (id : ℕ) (o : Outcome (Response x) (Message.Error x)) (c : Client x ch)
      → (handle_answer id o c).0.scripts ≡ c.scripts
  unfolding handle_answer remove_request publish_response publish
  handle_answer-scripts id (done null) c = refl
  handle_answer-scripts id (done _) c = refl
  handle_answer-scripts id (fail e) c = refl
  handle_answer-scripts id panic c = refl

  pub handle_msg-scripts :
      (msg : JsonRpcMsg x) (c : Client x ch) → (handle_msg msg c).0.scripts ≡ c.scripts
  unfolding handle_msg handle_response handle_notification publish
  handle_msg-scripts (Message.response id jsonrpc result error) c =
      elim (Option-cases (Map.get c.inventory id)) [
        | inl missing ↦ rw (missing, handle_response) (unfold remove_request in refl)
        | inr (req, filed) ↦ rw (filed, handle_response) (handle_answer-scripts id _ c)
      ]
  handle_msg-scripts (Message.notification jsonrpc m ps) c =
      elim (Result-cases (to_notification x (Message.notification jsonrpc m ps))) [
        | inl (n, read) ↦ rw (read, handle_notification) refl
        | inr (r, read) ↦ rw (read, handle_notification) refl
      ]
  handle_msg-scripts (Message.request id jsonrpc m ps) c = refl

  pub receive-scripts : (r : Read) (c : Client x ch) → (receive r c).0.scripts ≡ c.scripts
  unfolding receive handle_line
  receive-scripts (line text) c = elim (Result-cases (from_json x text)) [
    | inl (msg, read) ↦ rw (read, handle_line) (handle_msg-scripts msg c)
    | inr (r, read) ↦ rw (read, handle_line) refl
  ]
  receive-scripts eof c = (disconnect-Leaves c).scripts
  receive-scripts failed c = (disconnect-Leaves c).scripts
