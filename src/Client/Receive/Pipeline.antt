-- ===== src/Client/Receive/Pipeline.antt =====
-- src/client.rs: the lines of a server: answers to several requests, in any order, among notifications
-- and lines of no use.
use electrum_sdk.Base.{
  ℕ_eq, ℕ, ◌≡◌, ◌≢◌, ◌⊎◌, inl, inr, sym, ap, ◌∙◌, String, List, [], ◌∷◌, ◌++◌, append-nil,
  append_assoc, map, false, Option, none, some, ok, err, done, All, arith, nat_eq, if◌then◌else◌,
}
use electrum_sdk.Base.Map
use electrum_sdk.Base.Set.{Distinct, contains}
use electrum_sdk.External.{External}
use electrum_sdk.Channel.{Channel}
use electrum_sdk.Types.Method.{Method}
use electrum_sdk.Types.Request.{Request, Param}
use electrum_sdk.Types.Message.{JsonRpcMsg, from_json}
use electrum_sdk.Types.Message
use electrum_sdk.Types.Response.{Response, to_response, null}
use electrum_sdk.Types.Notification.{Notification, to_notification}
use electrum_sdk.Client.{Client, Message, ClientNotification, publish}
use electrum_sdk.Client.Receive.{
  Read, line, Flow, after_flow, goes_on, handle_msg, handle_line, handle_notification, receive,
  receive_all,
}
use electrum_sdk.Client.Receive.Answers.{answer_published}
use electrum_sdk.Client.Await.{received, returns, get_response}

-- An answer of the server, the request that it answers, and the response that is read from it.
pub record Answer (x : External) : Type 0 where
  pub id : ℕ
  pub jsonrpc : String
  pub result : Option x.Value
  pub error : Option x.Value
  pub request : Request x
  pub response : Response x

-- A line with an answer; with a notification; or without use, which is only logged.
pub data Incoming (x : External) : Type 0 where
  answers : (text : String) → Answer x → Incoming x
  notifies : (text jsonrpc : String) → Method → x.Value → Notification x → Incoming x
  useless : (text : String) → Incoming x

-- The line is no message, a request, or a notification that cannot be read.
abbrev pub IsUseless : (x : External) → String → Type 0
IsUseless x text =
    ((e : Message.Error x) × (from_json x text ≡ err e))
    ⊎ (((id : ℕ) × (jsonrpc : String) × (m : Method) × (ps : List Param) × (from_json x text
            ≡ ok (Message.request id jsonrpc m ps)))
        ⊎ ((jsonrpc : String) × (m : Method) × (ps : x.Value) × (e : Message.Error x) × (from_json x
                text
              ≡ ok (Message.notification jsonrpc m ps))
            × (to_notification x (Message.notification jsonrpc m ps) ≡ err e)))

module _ {x : External} where
  abbrev pub message : Answer x → JsonRpcMsg x
  message a = Message.response a.id a.jsonrpc a.result a.error

  -- The line is what it stands for; an answer is read as its response, which is not `Null`.
  abbrev pub IsReadable : Incoming x → Type 0
  IsReadable (answers text a) =
      (from_json x text ≡ ok (message a))
      × (to_response x (message a) a.request ≡ done a.response)
      × (a.response ≢ null)
  IsReadable (notifies text jsonrpc m ps n) =
      (from_json x text ≡ ok (Message.notification jsonrpc m ps))
      × (to_notification x (Message.notification jsonrpc m ps) ≡ ok n)
  IsReadable (useless text) = IsUseless x text

  abbrev pub lines : List (Incoming x) → List Read
  lines [] = []
  lines (answers text a ∷ ls) = line text ∷ lines ls
  lines (notifies text jsonrpc m ps n ∷ ls) = line text ∷ lines ls
  lines (useless text ∷ ls) = line text ∷ lines ls

  abbrev pub answers_of : List (Incoming x) → List (Answer x)
  answers_of [] = []
  answers_of (answers text a ∷ ls) = a ∷ answers_of ls
  answers_of (notifies text jsonrpc m ps n ∷ ls) = answers_of ls
  answers_of (useless text ∷ ls) = answers_of ls

  abbrev pub ids : List (Answer x) → List ℕ
  ids [] = []
  ids (a ∷ as') = a.id ∷ ids as'

  -- What is to be published, in the order of the lines.
  abbrev pub responses : List (Incoming x) → List (ClientNotification x)
  responses [] = []
  responses (answers text a ∷ ls) = ClientNotification.response a.id a.response ∷ responses ls
  responses (notifies text jsonrpc m ps n ∷ ls) = ClientNotification.notification n ∷ responses ls
  responses (useless text ∷ ls) = responses ls

  -- The caller of a request gets its own response.
  abbrev pub IsDelivered : List (ClientNotification x) → Answer x → Type 0
  IsDelivered ns a = get_response a.id (map received ns) ≡ returns (some a.response)

  still-IsDelivered :
      (id : ℕ) (r : Response x) (ns : List (ClientNotification x)) (as' : List (Answer x))
      → contains (ids as') id ≡ false
      → All (IsDelivered ns) as'
      → All (IsDelivered (ClientNotification.response id r ∷ ns)) as'
  unfolding get_response contains
  still-IsDelivered id r ns [] h d = tt
  still-IsDelivered id r ns (a ∷ as') h (d, ds) =
      (ground (arith, h, d), still-IsDelivered id r ns as' (ground (arith, h)) ds)

  passed-IsDelivered :
      (n : Notification x) (ns : List (ClientNotification x)) (as' : List (Answer x))
      → All (IsDelivered ns) as'
      → All (IsDelivered (ClientNotification.notification n ∷ ns)) as'
  unfolding get_response
  passed-IsDelivered n ns [] d = tt
  passed-IsDelivered n ns (a ∷ as') (d, ds) = (d, passed-IsDelivered n ns as' ds)

  pub delivered :
      (ls : List (Incoming x))
      → Distinct (ids (answers_of ls))
      → All (IsDelivered (responses ls)) (answers_of ls)
  unfolding get_response
  delivered [] d = tt
  delivered (answers text a ∷ ls) d = (
    ground arith,
    still-IsDelivered a.id a.response (responses ls) (answers_of ls) d.0 (delivered ls d.1),
  )
  delivered (notifies text jsonrpc m ps n ∷ ls) d =
      passed-IsDelivered n (responses ls) (answers_of ls) (delivered ls d)
  delivered (useless text ∷ ls) d = delivered ls d

module _ {x : External} {ch : Channel (Message x)} where
  abbrev pub IsFiled : Client x ch → Answer x → Type 0
  IsFiled c a = Map.get c.inventory a.id ≡ some a.request

  receive-msg :
      (text : String) (msg : JsonRpcMsg x) (c : Client x ch)
      → from_json x text ≡ ok msg
      → receive (line text) c ≡ handle_msg msg c
  unfolding receive handle_line
  receive-msg text msg c parsed = ground (arith, parsed)

  receive-notification :
      (text jsonrpc : String) (m : Method) (ps : x.Value) (n : Notification x) (c : Client x ch)
      → from_json x text ≡ ok (Message.notification jsonrpc m ps)
      → to_notification x (Message.notification jsonrpc m ps) ≡ ok n
      → receive (line text) c ≡ (publish (ClientNotification.notification n) c, goes_on)
  unfolding handle_msg handle_notification
  receive-notification text jsonrpc m ps n c parsed read =
      receive-msg text _ c parsed ∙ ground (arith, read)

  receive-useless :
      (text : String) (c : Client x ch) → IsUseless x text → receive (line text) c ≡ (c, goes_on)
  unfolding receive handle_line handle_msg handle_notification
  receive-useless text c (inl (e, bad)) = ground (arith, bad)
  receive-useless text c (inr (inl (id, jsonrpc, m, ps, parsed))) = receive-msg text _ c parsed
  receive-useless text c (inr (inr (jsonrpc, m, ps, e, parsed, bad))) =
      receive-msg text _ c parsed ∙ ground (arith, bad)

  still-IsFiled :
      (id : ℕ) (c c' : Client x ch) (as' : List (Answer x))
      → ((j : ℕ) → Map.get c'.inventory j ≡ (if nat_eq id j then none else Map.get c.inventory j))
      → contains (ids as') id ≡ false
      → All (IsFiled c) as'
      → All (IsFiled c') as'
  unfolding contains
  still-IsFiled id c c' [] entries h f = tt
  still-IsFiled id c c' (a ∷ as') entries h (f, fs) =
      (ground (arith, h, f, entries a.id), still-IsFiled id c c' as' entries (ground (arith, h)) fs)

  -- A line on which the task goes on.
  next_line :
      (text : String) (rs : List Read) (c c' : Client x ch)
      → receive (line text) c ≡ (c', goes_on)
      → receive_all (line text ∷ rs) c ≡ receive_all rs c'
  unfolding receive_all
  next_line text rs c c' e =
      ap (λ (o : Client x ch × Flow). after_flow o.1 (receive_all rs o.0) o.0) e

  pub receive_all-answers :
      (ls : List (Incoming x)) (c : Client x ch)
      → Distinct (ids (answers_of ls))
      → All IsReadable ls
      → All (IsFiled c) (answers_of ls)
      → (receive_all (lines ls) c).published ≡ c.published ++ responses ls
  unfolding receive_all publish
  receive_all-answers [] c d r f = sym (append-nil c.published)
  receive_all-answers (answers text a ∷ ls) c d r f =
      let (on, published, entries) =
        answer_published a.id a.jsonrpc a.result a.error c a.request a.response f.0 r.0.1 r.0.2 in
      let c' = (handle_msg (message a) c).0 in
      ap (λ (k : Client x ch). k.published)
        (next_line text (lines ls) c c'
          (receive-msg text (message a) c r.0.0 ∙ ap (λ (w : Flow). (c', w)) on))
      ∙ receive_all-answers ls c' d.1 r.1 (still-IsFiled a.id c c' (answers_of ls) entries d.0 f.1)
      ∙ ap (λ l. l ++ responses ls) published
      ∙ append_assoc c.published (ClientNotification.response a.id a.response ∷ []) (responses ls)
  receive_all-answers (notifies text jsonrpc m ps n ∷ ls) c d r f =
      let c' = publish (ClientNotification.notification n) c in
      ap (λ (k : Client x ch). k.published)
        (next_line text (lines ls) c c' (receive-notification text jsonrpc m ps n c r.0.0 r.0.1))
      ∙ receive_all-answers ls c' d r.1 f
      ∙ append_assoc c.published (ClientNotification.notification n ∷ []) (responses ls)
  receive_all-answers (useless text ∷ ls) c d r f =
      ap (λ (k : Client x ch). k.published)
        (next_line text (lines ls) c c (receive-useless text c r.0))
      ∙ receive_all-answers ls c d r.1 f
