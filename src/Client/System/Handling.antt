-- ===== src/Client/System/Handling.antt =====
-- src/client.rs: the receiver task's handling of a message, with the history.
use electrum_sdk.Base.{
  ℕ, ◌≡◌, refl, sym, ap, ◌∙◌, subst, List, [], ◌∷◌, ◌++◌, Option, none, some, nat_eq, if◌then◌else◌,
  arith, inl, inr, append-nil, String, done, Outcome-cases, Option-cases, Result-cases, Bool-cases,
}
use electrum_sdk.Base.Map
use electrum_sdk.Base.Map.{get-insert, get-remove}
use electrum_sdk.External.{External}
use electrum_sdk.Channel.{Channel}
use electrum_sdk.Types.Hash.{hash_eq}
use electrum_sdk.Types.Request.{Request, method}
use electrum_sdk.Types.Message.{JsonRpcMsg}
use electrum_sdk.Types.Message
use electrum_sdk.Types.Notification.{to_notification}
use electrum_sdk.Types.Response.{Response, to_response}
use electrum_sdk.Types.Response.Kinds.{kind, to_response-kind}
use electrum_sdk.Client.{Client, Message, ClientNotification, publish}
use electrum_sdk.Client.Receive.{Flow, goes_on, handle_msg, handle_notification, remove_request}
use electrum_sdk.Client.Receive.Answers.{
  answer-done, answer_panics, answer_missing, answer_dropped, publish_response_ne,
}
use electrum_sdk.Client.System.{filed, settled, settle, update, after_msg, System, at}
use electrum_sdk.Client.System.Phases.{
  responses_under, responses_under-append, AnswersOnce, Fits, Fits-none, Fits-filed, IsConsistent,
}
use electrum_sdk.Client.System.Inventory.{Fits-eq, Fits-if, if_same}

module _ {x : External} where
  -- A response that is published last, under an id that has none.
  responses_under-publish :
      (id j : ℕ) (r : Response x) (ns : List (ClientNotification x))
      → responses_under id ns ≡ []
      → responses_under j (ns ++ ClientNotification.response id r ∷ [])
        ≡ (if nat_eq id j then r ∷ [] else responses_under j ns)
  responses_under-publish id j r ns none_yet =
      responses_under-append j ns (ClientNotification.response id r ∷ [])
      ∙ (elim (Bool-cases (nat_eq id j)) [
        | inl hit ↦
            let same : id ≡ j = ground (arith, hit) in
            subst
              (λ i.
                (responses_under i ns ++ responses_under i (ClientNotification.response id r ∷ []))
                ≡ (if nat_eq id i then r ∷ [] else responses_under i ns))
              same (ground (arith, none_yet))
        | inr miss ↦ ground (arith, miss, append-nil (responses_under j ns))
      ])

module _ {x : External} {ch : Channel (Message x)} where
  -- An answer that settles the id of a request in the inventory, with these responses under it.
  settles-IsConsistent :
      (s : System x ch) (id : ℕ) (req : Request x) (c' : Client x ch) (rs : List (Response x))
      → s.phase id ≡ filed req
      → AnswersOnce req rs
      → c'.last_id ≡ s.client.last_id
      → ((j : ℕ)
          → Map.get c'.inventory j ≡ (if nat_eq id j then none else Map.get s.client.inventory j))
      → ((j : ℕ)
          → responses_under j c'.published
            ≡ (if nat_eq id j then rs else responses_under j s.client.published))
      → IsConsistent s
      → IsConsistent (record { client = c'; phase = update s.phase id (settle (s.phase id)) })
  settles-IsConsistent s id req c' rs owned answers last entry under v =
      let done : settle (s.phase id) ≡ settled req = ap settle owned in
      record {
        fits = λ j.
            Fits-eq (update s.phase id (settle (s.phase id)) j) (sym (entry j)) (sym (under j)) (
              Fits-if (nat_eq id j) (settle (s.phase id)) (s.phase j) _ _ _ _
                (subst (λ p. Fits p none rs) (sym done) (refl, answers)) (v.fits j));
        fresh = λ j h. let still = v.fresh j (omega (arith, last)) in ground (arith, still, owned);
      }

  -- The system after a message, by what the receiver task made of it.
  abbrev pub ConsistentAfter : JsonRpcMsg x → System x ch → Client x ch × Flow → Type 0
  ConsistentAfter msg s o =
      IsConsistent (record { client = o.0; phase = after_msg msg o.1 s.phase })

  module _ (s : System x ch) (v : IsConsistent s) (id : ℕ) (jsonrpc : String)
      (result error : Option x.Value) where
    abbrev msg : JsonRpcMsg x
    msg = Message.response id jsonrpc result error

    missing-IsConsistent :
        Map.get s.client.inventory id ≡ none
        → ConsistentAfter msg s (remove_request id s.client, goes_on)
    unfolding remove_request
    missing-IsConsistent missing =
        let same : settle (s.phase id) ≡ s.phase id =
          Fits-none (s.phase id) _ _ missing (v.fits id) in
        let old =
          subst (λ p. Fits p none (responses_under id s.client.published)) (sym same)
            (Fits-eq (s.phase id) missing refl (v.fits id)) in
        record {
          fits = λ j.
              Fits-eq (update s.phase id (settle (s.phase id)) j)
                (sym (get-remove s.client.inventory id j))
                (if_same (λ i. responses_under i s.client.published) id j)
                (Fits-if (nat_eq id j) (settle (s.phase id)) (s.phase j) _ _ _ _ old (v.fits j));
          fresh = λ j h. ground (arith, v.fresh j h, same);
        }

    module _ (req : Request x) (filed_under : Map.get s.client.inventory id ≡ some req) where
      dropped-IsConsistent : ConsistentAfter msg s (remove_request id s.client, goes_on)
      unfolding remove_request
      dropped-IsConsistent =
          let (owned, empty) = Fits-filed (s.phase id) _ _ req filed_under (v.fits id) in
          settles-IsConsistent s id req (remove_request id s.client) [] owned tt refl
            (get-remove s.client.inventory id)
            (λ j.
              sym (if_same (λ i. responses_under i s.client.published) id j)
              ∙ elim (Bool-cases (nat_eq id j)) [ inl hit ↦ rw hit empty | inr miss ↦ rw miss ])
            v

      published-IsConsistent :
          (r : Response x)
          → kind r ≡ some (method req)
          → ConsistentAfter msg s
              (remove_request id (publish (ClientNotification.response id r) s.client), goes_on)
      unfolding remove_request publish
      published-IsConsistent r k =
          let (owned, empty) = Fits-filed (s.phase id) _ _ req filed_under (v.fits id) in
          settles-IsConsistent s id req _ (r ∷ []) owned k refl (get-remove s.client.inventory id)
            (λ j. responses_under-publish id j r s.client.published empty) v

      answered-IsConsistent : ConsistentAfter msg s (handle_msg msg s.client)
      answered-IsConsistent = elim (Outcome-cases (to_response x msg req)) [
        | inl (r, read) ↦ elim (to_response-kind x msg req r read) [
          | inl is_null ↦
              subst (ConsistentAfter msg s)
                (sym (
                  answer_dropped id jsonrpc result error s.client req filed_under
                    (inl (read ∙ ap done is_null))))
                dropped-IsConsistent
          | inr k ↦
              subst (ConsistentAfter msg s)
                (sym (
                  answer-done id jsonrpc result error s.client req r filed_under read
                  ∙ ap (λ c. (remove_request id c, goes_on))
                      (publish_response_ne id r s.client (λ e. cc (k, ap kind e)))))
                (published-IsConsistent r k)
        ]
        | inr (inl (e, read)) ↦
            subst (ConsistentAfter msg s)
              (sym
                (answer_dropped id jsonrpc result error s.client req filed_under (inr (e, read))))
              dropped-IsConsistent
        | inr (inr read) ↦
            subst (ConsistentAfter msg s)
              (sym (answer_panics id jsonrpc result error s.client req filed_under read)) v
      ]

    response-IsConsistent : ConsistentAfter msg s (handle_msg msg s.client)
    response-IsConsistent = elim (Option-cases (Map.get s.client.inventory id)) [
      | inl missing ↦
          subst (ConsistentAfter msg s)
            (sym (answer_missing id jsonrpc result error s.client missing))
            (missing-IsConsistent missing)
      | inr (req, filed_under) ↦ answered-IsConsistent req filed_under
    ]

  pub notified-IsConsistent :
      (s : System x ch) (n : ClientNotification x)
      → ((j : ℕ) → responses_under j (n ∷ []) ≡ [])
      → IsConsistent s
      → IsConsistent (at s (publish n s.client))
  unfolding publish
  notified-IsConsistent s n none_under v = record {
    fits = λ j.
        Fits-eq (s.phase j) refl
          (sym (
            responses_under-append j s.client.published (n ∷ [])
            ∙ ap (λ rs. responses_under j s.client.published ++ rs) (none_under j)
            ∙ append-nil (responses_under j s.client.published)))
          (v.fits j);
    fresh = v.fresh;
  }

  -- Each message that the receiver task handles keeps the system consistent.
  pub handles-IsConsistent :
      (msg : JsonRpcMsg x) (s : System x ch)
      → IsConsistent s
      → ConsistentAfter msg s (handle_msg msg s.client)
  handles-IsConsistent (Message.response id jsonrpc result error) s v =
      response-IsConsistent s v id jsonrpc result error
  handles-IsConsistent (Message.request id jsonrpc m ps) s v = unfold handle_msg in v
  handles-IsConsistent (Message.notification jsonrpc m ps) s v =
      elim (Result-cases (to_notification x (Message.notification jsonrpc m ps))) [
        | inl (n, read) ↦
            unfold handle_msg handle_notification in
            rw (read, handle_notification)
              (notified-IsConsistent s (ClientNotification.notification n) (λ j. refl) v)
        | inr (r, read) ↦ unfold handle_msg handle_notification in rw (read, handle_notification) v
      ]
