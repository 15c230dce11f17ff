-- ===== src/Client/Receive/Answers.antt =====
-- What the receiver task does with an answer of the server.
use electrum_sdk.Base.{
  ℕ, ◌≡◌, ◌≢◌, refl, ap, ◌∙◌, ◌⊎◌, inl, inr, [], ◌∷◌, ◌++◌, Option, none, some, done, fail, panic,
  String, arith, nat_eq, if◌then◌else◌, Outcome-cases, Option-cases,
}
use electrum_sdk.Base.Map
use electrum_sdk.Base.Map.{get-remove}
use electrum_sdk.External.{External}
use electrum_sdk.Channel.{Channel}
use electrum_sdk.Types.Request.{Request, method}
use electrum_sdk.Types.Message.{JsonRpcMsg}
use electrum_sdk.Types.Message
use electrum_sdk.Types.Response.{Response, to_response, null}
use electrum_sdk.Types.Response.Kinds.{kind, to_response-kind}
use electrum_sdk.Client.{Client, Message, ClientNotification, publish}
use electrum_sdk.Client.Receive.{
  Flow, goes_on, panics, remove_request, publish_response, handle_msg,
}

module _ {x : External} {ch : Channel (Message x)} where
  pub publish_response_ne :
      (id : ℕ) (r : Response x) (c : Client x ch)
      → r ≢ null
      → publish_response id r c ≡ publish (ClientNotification.response id r) c
  unfolding publish_response
  publish_response_ne id null c h = absurd (h refl)
  publish_response_ne id _ c h = refl

  module _ (id : ℕ) (jsonrpc : String) (result error : Option x.Value) (c : Client x ch) where
    pub answer-done :
        (req : Request x) (r : Response x)
        → Map.get c.inventory id ≡ some req
        → to_response x (Message.response id jsonrpc result error) req ≡ done r
        → handle_msg (Message.response id jsonrpc result error) c
          ≡ (remove_request id (publish_response id r c), goes_on)
    unfolding handle_msg
    answer-done req r filed read = ground (arith, filed, read)

    -- An answer that is read as something other than `Null` is published under its id, and the request
    -- is no longer filed; the other entries stay.
    pub answer_published :
        (req : Request x) (r : Response x)
        → Map.get c.inventory id ≡ some req
        → to_response x (Message.response id jsonrpc result error) req ≡ done r
        → r ≢ null
        → let out = handle_msg (Message.response id jsonrpc result error) c in
          (out.1 ≡ goes_on)
          × (out.0.published ≡ c.published ++ ClientNotification.response id r ∷ [])
          × ((j : ℕ)
              → Map.get out.0.inventory j ≡ (if nat_eq id j then none else Map.get c.inventory j))
    unfolding publish remove_request
    answer_published req r filed read other =
        rw (answer-done req r filed read, publish_response_ne id r c other)
          (refl, refl, λ j. get-remove c.inventory id j)

    pub answer_dropped :
        (req : Request x)
        → Map.get c.inventory id ≡ some req
        → (to_response x (Message.response id jsonrpc result error) req ≡ done null)
          ⊎ ((e : Message.Error x) × (to_response x (Message.response id jsonrpc result error) req
                ≡ fail e))
        → handle_msg (Message.response id jsonrpc result error) c ≡ (remove_request id c, goes_on)
    unfolding handle_msg
    answer_dropped req filed (inl read) = ground (arith, filed, read)
    answer_dropped req filed (inr (e, read)) = ground (arith, filed, read)

    -- An answer that is read as `Null`, or refused, leaves the client as it was, and so publishes
    -- nothing, but that the request is no longer filed; the task goes on.
    pub answer_unpublished :
        (req : Request x)
        → Map.get c.inventory id ≡ some req
        → (to_response x (Message.response id jsonrpc result error) req ≡ done null)
          ⊎ ((e : Message.Error x) × (to_response x (Message.response id jsonrpc result error) req
                ≡ fail e))
        → let out = handle_msg (Message.response id jsonrpc result error) c in
          (out.1 ≡ goes_on)
          × (record out.0 { inventory = c.inventory } ≡ c)
          × ((j : ℕ)
              → Map.get out.0.inventory j ≡ (if nat_eq id j then none else Map.get c.inventory j))
    unfolding remove_request
    answer_unpublished req filed read =
        rw (answer_dropped req filed read) (refl, refl, λ j. get-remove c.inventory id j)

    pub answer_panics :
        (req : Request x)
        → Map.get c.inventory id ≡ some req
        → to_response x (Message.response id jsonrpc result error) req ≡ panic
        → handle_msg (Message.response id jsonrpc result error) c ≡ (c, panics)
    unfolding handle_msg
    answer_panics req filed read = ground (arith, filed, read)

    pub dropped_published :
        handle_msg (Message.response id jsonrpc result error) c ≡ (remove_request id c, goes_on)
        → (handle_msg (Message.response id jsonrpc result error) c).0.published ≡ c.published
    unfolding remove_request
    dropped_published e = ap (λ (o : Client x ch × Flow). o.0.published) e

    -- An answer publishes nothing, or one response, whose form fits the method of the request that
    -- was filed under the id.
    answer-kind :
        (req : Request x)
        → Map.get c.inventory id ≡ some req
        → let out = (handle_msg (Message.response id jsonrpc result error) c).0 in
          (out.published ≡ c.published)
          ⊎ ((r : Response x) × (out.published
                ≡ c.published ++ ClientNotification.response id r ∷ [])
              × (kind r ≡ some (method req)))
    answer-kind req filed =
        let msg : JsonRpcMsg x = Message.response id jsonrpc result error in
        elim (Outcome-cases (to_response x msg req)) [
          | inl (r, read) ↦ elim (to_response-kind x msg req r read) [
            | inl z ↦ inl (dropped_published (answer_dropped req filed (inl (read ∙ ap done z))))
            | inr k ↦ inr (r, (answer_published req r filed read (λ z. cc (k, ap kind z))).1, k)
          ]
          | inr (inl (e, read)) ↦ inl (dropped_published (answer_dropped req filed (inr (e, read))))
          | inr (inr read) ↦
              inl (ap (λ (o : Client x ch × Flow). o.0.published) (answer_panics req filed read))
        ]

    pub answer_missing :
        Map.get c.inventory id ≡ none
        → handle_msg (Message.response id jsonrpc result error) c ≡ (remove_request id c, goes_on)
    unfolding handle_msg
    answer_missing missing = ground (arith, missing)

    -- An answer with an id under which nothing is filed changes no entry and publishes nothing.
    pub answer_unknown :
        Map.get c.inventory id ≡ none
        → let out = handle_msg (Message.response id jsonrpc result error) c in
          (out.1 ≡ goes_on)
          × (out.0.published ≡ c.published)
          × ((j : ℕ) → Map.get out.0.inventory j ≡ Map.get c.inventory j)
    unfolding remove_request
    answer_unknown missing =
        rw (answer_missing missing)
          (refl, refl, λ j. ground (arith, missing, get-remove c.inventory id j))

    unfiled_published :
        (req : Request x) (r : Response x)
        → Map.get (remove_request id (publish_response id r c)).inventory id ≡ none
    unfolding remove_request
    unfiled_published req r = ground (arith, get-remove (publish_response id r c).inventory id id)

    unfiled :
        (handle_msg (Message.response id jsonrpc result error) c).1 ≡ goes_on
        → Map.get (handle_msg (Message.response id jsonrpc result error) c).0.inventory id ≡ none
    unfiled e =
        let msg : JsonRpcMsg x = Message.response id jsonrpc result error in
        let removed = get-remove c.inventory id id in
        elim (Option-cases (Map.get c.inventory id)) [
          | inl missing ↦
              rw (answer_missing missing) (unfold remove_request in ground (arith, removed))
          | inr (req, filed) ↦ elim (Outcome-cases (to_response x msg req)) [
            | inl (r, read) ↦ rw (answer-done req r filed read) (unfiled_published req r)
            | inr (inl (f, read)) ↦
                rw (answer_dropped req filed (inr (f, read)))
                  (unfold remove_request in ground (arith, removed))
            | inr (inr read) ↦
                cc (e, ap (λ (o : Client x ch × Flow). o.1) (answer_panics req filed read))
          ]
        ]

module _ {x : External} {ch : Channel (Message x)} where
  -- After an answer on which the receiver task goes on, another answer under the same id publishes
  -- nothing.
  answered_once :
      (id : ℕ) (j j' : String) (result error result' error' : Option x.Value) (c : Client x ch)
      → (handle_msg (Message.response id j result error) c).1 ≡ goes_on
      → let c' = (handle_msg (Message.response id j result error) c).0 in
        (handle_msg (Message.response id j' result' error') c').0.published ≡ c'.published
  answered_once id j j' result error result' error' c e =
      (answer_unknown id j' result' error' _ (unfiled id j result error c e)).1
