-- ===== src/Client/Receive/Nulls.antt =====
-- src/client.rs: `Response::Null`, the notifications, and what a caller gets.
use electrum_sdk.Base.{
  ℕ, ◌≡◌, ◌≢◌, String, List, [], ◌∷◌, some, Outcome, done, fail, panic, arith, All, All-append,
  All-drop, drop, map, Option-cases, Result-cases, inl, inr, nat_eq, Bool-cases,
}
use electrum_sdk.Base.Map
use electrum_sdk.External.{External}
use electrum_sdk.Channel.{Channel}
use electrum_sdk.Types.Message
use electrum_sdk.Types.Message.{JsonRpcMsg, from_json}
use electrum_sdk.Types.Response.{Response, null}
use electrum_sdk.Types.Notification.{to_notification}
use electrum_sdk.Client.{Client, Message, ClientNotification, publish}
use electrum_sdk.Client.Send.{disconnect}
use electrum_sdk.Client.Receive.{
  Flow, goes_on, ends, panics, Read, line, eof, failed, publish_response, handle_answer,
  handle_response, handle_notification, remove_request, handle_msg, handle_line, receive,
  receive_all, after_flow,
}
use electrum_sdk.Client.Await.{Received, received, lost, elapsed, returns, get_response}

module _ {x : External} where
  -- The notification is not a `Null` response.
  abbrev pub NotNull : ClientNotification x → Type 0
  NotNull (ClientNotification.response id null) = ⊥
  NotNull _ = Unit

  -- What a subscription receives is not a `Null` response.
  abbrev pub ReceivedNotNull : Received x → Type 0
  ReceivedNotNull (received n) = NotNull n
  ReceivedNotNull lost = Unit
  ReceivedNotNull elapsed = Unit

  -- From notifications without `Null`, `get_response` does not return `Null`.
  pub get_response-ne-null :
      (id : ℕ) (rs : List (Received x))
      → All ReceivedNotNull rs
      → get_response id rs ≢ returns (some null)
  unfolding get_response
  get_response-ne-null id [] h e = cc
  get_response-ne-null id (received (ClientNotification.response i null) ∷ rs) h e = absurd h.0
  get_response-ne-null id (received (ClientNotification.response i r) ∷ rs) h e =
      elim (Bool-cases (nat_eq id i)) [
        | inl hit ↦ ground (arith, hit)
        | inr miss ↦ get_response-ne-null id rs h.1 (ground (arith, miss))
      ]
  get_response-ne-null id (received (ClientNotification.notification n) ∷ rs) h e =
      get_response-ne-null id rs h.1 e
  get_response-ne-null id (received ClientNotification.stop ∷ rs) h e =
      get_response-ne-null id rs h.1 e
  get_response-ne-null id (lost ∷ rs) h e = cc
  get_response-ne-null id (elapsed ∷ rs) h e = cc

  map_received :
      (ns : List (ClientNotification x)) → All NotNull ns → All ReceivedNotNull (map received ns)
  map_received [] h = tt
  map_received (n ∷ ns) h = (h.0, map_received ns h.1)

module _ {x : External} {ch : Channel (Message x)} where
  abbrev pub NoNull : Client x ch → Type 0
  NoNull c = All NotNull c.published

  pub publish-NoNull :
      (n : ClientNotification x) (c : Client x ch) → NotNull n → NoNull c → NoNull (publish n c)
  unfolding publish
  publish-NoNull n c k h = All-append NotNull c.published (n ∷ []) h (k, tt)

  publish_response-NoNull :
      (id : ℕ) (r : Response x) (c : Client x ch) → NoNull c → NoNull (publish_response id r c)
  unfolding publish_response
  publish_response-NoNull id null c h = h
  publish_response-NoNull id r c h = publish-NoNull (ClientNotification.response id r) c tt h

  handle_answer-NoNull :
      (id : ℕ) (o : Outcome (Response x) (Message.Error x)) (c : Client x ch)
      → NoNull c
      → NoNull (handle_answer id o c).0
  unfolding handle_answer
  handle_answer-NoNull id (done r) c h = unfold remove_request in publish_response-NoNull id r c h
  handle_answer-NoNull id (fail e) c h = unfold remove_request in h
  handle_answer-NoNull id panic c h = h

  handle_response-NoNull :
      (id : ℕ) (msg : JsonRpcMsg x) (c : Client x ch)
      → NoNull c
      → NoNull (handle_response id msg c).0
  unfolding handle_response
  handle_response-NoNull id msg c h = elim (Option-cases (Map.get c.inventory id)) [
    | inl e ↦ rw (e, handle_response) (unfold remove_request in h)
    | inr (req, e) ↦ rw (e, handle_response) (handle_answer-NoNull id _ c h)
  ]

  handle_notification-NoNull :
      (msg : JsonRpcMsg x) (c : Client x ch) → NoNull c → NoNull (handle_notification msg c)
  unfolding handle_notification
  handle_notification-NoNull msg c h = elim (Result-cases (to_notification x msg)) [
    | inl (n, e) ↦
        rw (e, handle_notification) (publish-NoNull (ClientNotification.notification n) c tt h)
    | inr (r, e) ↦ rw (e, handle_notification) h
  ]

  handle_msg-NoNull :
      (msg : JsonRpcMsg x) (c : Client x ch) → NoNull c → NoNull (handle_msg msg c).0
  unfolding handle_msg
  handle_msg-NoNull (Message.response id jsonrpc result error) c h =
      handle_response-NoNull id (Message.response id jsonrpc result error) c h
  handle_msg-NoNull (Message.notification jsonrpc m ps) c h =
      handle_notification-NoNull (Message.notification jsonrpc m ps) c h
  handle_msg-NoNull (Message.request id jsonrpc m ps) c h = h

  handle_line-NoNull : (text : String) (c : Client x ch) → NoNull c → NoNull (handle_line text c).0
  unfolding handle_line
  handle_line-NoNull text c h = elim (Result-cases (from_json x text)) [
    | inl (msg, e) ↦ rw (e, handle_line) (handle_msg-NoNull msg c h)
    | inr (r, e) ↦ rw (e, handle_line) h
  ]

  disconnect-published : (c : Client x ch) → (disconnect c).0.published ≡ c.published
  unfolding disconnect
  disconnect-published c = ground arith

  pub receive-NoNull : (r : Read) (c : Client x ch) → NoNull c → NoNull (receive r c).0
  unfolding receive
  receive-NoNull (line text) c h = handle_line-NoNull text c h
  receive-NoNull eof c h = rw (disconnect-published c) h
  receive-NoNull failed c h = rw (disconnect-published c) h

  after_flow-NoNull :
      (f : Flow) (a b : Client x ch) → NoNull a → NoNull b → NoNull (after_flow f a b)
  after_flow-NoNull goes_on a b h k = h
  after_flow-NoNull ends a b h k = k
  after_flow-NoNull panics a b h k = k

  -- Whatever the server sends, the receiver task publishes no `Null` response.
  pub receive_all-NoNull : (rs : List Read) (c : Client x ch) → NoNull c → NoNull (receive_all rs c)
  unfolding receive_all
  receive_all-NoNull [] c h = h
  receive_all-NoNull (r ∷ rs) c h =
      let once = receive-NoNull r c h in
      after_flow-NoNull (receive r c).1 _ _ (receive_all-NoNull rs (receive r c).0 once) once

  -- Whatever the server sends to a client that has published no `Null`, a caller that subscribes after
  -- any number of notifications never gets `Null` for its id.
  pub null_never_returned :
      (reads : List Read) (c : Client x ch) (k id : ℕ)
      → NoNull c
      → get_response id (map received (drop k (receive_all reads c).published))
        ≢ returns (some null)
  null_never_returned reads c k id h = get_response-ne-null id _ (
      map_received (drop k (receive_all reads c).published)
        (All-drop NotNull k _ (receive_all-NoNull reads c h)))
