-- ===== src/Tests/Renewals.antt =====
-- New connections of a client that is subscribed to the headers, on concrete inputs.
use electrum_sdk.Base.{◌≡◌, refl, List, [], ◌∷◌, ◌++◌, true, false, none, arith}
use electrum_sdk.Types.Request.{Request}
use electrum_sdk.Types.Response.{Response}
use electrum_sdk.Types.Message.{compose_request}
use electrum_sdk.Client.{
  Client, ClientEvent, ClientNotification, connected, set_status, disconnected,
}
use electrum_sdk.Client.Send.{register}
use electrum_sdk.Client.Send.Laws.{Queued}
use electrum_sdk.Client.Await.{Received, received}
use electrum_sdk.Client.Connect.{refused, accepted, blocks, sleeps, try_connect, run_loop}
use electrum_sdk.Client.Connect.Closing.{closing}
use electrum_sdk.Client.Connect.Recovery.{Renewed, recovers}
use electrum_sdk.Client.Receive.{eof, receive}
use electrum_sdk.Client.Sender.{Effect, run_sender}
use electrum_sdk.Client.Sender.Wire.{Writes}
use electrum_sdk.Client.Sender.Order.{Drained}
use electrum_sdk.Client.Connect.Headers.{
  headers_message, renewal_message, headers_unanswered, headers_answered,
}
use electrum_sdk.Tests.Concrete.{crates}
use electrum_sdk.Tests.Pipelines.{sending, laden}
use electrum_sdk.Tests.Calls.{events, events-IsChannel, offline, hash_2}

abbrev reader : Client crates events
reader = record offline { subscriptions = record { headers = true; scripts = hash_2 ∷ [] } }

-- A response to another request, and one to that for the headers.
abbrev pong_to_another : Received crates
pong_to_another = received (ClientNotification.response 8 Response.pong)

abbrev refusal : Received crates
refusal = received (ClientNotification.response 0 Response.pong)

headers_unanswered_example :
    (c' : Client crates events) × (run_loop (accepted (pong_to_another ∷ []) ∷ refused ∷ []) reader
      ≡ (c', blocks))
    × Queued events-IsChannel
        (ClientEvent.send_msg (compose_request 0 Request.block_header_subscribe))
        none
        (register Request.block_header_subscribe (set_status connected reader))
        c'
headers_unanswered_example =
    headers_unanswered events-IsChannel (pong_to_another ∷ []) (refused ∷ []) reader refl refl refl
      (ground arith) (ground arith, tt)

headers_answered_example :
    (c' : Client crates events) × (try_connect (accepted (pong_to_another ∷ refusal ∷ [])) reader
      ≡ (c', true))
    × (c'.status ≡ connected)
    × (events.pending c'.queue
        ≡ headers_message {x = crates} 0 ∷ renewal_message 1 (hash_2 ∷ []) ∷ [])
headers_answered_example =
    headers_answered events-IsChannel (pong_to_another ∷ refusal ∷ []) Response.pong hash_2 []
      reader refl refl (ground arith) (pong_to_another ∷ [], [], refl, (ground arith, tt))

-- A connected client with two events in its channel, and a subscription to a script.
abbrev subscriber : Client crates events
subscriber = record laden { subscriptions = record { headers = false; scripts = hash_2 ∷ [] } }

recovers_example :
    (c' : Client crates events) × (fs : List Effect) × (run_sender
        (true ∷ true ∷ true ∷ [])
        (receive eof subscriber).0
      ≡ (c', fs ++ closing ∷ []))
    × Writes fs sending
    × Drained events-IsChannel [] (set_status disconnected subscriber) c'
    × ((c'' : Client crates events) × (run_loop (refused ∷ refused ∷ accepted [] ∷ []) c'
          ≡ (c'', sleeps))
        × Renewed events-IsChannel (hash_2 ∷ []) c' c''
        × (events.pending c''.queue ≡ renewal_message 0 (hash_2 ∷ []) ∷ []))
recovers_example =
    recovers events-IsChannel eof sending [] 2 [] hash_2 [] subscriber tt refl refl refl refl
      (tt, (tt, tt)) refl (ground arith)
