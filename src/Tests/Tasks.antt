-- ===== src/Tests/Tasks.antt =====
-- The waits of callers, the tasks of a connection, and the auto connect loop, on concrete inputs.
use electrum_sdk.Base.{◌≡◌, ◌≢◌, ◌↔◌, refl, List, [], ◌∷◌, ◌++◌, true, false, some, ok, arith}
use electrum_sdk.Base.Set
use electrum_sdk.External.{Bytes}
use electrum_sdk.Types.Request.{method, params}
use electrum_sdk.Types.Method.{serialize, to_string}
use electrum_sdk.Types.Message.{compose_request, as_bytes}
use electrum_sdk.Types.Message
use electrum_sdk.Types.Response.{Response}
use electrum_sdk.Client.{Client, ClientNotification, stopped}
use electrum_sdk.Client.Send.{stop}
use electrum_sdk.Client.Sender.{Effect, sender_step}
use electrum_sdk.Client.Await.{Received, received, returns, get_response, get_batch_response}
use electrum_sdk.Client.Await.First.{First, get_response_iff}
use electrum_sdk.Client.Await.Batch.{
  Collected, get_batch_response-Collected, get_batch_response-returns,
}
use electrum_sdk.Client.Connect.{refused, ends, loop_round}
use electrum_sdk.Client.Connect.Stopping.{stop_disconnected, stop_connected}
use electrum_sdk.Tests.Json.{number, text, nil, bytes_of, object_of}
use electrum_sdk.Tests.Concrete.{crates}
use electrum_sdk.Tests.Calls.{events, events-IsChannel, fresh, offline, ping}

abbrev pong : Response crates
pong = Response.pong

abbrev other_answer : Received crates
other_answer = received (ClientNotification.response 8 Response.pong)

abbrev awaited : Received crates
awaited = received (ClientNotification.response 5 Response.pong)

abbrev arrivals : List (Received crates)
arrivals = other_answer ∷ awaited ∷ []

get_response_iff_example : (get_response 5 arrivals ≡ returns (some pong)) ↔ First 5 pong arrivals
get_response_iff_example = get_response_iff 5 pong arrivals

-- Two answers in the other order than their requests.
get_batch_response-Collected_example : Collected (5 ∷ 8 ∷ []) [] arrivals (pong ∷ pong ∷ [])
unfolding get_batch_response Set.contains
get_batch_response-Collected_example =
    get_batch_response-Collected (5 ∷ 8 ∷ []) arrivals (pong ∷ pong ∷ []) (refl, (refl, tt))
      (tt, (tt, tt)) refl

get_batch_response-returns_example :
    (res : List (Response crates)) × (get_batch_response (8 ∷ []) arrivals ≡ returns res)
unfolding Set.contains
get_batch_response-returns_example =
    get_batch_response-returns 8 [] arrivals (λ j c. ground (arith, c))

abbrev ping_bytes : Bytes
ping_bytes =
    bytes_of (
      object_of (
        ("id", number 0)
        ∷ ("jsonrpc", text "2.0")
        ∷ ("method", text "server.ping")
        ∷ ("params", nil)
        ∷ []))
    ++ b'\n' ∷ []

ping_encoded : as_bytes crates (compose_request 0 ping) ≡ ok ping_bytes
unfolding as_bytes compose_request method params Message.members serialize to_string
ping_encoded = refl

pong-ne-null : pong ≢ Response.null
pong-ne-null e = cc

stop_disconnected_example :
    ((loop_round refused (stop offline).0).1 ≡ ends)
    × ((loop_round refused (stop offline).0).0.status ≡ stopped)
    × ((loop_round refused (stop offline).0).0.scheduled_for_stop ≡ false)
    × ((loop_round refused (stop offline).0).0.queue ≡ offline.queue)
    × ((loop_round refused (stop offline).0).0.published ≡ offline.published)
stop_disconnected_example = stop_disconnected refused offline refl

stop_connected_example :
    (c' : Client crates events) × (f : Effect) × (sender_step true (stop fresh).0 ≡ some (c', f))
    × (f.breaks ≡ true)
    × (f.shutdown ≡ true)
    × (c'.status ≡ stopped)
    × (c'.scheduled_for_stop ≡ false)
    × (c'.published ≡ ClientNotification.stop ∷ [])
    × (loop_round refused c' ≡ (c', ends))
stop_connected_example = stop_connected events-IsChannel true refused fresh refl refl (ground arith)
