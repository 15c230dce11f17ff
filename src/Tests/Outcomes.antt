-- ===== src/Tests/Outcomes.antt =====
-- What calls return, and the rounds of the auto connect loop, on concrete inputs.
use mathlib.Core.List.{Perm}
use electrum_sdk.Base.{ℕ, ◌≡◌, refl, List, [], ◌∷◌, map, none, some, arith}
use electrum_sdk.Types.Hash.{hash_to_scripthash}
use electrum_sdk.Types.Response.{Response, history}
use electrum_sdk.Client.{ClientNotification}
use electrum_sdk.Client.Send.Batch.{ids_from}
use electrum_sdk.Client.Await.{received}
use electrum_sdk.Client.Await.Batch.{Arrives, ids_of, responses_of}
use electrum_sdk.Client.Api.{Given, call_and_read, read_unsubscribe, batch_get_history}
use electrum_sdk.Client.Api.Outcomes.{call_and_read-First}
use electrum_sdk.Client.Api.Histories.{history_requests, batch_get_history-Arrives}
use electrum_sdk.Tests.Concrete.{crates}
use electrum_sdk.Tests.Calls.{
  events-IsChannel, fresh, wait_3, hash_1, hash_2, unsubscribe, unsubscribed,
}

abbrev answered : Given crates
answered = record {
  wait = wait_3;
  received = received (ClientNotification.response 0 unsubscribed) ∷ [];
}

call_and_read-First_example :
    (call_and_read unsubscribe read_unsubscribe answered fresh).1
    ≡ read_unsubscribe (some unsubscribed)
call_and_read-First_example =
    call_and_read-First events-IsChannel unsubscribe read_unsubscribe answered fresh unsubscribed
      (ground arith) refl ([], [], refl, tt)

-- The answers to two requests, the second one first.
abbrev histories : Given crates
histories = record {
  wait = none;
  received =
      received (ClientNotification.response 1 (history []))
      ∷ received (ClientNotification.response 0 (history []))
      ∷ [];
}

batch_get_history-Arrives_example :
    (ps : List (ℕ × Response crates)) × Perm
      (ids_of ps)
      (ids_from 0 (history_requests {x = crates} hash_to_scripthash (hash_1 ∷ hash_2 ∷ [])))
    × Arrives ps histories.received
    × (responses_of ps ≡ map history ([] ∷ [] ∷ []))
unfolding batch_get_history
batch_get_history-Arrives_example =
    batch_get_history-Arrives events-IsChannel hash_to_scripthash hash_1 (hash_2 ∷ []) histories
      fresh ([] ∷ [] ∷ []) (ground arith) (ground arith) (tt, (tt, tt)) refl
