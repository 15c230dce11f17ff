-- ===== src/Tests/Batches.antt =====
-- A batch and its answers, on concrete inputs.
use electrum_sdk.Base.{ℕ, ℕ_eq, ◌≡◌, refl, List, [], ◌∷◌, map, true, traverse, inl, arith}
use electrum_sdk.Base.Set
use electrum_sdk.Base.Set.{contains}
use electrum_sdk.Types.Method.{deserialize, from_str}
use electrum_sdk.Types.Message.{from_json, json}
use electrum_sdk.Types.Notification.{to_notification, read_params}
use electrum_sdk.Types.Response.{Response, to_response, read_result}
use electrum_sdk.Client.{Client}
use electrum_sdk.Client.Send.{send_batch_msg}
use electrum_sdk.Client.Send.Batch.{ids_from}
use electrum_sdk.Client.Receive.{receive_all}
use electrum_sdk.Client.Receive.Pipeline.{answers_of, ids, lines, responses}
use electrum_sdk.Client.Sender.{Effect, run_sender}
use electrum_sdk.Client.Sender.Wire.{Writes}
use electrum_sdk.Client.Sender.Batches.{batch_message, batch_answered}
use electrum_sdk.Client.Await.{received, returns, of_result, get_batch_response, ◌>>=◌}
use electrum_sdk.Tests.Json.{mismatch}
use electrum_sdk.Tests.Concrete.{crates}
use electrum_sdk.Tests.Calls.{
  events, events-IsChannel, fresh, ping, wait_3, unsubscribe, unsubscribed,
}
use electrum_sdk.Tests.Pipelines.{server_lines, unsubscribed-ne-null, pong-ne-null}

same_ids :
    (j : ℕ)
    → contains (ids_from 0 (ping ∷ unsubscribe ∷ [])) j ≡ contains (ids (answers_of server_lines)) j
unfolding contains
same_ids j = ground arith

batch_answered_example :
    (c' : Client crates events) × (fs : List Effect) × (run_sender
        (true ∷ [])
        (send_batch_msg (ping ∷ unsubscribe ∷ []) wait_3 fresh).0
      ≡ (c', fs))
    × Writes fs (batch_message 0 (ping ∷ unsubscribe ∷ []) wait_3 ∷ [])
    × ((receive_all (lines server_lines) c').published ≡ responses server_lines)
    × (get_batch_response
          (ids_from 0 (ping ∷ unsubscribe ∷ []))
          (map received (responses server_lines))
        ≡ returns (unsubscribed ∷ Response.pong ∷ []))
    × ((of_result (send_batch_msg (ping ∷ unsubscribe ∷ []) wait_3 fresh).1 >>= λ is.
          get_batch_response is (map received (responses server_lines)))
        ≡ returns (unsubscribed ∷ Response.pong ∷ []))
unfolding from_json to_response read_result Set.contains to_notification deserialize from_str
    read_params traverse
batch_answered_example =
    batch_answered events-IsChannel ping (unsubscribe ∷ []) wait_3 server_lines fresh refl
      (ground arith) (ground arith) (refl, (refl, tt))
      (
        inl (json mismatch, refl),
        ((refl, refl, unsubscribed-ne-null), ((refl, refl), ((refl, refl, pong-ne-null), tt))),
      )
      ((1, refl, refl), ((0, refl, refl), tt)) same_ids
