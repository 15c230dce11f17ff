-- ===== src/Tests/Calls.antt =====
-- Requests of callers, and answers of the server, on a concrete client.
use electrum_sdk.Base.{
  length, ℕ, ◌+◌, ◌<◌, List, ◌≡◌, ◌≢◌, ◌||◌, inr, refl, [], ◌∷◌, map, true, false, none, some, ok,
  err, get_elem?, nat_eq, if◌then◌else◌, arith,
}
use electrum_sdk.Base.Map
use electrum_sdk.Base.Set
use electrum_sdk.Base.Set.{Distinct}
use electrum_sdk.Channel.{Channel, IsChannel}
use electrum_sdk.Types.Hash.{ScriptHash, ToElectrumScriptHash, hash_eq}
use electrum_sdk.Types.Request.{Request}
use electrum_sdk.Types.Message.{JsonRpcMsg, compose_request, as_bytes}
use electrum_sdk.Types.Message
use electrum_sdk.Types.Response.{Response, to_response, read_result}
use electrum_sdk.Client.{
  Client, Message, ClientEvent, ClientNotification, already_subscribed, connected, disconnected,
}
use electrum_sdk.Client.Send.{value, Wait, register_all}
use electrum_sdk.Client.Send.Batch.{messages_from, register_all-get_elem?}
use electrum_sdk.Client.Receive.{goes_on, handle_msg, receive_all, line}
use electrum_sdk.Client.Receive.Answers.{answer_published, answer_unpublished}
use electrum_sdk.Client.Receive.Nulls.{null_never_returned}
use electrum_sdk.Client.Await.{Task, received, returns, fails, get_response}
use electrum_sdk.Client.Subscribe.{add_script, drop_script}
use electrum_sdk.Client.Subscribe.Laws.{subscribed, drop-add}
use electrum_sdk.Client.Api.{batch_script_subscribe}
use electrum_sdk.Client.Api.Subscriptions.{
  batch_script_subscribe_partial, batch_script_subscribe_sent,
}
use electrum_sdk.Tests.Json.{boolean, text}
use electrum_sdk.Tests.Concrete.{crates, list_channel, list_channel-IsChannel, ping_line}

abbrev pub events : Channel (Message crates)
events = list_channel (Message crates)

pub events-IsChannel : IsChannel events
events-IsChannel = list_channel-IsChannel (Message crates)

-- A client on which nothing has happened.
abbrev pub fresh : Client crates events
fresh = record {
  addr = "ssl://host:50002";
  proxy = none;
  status = connected;
  last_id = 0;
  inventory = [];
  subscriptions = record { headers = false; scripts = [] };
  schedule = record { scheduled_for_stop = false };
  queue = (1024, []);
  published = [];
}

abbrev pub ping : Request crates
ping = Request.ping

abbrev pub wait_3 : Wait
wait_3 = some (3, value true)

abbrev pub offline : Client crates events
offline = record fresh { status = disconnected }

abbrev pub features : Request crates
features = Request.features

abbrev batch : Client crates events × List ℕ × List (JsonRpcMsg crates)
batch = register_all (ping ∷ features ∷ []) [] [] fresh

register_all-get_elem?_example :
    (get_elem? batch.1 1 ≡ some (0 + 1))
    × (get_elem? batch.2 1 ≡ some (compose_request (0 + 1) features))
    × (Map.get batch.0.inventory (0 + 1) ≡ some features)
    × (length batch.1 ≡ 2)
    × (length batch.2 ≡ 2)
    × ((j : ℕ) → j < 0 → Map.get batch.0.inventory j ≡ Map.get fresh.inventory j)
register_all-get_elem?_example =
    register_all-get_elem? (ping ∷ features ∷ []) fresh 1 features (ground arith) refl

abbrev pub hash_1 : ScriptHash
hash_1 = record { bytes = 1 ∷ [] }

abbrev pub hash_2 : ScriptHash
hash_2 = record { bytes = 2 ∷ [] }

abbrev pub unsubscribe : Request crates
unsubscribe = Request.script_unsubscribe hash_1

-- A client with one request filed under the id 5.
abbrev filed : Client crates events
filed = record fresh { last_id = 6; inventory = (5, unsubscribe) ∷ [] }

abbrev answer : JsonRpcMsg crates
answer = Message.response 5 "2.0" (some (boolean true)) none

abbrev refusal : JsonRpcMsg crates
refusal = Message.response 5 "2.0" none (some (text "busy"))

abbrev pub unsubscribed : Response crates
unsubscribed = Response.script_unsubscribe true

unsubscribed-ne-null : unsubscribed ≢ Response.null
unsubscribed-ne-null e = cc

answer_published_example :
    ((handle_msg answer filed).1 ≡ goes_on)
    × ((handle_msg answer filed).0.published ≡ ClientNotification.response 5 unsubscribed ∷ [])
    × ((j : ℕ)
        → Map.get (handle_msg answer filed).0.inventory j
          ≡ (if nat_eq 5 j then none else Map.get filed.inventory j))
unfolding Map.get to_response read_result
answer_published_example =
    answer_published 5 "2.0" (some (boolean true)) none filed unsubscribe unsubscribed refl refl
      unsubscribed-ne-null

answer_unpublished_example :
    ((handle_msg refusal filed).1 ≡ goes_on)
    × (record (handle_msg refusal filed).0 { inventory = filed.inventory } ≡ filed)
    × ((j : ℕ)
        → Map.get (handle_msg refusal filed).0.inventory j
          ≡ (if nat_eq 5 j then none else Map.get filed.inventory j))
unfolding Map.get to_response read_result
answer_unpublished_example =
    answer_unpublished 5 "2.0" none (some (text "busy")) filed unsubscribe refl
      (inr (Message.protocol (text "busy"), refl))

null_never_returned_example :
    get_response 0 (map received (receive_all (line ping_line ∷ []) fresh).published)
    ≢ returns (some Response.null)
null_never_returned_example = null_never_returned (line ping_line ∷ []) fresh 0 0 tt

drop-add_example :
    ((add_script hash_1 fresh).1 ≡ ok tt)
    × (add_script hash_1 (add_script hash_1 fresh).0
        ≡ ((add_script hash_1 fresh).0, err (already_subscribed hash_1)))
    × ((drop_script hash_1 (add_script hash_1 fresh).0).1 ≡ ok tt)
    × ((t : ScriptHash)
        → subscribed (drop_script hash_1 (add_script hash_1 fresh).0).0 t ≡ subscribed fresh t)
unfolding Set.contains
drop-add_example = drop-add hash_1 fresh refl

-- A client that is subscribed to the second script already.
abbrev pub follower : Client crates events
follower = record fresh { subscriptions = record { headers = false; scripts = hash_2 ∷ [] } }

-- Two scripts, of which the client is subscribed to the second; a hash of a script is its own hash.
abbrev own_hash : ToElectrumScriptHash ScriptHash
own_hash = record { to_electrum_scripthash = λ h. h }

abbrev partial_add : Client crates events × Task (Unit {0})
partial_add = batch_script_subscribe own_hash (hash_1 ∷ hash_2 ∷ []) wait_3 follower

batch_script_subscribe_partial_example :
    (partial_add.1 ≡ fails (already_subscribed hash_2))
    × ((t : ScriptHash)
        → subscribed partial_add.0 t ≡ (Set.contains (hash_1 ∷ []) t || subscribed follower t))
    × (record partial_add.0 { subscriptions = follower.subscriptions } ≡ follower)
    × (partial_add.0.headers ≡ false)
unfolding Set.contains
batch_script_subscribe_partial_example =
    batch_script_subscribe_partial own_hash (hash_1 ∷ []) hash_2 [] wait_3 follower (refl, tt)
      (refl, tt) refl

abbrev full_add : Client crates events × Task (Unit {0})
full_add = batch_script_subscribe own_hash (hash_1 ∷ hash_2 ∷ []) wait_3 fresh

abbrev subscriptions_sent : List (Request crates)
subscriptions_sent = Request.script_subscribe hash_1 ∷ Request.script_subscribe hash_2 ∷ []

batch_script_subscribe_sent_example :
    (full_add.1 ≡ returns tt)
    × (events.pending full_add.0.queue
        ≡ record {
          event = ClientEvent.send_batch (messages_from 0 subscriptions_sent);
          sender = some 3;
        }
          ∷ [])
    × (full_add.0.inventory ≡ (register_all subscriptions_sent [] [] fresh).0.inventory)
    × ((t : ScriptHash)
        → subscribed full_add.0 t ≡ (Set.contains (hash_1 ∷ hash_2 ∷ []) t || subscribed fresh t))
unfolding Set.contains
batch_script_subscribe_sent_example =
    batch_script_subscribe_sent own_hash events-IsChannel hash_1 (hash_2 ∷ []) wait_3 fresh
      (refl, (refl, tt)) (refl, (refl, tt)) (ground arith)
