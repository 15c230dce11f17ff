-- ===== src/Tests/Systems.antt =====
-- The tasks of a connection together, on concrete inputs.
use electrum_sdk.Base.{◌≡◌, refl, true, none, some, arith}
use electrum_sdk.Base.Map
use electrum_sdk.Types.Request.{method}
use electrum_sdk.Types.Message
use electrum_sdk.Types.Message.{JsonRpcMsg}
use electrum_sdk.Types.Response.{Response, to_response, read_result}
use electrum_sdk.Types.Response.Kinds.{kind}
use electrum_sdk.Client.{new}
use electrum_sdk.Client.Send.{take_id, file}
use electrum_sdk.Client.Receive.{handle_msg}
use electrum_sdk.Client.Await.{get_response}
use electrum_sdk.Client.Api.Readers.{is_accepted}
use electrum_sdk.Client.System.{
  System, start, Actions, here, next, takes_id, files, handles, update, taken, filed, after_msg,
}
use electrum_sdk.Client.System.Answers.{OneAnswer, published_once, own_answer}
use electrum_sdk.Client.System.Phases.{responses_under}
use electrum_sdk.Tests.Json.{boolean}
use electrum_sdk.Tests.Concrete.{crates}
use electrum_sdk.Tests.Calls.{events, ping}

-- A task takes an id and files a ping under it; then the server answers.
abbrev begun : System crates events
begun = start "ssl://host:50002" none

abbrev numbered : System crates events
numbered = record {
  client = take_id begun.client;
  phase = update begun.phase begun.client.last_id (taken ping);
}

abbrev registered : System crates events
registered = record {
  client = file 0 ping numbered.client;
  phase = update numbered.phase 0 (filed ping);
}

abbrev answer : JsonRpcMsg crates
answer = Message.response 0 "2.0" (some (boolean true)) none

abbrev answered : System crates events
answered = record {
  client = (handle_msg answer registered.client).0;
  phase = after_msg answer (handle_msg answer registered.client).1 registered.phase;
}

registered-Actions : Actions 1 begun registered
unfolding new
registered-Actions = next (takes_id ping) (next (files 0 ping refl) here)

answered-Actions : Actions 1 begun answered
unfolding new
answered-Actions = next (takes_id ping) (next (files 0 ping refl) (next (handles answer) here))

published_once_example : OneAnswer (answered.phase 0) (responses_under 0 answered.client.published)
published_once_example =
    published_once "ssl://host:50002" none 1 0 answered answered-Actions (ground arith)

own_answer_example :
    (kind {x = crates} Response.pong ≡ some (method ping)) × (is_accepted ping Response.pong ≡ true)
unfolding new take_id file handle_msg Map.get to_response read_result get_response
own_answer_example =
    own_answer "ssl://host:50002" none 1 0 0 0 ping registered answered Response.pong
      registered-Actions refl (next (handles answer) here) (ground arith) refl
