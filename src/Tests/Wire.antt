-- ===== src/Tests/Wire.antt =====
-- Methods, hashes and answers on concrete inputs.
use electrum_sdk.Base.{
  true, ℕ, zero, suc, ◌≡◌, ◌/◌, refl, String, [], ◌∷◌, none, some, ok, traverse, done, panic, lift,
  and_then, arith, map, ap, ◌∙◌, ◌<◌, List,
}
use electrum_sdk.External.{Bytes}
use electrum_sdk.Types.Method.{Method, from_str, to_string}
use electrum_sdk.Types.Method.Names.{to_string-from_str}
use electrum_sdk.Types.Request.{Request, method}
use electrum_sdk.Types.Message.{
  read_msg, members, notification, request, response, compose_request, from_json,
}
use electrum_sdk.Types.Response.{usize_mod, Response, header_size, headers_response}
use electrum_sdk.Types.Message.Readback.{member, IsSerde, read_msg-response, read_msg-notification}
use electrum_sdk.Tests.Json.{lookup, visit, array_of, boolean, Json, number, text, object_of}
use electrum_sdk.Types.Structs.{GetHeadersRes, read_headers_res}
use electrum_sdk.Types.Response.Headers.{
  chunks, read_chunk, headers_response-fits, headers_response-short,
}
use electrum_sdk.Tests.Concrete.{crates, ping_line}
use electrum_sdk.Types.Request

to_string-from_str_example : to_string Method.version ≡ "server.version"
unfolding from_str
to_string-from_str_example = to_string-from_str "server.version" Method.version refl

-- 80 bytes in hexadecimal.
abbrev header_text : String
header_text =
    "0000000000000000000000000000000000000000000000000000000000000000000000000000000000000000000000000000000000000000000000000000000000000000000000000000000000000000"

abbrev headers_value : ℕ → Json
headers_value count =
    object_of (("max", number 2016) ∷ ("count", number count) ∷ ("hex", text header_text) ∷ [])

abbrev zeros : ℕ → Bytes
zeros zero = []
zeros (suc n) = 0 ∷ zeros n

abbrev headers_read : ℕ → GetHeadersRes crates
headers_read count = record { max = 2016; count = count; raw_headers = zeros 80; headers = [] }

headers_response-fits_example :
    headers_response crates (headers_value 1)
    ≡ and_then (lift (traverse read_chunk (chunks 1 (zeros 80)))) λ hs.
      done (Response.block_headers (record (headers_read 1) { raw_headers = []; headers = hs }))
unfolding read_headers_res
headers_response-fits_example =
    headers_response-fits (headers_value 1) (headers_read 1) refl (ground arith) (ground arith)

headers_response-short_example :
    headers_response crates (headers_value 2)
    ≡ and_then (lift (traverse read_chunk (chunks (80 / header_size) (zeros 80)))) λ hs. panic
unfolding read_headers_res
headers_response-short_example =
    headers_response-short (headers_value 2) (headers_read 2) refl (ground arith) (ground arith)

lookup-object_of :
    (name : String) (ms : List (String × Json)) → lookup name (object_of ms) ≡ member name ms
lookup-object_of name [] = refl
lookup-object_of name ((other, v) ∷ ms) = ground (arith, lookup-object_of name ms)

map-lookup :
    (names : List String) (ms : List (String × Json))
    → map (λ n. lookup n (object_of ms)) names ≡ map (λ n. member n ms) names
map-lookup [] ms = refl
map-lookup (name ∷ names) ms =
    ap (λ v. v ∷ map (λ n. lookup n (object_of ms)) names) (lookup-object_of name ms)
    ∙ ap (◌∷◌ (member name ms)) (map-lookup names ms)

visit_members :
    (names : List String) (ms : List (String × Json))
    → visit names (object_of ms) ≡ ok (map (λ n. member n ms) names)
visit_members names [] = refl
visit_members names ((other, v) ∷ ms) = ap ok (map-lookup names ((other, v) ∷ ms))

read_back-number : (n : ℕ) → n < usize_mod → crates.read_usize (number n) ≡ ok n
read_back-number n small = ground arith

pub crates-IsSerde : IsSerde crates
crates-IsSerde = record {
  visit = visit_members;
  usize = read_back-number;
  string = λ s. refl;
  null = refl;
}

read_msg-response_example :
    read_msg crates
      (crates.object_value (members crates (response 5 "2.0" (some (boolean true)) none)))
    ≡ ok (response 5 "2.0" (some (boolean true)) none)
read_msg-response_example =
    read_msg-response crates crates-IsSerde 5 (ground arith) "2.0" (some (boolean true)) none refl
      tt

read_msg-notification_example :
    read_msg crates (
      crates.object_value
        (members crates (notification "2.0" Method.script_subscribe (array_of (text "00" ∷ [])))))
    ≡ ok (notification "2.0" Method.script_subscribe (array_of (text "00" ∷ [])))
read_msg-notification_example =
    read_msg-notification crates crates-IsSerde "2.0" Method.script_subscribe
      (array_of (text "00" ∷ []))

-- A failed answer is read as a response with an error.
answer_read : from_json crates ping_line ≡ ok (response 0 "2.0" none (some (text "busy")))
unfolding from_json
answer_read = refl

-- The two arguments of a request go out in the order of the protocol.
request_params :
    compose_request {x = crates} 5 (Request.get_block_headers 100 10)
    ≡ request 5 "2.0" Method.get_block_headers (Request.usize 100 ∷ Request.usize 10 ∷ [])
unfolding compose_request method Request.params
request_params = refl
