-- ===== src/Tests/Pipelines.antt =====
-- Several events in the channel, and the ends of a connection, on concrete inputs.
use electrum_sdk.Base.{
  ◌≡◌, ◌≢◌, refl, List, [], ◌∷◌, ◌++◌, true, false, none, some, All, arith, inl, traverse,
}
use electrum_sdk.Base.Set
use electrum_sdk.Types.Request.{Request}
use electrum_sdk.Types.Message.{compose_request, is_request, as_bytes, from_json, json}
use electrum_sdk.Types.Method.{Method, deserialize, from_str}
use electrum_sdk.Types.Notification.{Notification, to_notification, read_params}
use electrum_sdk.Types.Response.{Response, to_response, read_result}
use electrum_sdk.Client.{Client, Message, ClientEvent, ClientNotification, disconnected, set_status}
use electrum_sdk.Client.Send.{Wait, value, elapsed, stop}
use electrum_sdk.Client.Send.Batch.{file_all}
use electrum_sdk.Client.Send.Sequence.{call_messages, requests, send_each}
use electrum_sdk.Client.Receive.{eof, receive, receive_all}
use electrum_sdk.Client.Receive.Pipeline.{
  Answer, Incoming, answers, notifies, useless, answers_of, IsDelivered, lines, responses,
}
use electrum_sdk.Client.Sender.{Effect, run_sender}
use electrum_sdk.Client.Sender.Wire.{Writes, bytes_or_none, event_bytes}
use electrum_sdk.Client.Sender.Order.{Drained, sends_in_order}
use electrum_sdk.Client.Sender.Failure.{write_fails}
use electrum_sdk.Client.Sender.Pipeline.{IsReturned, calls_answered}
use electrum_sdk.Client.Pinger.{Round, run_pinger}
use electrum_sdk.Client.Pinger.Pings.{pings, pings_written}
use electrum_sdk.Client.Await.{received, returns}
use electrum_sdk.Client.Connect.{
  sleeps, refused, loop_round, try_connect, sleeps_or_blocks, change_address,
}
use electrum_sdk.Client.Connect.Closing.{closing, moved, end_of_stream, change_connected}
use electrum_sdk.Tests.Json.{boolean, nil, mismatch}
use electrum_sdk.Tests.Concrete.{crates, done_line, pong_line, headers_line}
use electrum_sdk.Tests.Calls.{
  events, events-IsChannel, fresh, ping, features, wait_3, unsubscribe, unsubscribed,
}

abbrev ping_message : Message crates
ping_message = record { event = ClientEvent.send_msg (compose_request 0 ping); sender = some 3 }

abbrev batch_message : Message crates
batch_message = record {
  event = ClientEvent.send_batch (compose_request 1 ping ∷ compose_request 2 features ∷ []);
  sender = none;
}

abbrev close_message : Message crates
close_message = record { event = ClientEvent.close; sender = none }

abbrev pub sending : List (Message crates)
sending = ping_message ∷ batch_message ∷ []

-- Two events to be written, and a `Close`.
abbrev loaded : Client crates events
loaded = record fresh { queue = (1024, sending ++ close_message ∷ []) }

abbrev pub laden : Client crates events
laden = record fresh { queue = (1024, sending) }

sends_in_order_example :
    (c' : Client crates events) × (fs : List Effect) × (run_sender (true ∷ true ∷ []) loaded
      ≡ (c', fs))
    × Writes fs sending
    × Drained events-IsChannel (close_message ∷ []) loaded c'
sends_in_order_example =
    sends_in_order events-IsChannel sending (close_message ∷ []) loaded (tt, (tt, tt)) refl

end_of_stream_example :
    (c' : Client crates events) × (fs : List Effect) × (run_sender
        (true ∷ true ∷ true ∷ [])
        (receive eof laden).0
      ≡ (c', fs ++ closing ∷ []))
    × Writes fs sending
    × Drained events-IsChannel [] (set_status disconnected laden) c'
    × (loop_round refused c'
        ≡ ((try_connect refused c').0, sleeps_or_blocks (try_connect refused c').1))
end_of_stream_example =
    end_of_stream events-IsChannel eof sending [] refused laden tt refl refl (tt, (tt, tt)) refl
      (ground arith)

abbrev sender_task : Client crates events → Client crates events × List Effect
sender_task = run_sender (true ∷ true ∷ true ∷ [])

change_connected_example :
    (c' : Client crates events) × (change_address "tcp://other:50001"
        (some 7)
        (received ClientNotification.stop ∷ [])
        (λ d. (sender_task d).0)
        laden
      ≡ (c', returns true))
    × ((fs : List Effect) × ((sender_task (stop laden).0).1 ≡ fs ++ closing ∷ [])
        × Writes fs sending)
    × Drained events-IsChannel [] (moved "tcp://other:50001" (some 7) laden) c'
    × (loop_round refused c'
        ≡ ((try_connect refused c').0, sleeps_or_blocks (try_connect refused c').1))
change_connected_example =
    change_connected events-IsChannel "tcp://other:50001" (some 7) [] [] sending [] refused laden
      refl (tt, (tt, tt)) refl (ground arith)

-- A ping that is answered in time, and one that is not.
abbrev rounds : List Round
rounds = (3, value true) ∷ (4, elapsed) ∷ []

pings_written_example :
    (c' : Client crates events) × (fs : List Effect) × (run_sender
        (true ∷ true ∷ [])
        (run_pinger rounds fresh)
      ≡ (c', fs))
    × Writes {x = crates} fs (call_messages 0 (pings rounds))
    × (events.pending c'.queue ≡ [])
    × (record c' { queue = fresh.queue } ≡ file_all (requests (pings rounds)) fresh)
pings_written_example = pings_written events-IsChannel rounds fresh refl (ground arith)

-- Two calls; lines that answer the second first, with a notification and two lines without use among
-- them.
abbrev calls : List (Request crates × Wait)
calls = (ping, wait_3) ∷ (unsubscribe, none) ∷ []

abbrev done_answer : Answer crates
done_answer = record {
  id = 1;
  jsonrpc = "2.0";
  result = some (boolean true);
  error = none;
  request = unsubscribe;
  response = unsubscribed;
}

abbrev pong_answer : Answer crates
pong_answer = record {
  id = 0;
  jsonrpc = "2.0";
  result = some (boolean true);
  error = none;
  request = ping;
  response = Response.pong;
}

abbrev no_headers : Notification crates
no_headers = Notification.headers []

abbrev pub server_lines : List (Incoming crates)
server_lines =
    useless "?"
    ∷ answers done_line done_answer
    ∷ notifies headers_line "2.0" Method.block_header_subscribe nil no_headers
    ∷ answers pong_line pong_answer
    ∷ []

pub unsubscribed-ne-null : unsubscribed ≢ Response.null
unsubscribed-ne-null e = cc

abbrev pub pong : Response crates
pong = Response.pong

pub pong-ne-null : pong ≢ Response.null
pong-ne-null e = cc

calls_answered_example :
    (c' : Client crates events) × (fs : List Effect) × (run_sender
        (true ∷ true ∷ [])
        (send_each calls fresh)
      ≡ (c', fs))
    × Writes fs (call_messages 0 calls)
    × ((receive_all (lines server_lines) c').published ≡ responses server_lines)
    × All (IsDelivered (responses server_lines)) (answers_of server_lines)
    × All (IsReturned calls fresh (responses server_lines)) (answers_of server_lines)
unfolding from_json to_response read_result Set.contains to_notification deserialize from_str
    read_params traverse
calls_answered_example =
    calls_answered events-IsChannel calls server_lines fresh refl (ground arith) (ground arith)
      (refl, (refl, tt))
      (
        inl (json mismatch, refl),
        ((refl, refl, unsubscribed-ne-null), ((refl, refl), ((refl, refl, pong-ne-null), tt))),
      )
      ((1, refl, refl), ((0, refl, refl), tt))

abbrev failing_message : Message crates
failing_message = record {
  event = ClientEvent.send_msg (compose_request 3 features);
  sender = some 9;
}

abbrev troubled : Client crates events
troubled = record fresh { queue = (1024, sending ++ failing_message ∷ close_message ∷ []) }

write_fails_example :
    (c' : Client crates events) × (fs : List Effect) × (f : Effect) × (run_sender
        (true ∷ true ∷ false ∷ [])
        troubled
      ≡ (c', fs ++ f ∷ []))
    × Writes fs sending
    × (f.breaks ≡ true)
    × (bytes_or_none f.written ≡ event_bytes failing_message.event)
    × (f.reply ≡ some (9, false))
    × Drained events-IsChannel (close_message ∷ []) troubled c'
    × (loop_round refused c' ≡ (c', sleeps))
unfolding as_bytes is_request compose_request
write_fails_example =
    write_fails events-IsChannel sending failing_message (close_message ∷ []) [] refused troubled
      (tt, (tt, tt)) (refl, (_, refl)) refl refl refl
