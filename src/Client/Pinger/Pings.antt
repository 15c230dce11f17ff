-- ===== src/Client/Pinger/Pings.antt =====
-- src/client.rs: the pings that the pinger task queues, and what the sender task writes of them.
use electrum_sdk.Base.{◌≤◌, ◌≡◌, refl, List, [], ◌∷◌, some, length, arith}
use electrum_sdk.External.{External}
use electrum_sdk.Channel.{Channel, IsChannel}
use electrum_sdk.Types.Request.{Request}
use electrum_sdk.Client.{Client, Message}
use electrum_sdk.Client.Send.{Wait}
use electrum_sdk.Client.Send.Batch.{file_all}
use electrum_sdk.Client.Send.Sequence.{call_messages, requests, send_each}
use electrum_sdk.Client.Sender.{Effect, run_sender}
use electrum_sdk.Client.Sender.Wire.{Writes, successes}
use electrum_sdk.Client.Sender.Pipeline.{calls_written}
use electrum_sdk.Client.Api.{ping}
use electrum_sdk.Client.Pinger.{Round, ping_round, run_pinger}

module _ {x : External} where
  -- The calls of the rounds.
  abbrev pub pings : List Round → List (Request x × Wait)
  pings [] = []
  pings (w ∷ ws) = (Request.ping, some w) ∷ pings ws

length-pings : (x : External) (ws : List Round) → length (pings {x = x} ws) ≡ length ws
length-pings x [] = refl
length-pings x (w ∷ ws) = omega (arith, length-pings x ws)

module _ {x : External} {ch : Channel (Message x)} where
  run_pinger-send_each :
      (ws : List Round) (c : Client x ch) → run_pinger ws c ≡ send_each (pings ws) c
  unfolding run_pinger ping_round ping send_each
  run_pinger-send_each [] c = refl
  run_pinger-send_each (w ∷ ws) c = run_pinger-send_each ws (ping_round w c)

module _ {x : External} {ch : Channel (Message x)} (law : IsChannel ch) where
  -- The rounds of the pinger on a client with an empty channel and room for them, whatever their waits
  -- give, errors included: the sender task, whose calls of `write_all` succeed, writes one ping for
  -- each in order, with the next ids, and tells each round; the channel is empty again, and nothing else is changed but that
  -- the requests are filed.
  pub pings_written :
      (ws : List Round) (c : Client x ch)
      → ch.pending c.queue ≡ []
      → length ws ≤ ch.capacity c.queue
      → let ms : List (Message x) = call_messages c.last_id (pings ws) in
        (c' : Client x ch) × (fs : List Effect) × (run_sender (successes ms []) (run_pinger ws c)
          ≡ (c', fs))
        × Writes fs ms
        × (ch.pending c'.queue ≡ [])
        × (record c' { queue = c.queue } ≡ file_all (requests (pings ws)) c)
  pings_written ws c empty room =
      rw (run_pinger-send_each ws c)
        (calls_written law (pings ws) c empty (omega (arith, length-pings x ws)))
