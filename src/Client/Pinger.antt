-- ===== src/Client/Pinger.antt =====
-- src/client.rs: the pinger task of `try_connect`. What each round waits for is an argument.
pub mod Pings
use electrum_sdk.Base.{ℕ, List, [], ◌∷◌, some}
use electrum_sdk.External.{External}
use electrum_sdk.Channel.{Channel}
use electrum_sdk.Client.{Client, Message}
use electrum_sdk.Client.Send.{Reply}
use electrum_sdk.Client.Api.{ping}

-- The oneshot channel of a round, and what comes of it in 10 seconds.
abbrev pub Round : Type 0
Round = ℕ × Reply

module _ {x : External} {ch : Channel (Message x)} where
  -- A round after its sleep; an error is only logged.
  unfoldable pub ping_round : Round → Client x ch → Client x ch
  unfolding ping
  ping_round w c = (ping (some w) c).0

  -- The rounds of the loop, with nothing else in between.
  unfoldable pub run_pinger : List Round → Client x ch → Client x ch
  unfolding ping_round
  run_pinger [] c = c
  run_pinger (w ∷ ws) c = run_pinger ws (ping_round w c)
