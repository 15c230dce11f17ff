-- ===== src/Tests/Runs.antt =====
-- Runs of several steps, and the methods made of them, on concrete inputs.
use electrum_sdk.Base.{◌≡◌, [], none, arith}
use electrum_sdk.Base.Map
use electrum_sdk.Types.Hash.{hash_eq}
use electrum_sdk.Client.{Client, new}
use electrum_sdk.Client.Send.{send_msg}
use electrum_sdk.Client.Receive.{line, receive}
use electrum_sdk.Client.Subscribe.{add_script}
use electrum_sdk.Client.Api.{Given}
use electrum_sdk.Client.Run.{Run, here, onward, sends, adds, receives}
use electrum_sdk.Client.Run.Ids.{Run-new}
use electrum_sdk.Tests.Concrete.{crates, ping_line}
use electrum_sdk.Tests.Calls.{events, ping, features, hash_1, wait_3}

abbrev pub untouched : Client crates events
untouched = new crates events "ssl://host:50002" none

-- Two requests, a subscription between them, and the refusal of the first request.
abbrev pub busy : Client crates events
busy =
    (receive (line ping_line)
      (send_msg features none (add_script hash_1 (send_msg ping wait_3 untouched).0).0).0).0

pub busy-Run : Run 2 untouched busy
busy-Run =
    onward (sends ping wait_3) (
      onward (adds hash_1) (onward (sends features none) (onward (receives (line ping_line)) here)))

Run-new_example : (busy.last_id ≡ 2) × (Map.get busy.inventory 2 ≡ none)
Run-new_example = Run-new "ssl://host:50002" none 2 busy 2 busy-Run (ground arith) (ground arith)

abbrev waiting : Given crates
waiting = record { wait = none; received = [] }
