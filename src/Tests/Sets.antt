-- ===== src/Tests/Sets.antt =====
-- The set of scripts without order, on concrete inputs.
use electrum_sdk.Base.{◌≡◌, ◌≢◌, ◌==◌, ok, if◌then◌else◌, true, false}
use electrum_sdk.Base.Set
use electrum_sdk.Types.Hash.{ScriptHash, hash_eq}
use electrum_sdk.Client.{Client}
use electrum_sdk.Client.Subscribe.Laws.{subscribed}
use electrum_sdk.Client.Subscribe.Abstract.{scripts_of, adds, drops, change, scripts_commute}
use electrum_sdk.Tests.Concrete.{crates}
use electrum_sdk.Tests.Calls.{events, follower, hash_1, hash_2}

hash_1-ne-hash_2 : hash_1 ≢ hash_2
hash_1-ne-hash_2 e = cc

-- One task subscribes to the first script, another unsubscribes from the second.
abbrev first : Client crates events
first = (change adds hash_1 follower).0

abbrev second : Client crates events
second = (change drops hash_2 follower).0

scripts_commute_example :
    (scripts_of (change drops hash_2 first).0 ≡ scripts_of (change adds hash_1 second).0)
    × ((r : ScriptHash)
        → Set.contains (change drops hash_2 first).0.scripts r
          ≡ (if r == hash_2 then false else if r == hash_1 then true else subscribed follower r))
    × ((change adds hash_1 follower).1 ≡ ok tt)
    × ((change drops hash_2 first).1 ≡ ok tt)
    × ((change drops hash_2 follower).1 ≡ ok tt)
    × ((change adds hash_1 second).1 ≡ ok tt)
unfolding Set.contains
scripts_commute_example = scripts_commute adds drops hash_1 hash_2 follower hash_1-ne-hash_2
