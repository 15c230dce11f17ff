-- ===== src/Client/Subscribe.antt =====
-- src/client.rs: the bookkeeping of the script subscriptions.
pub mod Laws
pub mod Abstract
use electrum_sdk.Base.{List, [], ◌∷◌, Bool, Option, none, some, Result, ok, err, if◌then◌else◌, Eq}
use electrum_sdk.Base.Set
use electrum_sdk.External.{External}
use electrum_sdk.Channel.{Channel}
use electrum_sdk.Types.Hash.{ScriptHash, hash_eq}
use electrum_sdk.Client.{Client, Message, Error, already_subscribed, not_subscribed, set_scripts}

module _ {x : External} {ch : Channel (Message x)} where
  -- The part of `script_subscribe` under the lock of the scripts.
  unfoldable pub add_script : ScriptHash → Client x ch → Client x ch × Result (Unit {0}) Error
  unfolding Set.contains Set.insert set_scripts
  add_script script c =
      if Set.contains c.scripts script
      then (c, err (already_subscribed script))
      else (set_scripts (Set.insert c.scripts script) c, ok tt)

  -- The part of `script_unsubscribe` under the lock.
  unfoldable pub drop_script : ScriptHash → Client x ch → Client x ch × Result (Unit {0}) Error
  unfolding Set.contains Set.remove set_scripts
  drop_script script c =
      if Set.contains c.scripts script
      then (set_scripts (Set.remove c.scripts script) c, ok tt)
      else (c, err (not_subscribed script))

  -- The loop of `batch_script_subscribe`: it ends at the first script that is already there.
  unfoldable pub add_scripts : List ScriptHash → Client x ch → Client x ch × Result (Unit {0}) Error
  unfolding Set.contains Set.insert set_scripts
  add_scripts [] c = (c, ok tt)
  add_scripts (script ∷ scripts) c =
      let rest = add_scripts scripts (set_scripts (Set.insert c.scripts script) c) in
      if Set.contains c.scripts script then (c, err (already_subscribed script)) else rest
