-- ===== src/Client/Connect/Persistence.antt =====
-- src/client.rs: several rounds of the auto connect loop.
use electrum_sdk.Base.{
  ℕ, zero, suc, ◌≡◌, refl, ap, ◌∙◌, List, [], ◌∷◌, map, Bool, true, false, none, some, arith,
}
use electrum_sdk.External.{External}
use electrum_sdk.Channel.{Channel}
use electrum_sdk.Types.Request.{Request}
use electrum_sdk.Client.{
  Client, Message, ClientEvent, connected, connecting, disconnected, set_status,
}
use electrum_sdk.Client.Send.{Wait, send_client_event, send_and_wait, register_all, send_batch_msg}
use electrum_sdk.Client.Send.Batch.{file_all, register_all_lem, ids_from, messages_from}
use electrum_sdk.Client.Await.{Received}
use electrum_sdk.Client.Connect.{
  Attempt, refused, accepted, sleeps, loop_status, loop_round, run_loop, try_connect,
  sleeps_or_blocks,
}
use electrum_sdk.Client.Connect.Reconnect.{status-file_all, resubscribe-scripts}

module _ {x : External} where
  -- Some attempts that are refused, and one that is accepted.
  abbrev pub refusals_then : ℕ → Attempt x → List (Attempt x)
  refusals_then zero a = a ∷ []
  refusals_then (suc n) a = refused ∷ refusals_then n a

module _ {x : External} {ch : Channel (Message x)} where
  status-send_and_wait :
      {A : Type 0} (event : ClientEvent x) (a : A) (wait : Wait) (c : Client x ch)
      → (send_and_wait event a wait c).0.status ≡ c.status
  unfolding send_and_wait send_client_event
  status-send_and_wait event a none c = ground arith
  status-send_and_wait event a (some (sender, reply)) c = ground arith

  status-send_batch_msg :
      (reqs : List (Request x)) (wait : Wait) (c : Client x ch)
      → (send_batch_msg reqs wait c).0.status ≡ c.status
  unfolding send_batch_msg register_all
  status-send_batch_msg [] wait c = refl
  status-send_batch_msg (req ∷ reqs) wait c =
      rw (send_batch_msg, register_all_lem (req ∷ reqs) [] [] c)
        (status-send_and_wait (ClientEvent.send_batch (messages_from c.last_id (req ∷ reqs)))
            (ids_from c.last_id (req ∷ reqs)) wait (file_all (req ∷ reqs) c)
          ∙ status-file_all (req ∷ reqs) c)

  -- A round on a client that is disconnected, and is not to be stopped.
  pub loop_round-tries :
      (a : Attempt x) (c : Client x ch)
      → c.status ≡ disconnected
      → c.scheduled_for_stop ≡ false
      → loop_round a c ≡ ((try_connect a c).0, sleeps_or_blocks (try_connect a c).1)
  unfolding loop_round loop_status
  loop_round-tries a c s n = rw (loop_round, n, s)

  try_connect-connects :
      (rs : List (Received x)) (c : Client x ch)
      → c.headers ≡ false
      → ((try_connect (accepted rs) c).1 ≡ true)
        × ((try_connect (accepted rs) c).0.status ≡ connected)
  unfolding try_connect set_status
  try_connect-connects rs c h =
      let d : Client x ch = set_status connected (set_status connecting c) in
      let sent = send_batch_msg (map Request.script_subscribe d.scripts) none d in
      let done = resubscribe-scripts rs d.scripts d sent.0 sent.1 h refl refl in
      (
        ap (λ (r : Client x ch × Bool). r.1) done,
        ap (λ (r : Client x ch × Bool). r.0.status) done
            ∙ status-send_batch_msg (map Request.script_subscribe d.scripts) none d,
      )

  -- A disconnected client that is not to be stopped, and has no subscription to the headers, is
  -- connected after the first attempt that is accepted, however many were refused before; the loop
  -- goes on.
  run_loop-connects :
      (n : ℕ) (rs : List (Received x)) (c : Client x ch)
      → c.status ≡ disconnected
      → c.scheduled_for_stop ≡ false
      → c.headers ≡ false
      → ((run_loop (refusals_then n (accepted rs)) c).1 ≡ sleeps)
        × ((run_loop (refusals_then n (accepted rs)) c).0.status ≡ connected)
  unfolding run_loop
  run_loop-connects zero rs c s k h =
      let (returned, up) = try_connect-connects rs c h in
      rw (loop_round-tries (accepted rs) c s k, returned) (refl, up)
  run_loop-connects (suc n) rs c s k h = rw (loop_round-tries refused c s k) (
      unfold try_connect set_status in
      run_loop-connects n rs (set_status disconnected (set_status connecting c)) refl k h)
