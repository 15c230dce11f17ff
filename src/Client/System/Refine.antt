-- ===== src/Client/System/Refine.antt =====
-- src/client.rs: the methods and the tasks, as runs of single actions.
use electrum_sdk.Base.{
  ℕ, ◌+◌, ◌≡◌, refl, subst, String, List, [], ◌∷◌, Bool, true, false, Option, none, some, ok,
  if◌then◌else◌, arith, length, Option-cases, Result-cases, inl, inr,
}
use electrum_sdk.External.{External}
use electrum_sdk.Channel.{Channel}
use electrum_sdk.Types.Request.{Request}
use electrum_sdk.Types.Message.{from_json, compose_request}
use electrum_sdk.Client.{
  Client, Message, ClientEvent, ClientNotification, set_status, schedule_for_stop, stopped,
  disconnected, new, publish,
}
use electrum_sdk.Client.Send.{
  Wait, is_open, take_id, register, register_all, send_client_event, send_and_wait, send_msg,
  send_batch_msg, disconnect, stop,
}
use electrum_sdk.Client.Send.Laws.{slot}
use electrum_sdk.Client.Send.Batch.{file_all, register_all_lem, ids_from, messages_from}
use electrum_sdk.Client.Receive.{Read, line, eof, failed, receive, handle_line}
use electrum_sdk.Client.Sender.{Effect, no_effect, handle_event, sender_step}
use electrum_sdk.Client.Run.{
  Step, sends, sends_batch, receives, takes, stops, disconnects, Run, onward,
}
use electrum_sdk.Client.Run
use electrum_sdk.Client.System.{
  Phase, taken, filed, update, System, start, Action, takes_id, files, queues, marks_headers, adds,
  drops, adds_all, handles, dequeues, publishes_stop, readdresses, marks_status, schedules, Actions,
  here, next,
}

module _ {x : External} where
  update_self : (p : ℕ → Phase x) (k : ℕ) (v : Phase x) → update p k v k ≡ v
  update_self p k v = ground arith

module _ {x : External} {ch : Channel (Message x)} where
  Actions-append :
      {n k : ℕ} {s t u : System x ch} → Actions n s t → Actions k t u → Actions (n + k) s u
  Actions-append {n} {k} {s} {t} {u} here rest = subst (λ m. Actions m s u) (omega arith) rest
  Actions-append {n} {k} {s} {t} {u} (next {n = a} {k = b} first others) rest =
      subst (λ m. Actions m s u) (omega arith) (next first (Actions-append others rest))

  -- From a client with any history the actions reach the other client.
  abbrev pub Reached : ℕ → Client x ch → (ℕ → Phase x) → Client x ch → Type 0
  Reached n c p c' =
      (p' : ℕ → Phase x) × Actions n (record { client = c; phase = p })
        (record { client = c'; phase = p' })

  one : {n : ℕ} {s t : System x ch} → Action n s t → Reached n s.client s.phase t.client
  one {n} {s} {t} action = (t.phase, subst (λ m. Actions m s t) (omega arith) (next action here))

  before :
      {n k : ℕ} {s t : System x ch} {c' : Client x ch}
      → Action n s t
      → Reached k t.client t.phase c'
      → Reached (n + k) s.client s.phase c'
  before action (p', rest) = (p', next action rest)

  if-Reached :
      {A : Type 0} {n : ℕ} (b : Bool) (c : Client x ch) (p : ℕ → Phase x) (r s : Client x ch × A)
      → Reached n c p r.0
      → Reached n c p s.0
      → Reached n c p (if b then r else s).0
  if-Reached true c p r s f g = f
  if-Reached false c p r s f g = g

  -- An id is taken, the request is filed, and what follows.
  registers :
      (req : Request x) (c : Client x ch) (p : ℕ → Phase x) (k : ℕ) (c' : Client x ch)
      → ((p' : ℕ → Phase x) → Reached k (register req c) p' c')
      → Reached (1 + (0 + k)) c p c'
  unfolding register
  registers req c p k c' rest = before (takes_id req {s = record { client = c; phase = p }}) (
      before
        (files c.last_id req
          {s = record { client = take_id c; phase = update p c.last_id (taken req) }}
          (update_self p c.last_id (taken req)))
        (rest (update (update p c.last_id (taken req)) c.last_id (filed req))))

  client-send_and_wait :
      {A : Type 0} (event : ClientEvent x) (a : A) (wait : Wait) (c : Client x ch)
      → (send_client_event event (slot wait) c).0 ≡ (send_and_wait event a wait c).0
  unfolding send_and_wait send_client_event
  client-send_and_wait event a none c = ground arith
  client-send_and_wait event a (some (sender, reply)) c = ground arith

  waits :
      {A : Type 0} (event : ClientEvent x) (a : A) (wait : Wait) (c : Client x ch) (p : ℕ → Phase x)
      → Reached 0 c p (send_and_wait event a wait c).0
  waits event a wait c p =
      subst (λ d. Reached 0 c p d) (client-send_and_wait event a wait c)
        (one (queues event (slot wait) {s = record { client = c; phase = p }}))

  send_msg-Reached :
      (req : Request x) (wait : Wait) (c : Client x ch) (p : ℕ → Phase x)
      → Reached 1 c p (send_msg req wait c).0
  unfolding send_msg
  send_msg-Reached req wait c p = registers req c p 0 _ λ p'.
      waits (ClientEvent.send_msg (compose_request c.last_id req)) c.last_id wait (register req c)
        p'

  file_all-Reached :
      (reqs : List (Request x)) (c : Client x ch) (p : ℕ → Phase x) (c' : Client x ch)
      → ((p' : ℕ → Phase x) → Reached 0 (file_all reqs c) p' c')
      → Reached (length reqs) c p c'
  unfolding file_all
  file_all-Reached [] c p c' rest = rest p
  file_all-Reached (req ∷ reqs) c p c' rest =
      subst (λ m. Reached m c p c') (omega arith)
        (registers req c p (length reqs) c' λ p'. file_all-Reached reqs (register req c) p' c' rest)

  send_batch_msg-Reached :
      (reqs : List (Request x)) (wait : Wait) (c : Client x ch) (p : ℕ → Phase x)
      → Reached (length reqs) c p (send_batch_msg reqs wait c).0
  unfolding send_batch_msg register_all
  send_batch_msg-Reached [] wait c p = (p, here)
  send_batch_msg-Reached (req ∷ reqs) wait c p =
      rw (send_batch_msg, register_all_lem (req ∷ reqs) [] [] c)
        (file_all-Reached (req ∷ reqs) c p _ (
          waits (ClientEvent.send_batch (messages_from c.last_id (req ∷ reqs)))
            (ids_from c.last_id (req ∷ reqs)) wait (file_all (req ∷ reqs) c)))

  disconnect-Reached : (c : Client x ch) (p : ℕ → Phase x) → Reached 0 c p (disconnect c).0
  unfolding disconnect
  disconnect-Reached c p =
      if-Reached (is_open c.status) c p (send_client_event ClientEvent.close none c) (c, ok tt)
        (one (queues ClientEvent.close none {s = record { client = c; phase = p }})) (p, here)

  stop-Reached : (c : Client x ch) (p : ℕ → Phase x) → Reached 0 c p (stop c).0
  unfolding stop
  stop-Reached c p =
      let d = schedule_for_stop true c in
      before {k = 0} (schedules true {s = record { client = c; phase = p }}) (
        if-Reached (is_open d.status) d p (send_client_event ClientEvent.stop none d) (d, ok tt)
          (one (queues ClientEvent.stop none {s = record { client = d; phase = p }})) (p, here))

  receive-Reached : (r : Read) (c : Client x ch) (p : ℕ → Phase x) → Reached 0 c p (receive r c).0
  unfolding receive handle_line
  receive-Reached (line text) c p = elim (Result-cases (from_json x text)) [
    | inl (msg, read) ↦
        rw (read, handle_line) (one (handles msg {s = record { client = c; phase = p }}))
    | inr (e, read) ↦ rw (read, handle_line) (p, here)
  ]
  receive-Reached eof c p = disconnect-Reached c p
  receive-Reached failed c p = disconnect-Reached c p

  handle_event-Reached :
      (event : ClientEvent x) (sender : Option ℕ) (success : Bool) (c : Client x ch)
      (p : ℕ → Phase x)
      → Reached 0 c p (handle_event event sender success c).0
  unfolding handle_event
  handle_event-Reached (ClientEvent.send_msg msg) sender success c p = (p, here)
  handle_event-Reached (ClientEvent.send_batch batch) sender success c p = (p, here)
  handle_event-Reached ClientEvent.close sender success c p =
      one (marks_status disconnected {s = record { client = c; phase = p }})
  handle_event-Reached ClientEvent.stop sender success c p =
      let d = set_status stopped c in
      let e = schedule_for_stop false d in
      if-Reached c.scheduled_for_stop c p
        (publish ClientNotification.stop e, record no_effect { breaks = true; shutdown = true })
        (c, no_effect)
        (before {k = 0} (marks_status stopped {s = record { client = c; phase = p }}) (
          before {k = 0} (schedules false {s = record { client = d; phase = p }})
            (one (publishes_stop {s = record { client = e; phase = p }}))))
        (p, here)

  abbrev ReachedRound : Client x ch → (ℕ → Phase x) → Option (Client x ch × Effect) → Type 0
  ReachedRound c p none = Unit
  ReachedRound c p (some (c', f)) = Reached 0 c p c'

  sender_step-Reached :
      (success : Bool) (c : Client x ch) (p : ℕ → Phase x)
      → ReachedRound c p (sender_step success c)
  unfolding sender_step
  sender_step-Reached success c p = elim (Option-cases (ch.recv c.queue)) [
    | inl empty ↦ rw (empty, sender_step) tt
    | inr ((m, q), first) ↦
        rw (first, sender_step)
          (before (dequeues m q {s = record { client = c; phase = p }} first)
            (handle_event-Reached m.event m.sender success (record c { queue = q }) p))
  ]

  Step-Reached : {n : ℕ} {c c' : Client x ch} → Step n c c' → (p : ℕ → Phase x) → Reached n c p c'
  Step-Reached (sends req wait {c}) p = send_msg-Reached req wait c p
  Step-Reached (sends_batch reqs wait {c}) p = send_batch_msg-Reached reqs wait c p
  Step-Reached (Run.marks_headers enabled {c}) p =
      one (marks_headers enabled {s = record { client = c; phase = p }})
  Step-Reached (Run.adds h {c}) p = one (adds h {s = record { client = c; phase = p }})
  Step-Reached (Run.drops h {c}) p = one (drops h {s = record { client = c; phase = p }})
  Step-Reached (Run.adds_all hs {c}) p = one (adds_all hs {s = record { client = c; phase = p }})
  Step-Reached (disconnects {c}) p = disconnect-Reached c p
  Step-Reached (stops {c}) p = stop-Reached c p
  Step-Reached (receives r {c}) p = receive-Reached r c p
  Step-Reached (takes success f {c} {c'} e) p =
      subst (ReachedRound c p) e (sender_step-Reached success c p)
  Step-Reached (Run.readdresses addr proxy {c}) p =
      one (readdresses addr proxy {s = record { client = c; phase = p }})
  Step-Reached (Run.marks_status status {c}) p =
      one (marks_status status {s = record { client = c; phase = p }})
  Step-Reached (Run.schedules value {c}) p =
      one (schedules value {s = record { client = c; phase = p }})

  Run-Reached : {n : ℕ} {c c' : Client x ch} → Run n c c' → (p : ℕ → Phase x) → Reached n c p c'
  Run-Reached Run.here p = (p, here)
  Run-Reached (onward step rest) p =
      let (p', first) = Step-Reached step p in
      let (p'', others) = Run-Reached rest p' in (p'', Actions-append first others)

  -- Whatever the methods and the tasks do to a new client, each as a whole and in any order, single
  -- actions do too, from the start on, with as many ids taken.
  Run-refines :
      (addr : String) (proxy : Option x.SocketAddr) (n : ℕ) (c : Client x ch)
      → Run n (new x ch addr proxy) c
      → (s : System x ch) × (s.client ≡ c) × Actions n (start addr proxy) s
  Run-refines addr proxy n c run =
      let (p, actions) = Run-Reached run (λ id. Phase.free) in
      (record { client = c; phase = p }, refl, actions)
