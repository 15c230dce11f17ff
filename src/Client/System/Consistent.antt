-- ===== src/Client/System/Consistent.antt =====
-- src/client.rs: the history under all actions, in any order.
use electrum_sdk.Base.{
  ℕ, ◌<◌, ◌+◌, ◌≡◌, refl, sym, ap, ◌∙◌, Option, some, nat_eq, arith, inl, inr, String, Bool-cases,
}
use electrum_sdk.Base.Map
use electrum_sdk.Base.Map.{get-insert, get-remove}
use electrum_sdk.External.{External}
use electrum_sdk.Channel.{Channel}
use electrum_sdk.Types.Hash.{hash_eq}
use electrum_sdk.Types.Request.{Request}
use electrum_sdk.Types.Message.{JsonRpcMsg}
use electrum_sdk.Types.Message
use electrum_sdk.Types.Response.{usize_mod}
use electrum_sdk.Client.{
  Client, Message, ClientNotification, publish, set_headers, set_status, schedule_for_stop, new,
}
use electrum_sdk.Client.Send.{take_id, file}
use electrum_sdk.Client.Receive.{Flow, goes_on, ends, panics, handle_msg}
use electrum_sdk.Client.System.{
  Phase, after_msg, System, start, at, Action, takes_id, files, queues, marks_headers, adds, drops,
  adds_all, handles, dequeues, publishes_stop, readdresses, marks_status, schedules, Actions, here,
  next,
}
use electrum_sdk.Client.System.Phases.{IsConsistent}
use electrum_sdk.Client.System.Inventory.{
  Untouched, Untouched-IsConsistent, send_client_event-Untouched, add_script-Untouched,
  drop_script-Untouched, add_scripts-Untouched, takes_id-IsConsistent, files-IsConsistent,
}
use electrum_sdk.Client.System.Phases.{owner, owner-settle}
use electrum_sdk.Client.System.Handling.{handles-IsConsistent, notified-IsConsistent}
use electrum_sdk.Client.Run.Keeps.{handle_msg-Keeps}

module _ {x : External} where
  owner-after_msg :
      (msg : JsonRpcMsg x) (flow : Flow) (phase : ℕ → Phase x) (id : ℕ)
      → owner (after_msg msg flow phase id) ≡ owner (phase id)
  owner-after_msg (Message.response i jsonrpc result error) goes_on phase id =
      elim (Bool-cases (nat_eq i id)) [
        | inl hit ↦
            let same : i ≡ id = ground (arith, hit) in
            rw hit (owner-settle (phase i) ∙ ap (λ j. owner (phase j)) same)
        | inr miss ↦ rw miss
      ]
  owner-after_msg (Message.response i jsonrpc result error) ends phase id = refl
  owner-after_msg (Message.response i jsonrpc result error) panics phase id = refl
  owner-after_msg (Message.request i jsonrpc m ps) flow phase id = refl
  owner-after_msg (Message.notification jsonrpc m ps) flow phase id = refl

module _ {x : External} {ch : Channel (Message x)} where
  abbrev pub Advances : ℕ → System x ch → System x ch → Type 0
  Advances n s t = (t.client.last_id ≡ s.client.last_id + n) × IsConsistent t

  Untouched-Advances :
      (s : System x ch) (c' : Client x ch)
      → Untouched s.client c'
      → IsConsistent s
      → Advances 0 s (at s c')
  Untouched-Advances s c' u v = (omega (arith, u.last_id), Untouched-IsConsistent s c' u v)

  pub Action-Advances :
      {n : ℕ} {s t : System x ch}
      → Action n s t
      → s.client.last_id + n < usize_mod
      → IsConsistent s
      → Advances n s t
  Action-Advances (takes_id req {s}) small v =
      (unfold take_id in omega arith, takes_id-IsConsistent req s small v)
  Action-Advances (files id req {s} owned) small v =
      (unfold file in omega arith, files-IsConsistent id req s owned v)
  Action-Advances (queues event sender {s}) small v =
      Untouched-Advances s _ (send_client_event-Untouched event sender s.client) v
  Action-Advances (marks_headers enabled {s}) small v =
      Untouched-Advances s _
        (unfold set_headers in record { last_id = refl; inventory = refl; published = refl }) v
  Action-Advances (adds h {s}) small v = Untouched-Advances s _ (add_script-Untouched h s.client) v
  Action-Advances (drops h {s}) small v =
      Untouched-Advances s _ (drop_script-Untouched h s.client) v
  Action-Advances (adds_all hs {s}) small v =
      Untouched-Advances s _ (add_scripts-Untouched hs s.client) v
  Action-Advances (handles msg {s}) small v =
      (omega (arith, (handle_msg-Keeps msg s.client).last_id), handles-IsConsistent msg s v)
  Action-Advances (dequeues m q {s} e) small v =
      Untouched-Advances s (record s.client { queue = q })
        (record { last_id = refl; inventory = refl; published = refl }) v
  Action-Advances (publishes_stop {s}) small v =
      (unfold publish in omega arith, notified-IsConsistent s ClientNotification.stop (λ j. refl) v)
  Action-Advances (readdresses addr proxy {s}) small v =
      Untouched-Advances s _ (record { last_id = refl; inventory = refl; published = refl }) v
  Action-Advances (marks_status status {s}) small v =
      Untouched-Advances s _
        (unfold set_status in record { last_id = refl; inventory = refl; published = refl }) v
  Action-Advances (schedules value {s}) small v =
      Untouched-Advances s _
        (unfold schedule_for_stop in record { last_id = refl; inventory = refl; published = refl })
        v

  pub Actions-Advances :
      {n : ℕ} {s t : System x ch}
      → Actions n s t
      → s.client.last_id + n < usize_mod
      → IsConsistent s
      → Advances n s t
  Actions-Advances (here {s}) small v = (omega arith, v)
  Actions-Advances (next {n} {k} {s} {t} {u} action rest) small v =
      let (last, v') = Action-Advances action (omega arith) v in
      let (last', v'') = Actions-Advances rest (omega (arith, last)) v' in
      (omega (arith, last, last'), v'')

  pub start-IsConsistent :
      (addr : String) (proxy : Option x.SocketAddr) → IsConsistent (start {ch = ch} addr proxy)
  unfolding new Map.get
  start-IsConsistent addr proxy = record { fits = λ id. (refl, refl); fresh = λ id h. refl }

  Action-owner :
      {n : ℕ} {s t : System x ch} (id : ℕ) (req : Request x)
      → Action n s t
      → IsConsistent s
      → owner (s.phase id) ≡ some req
      → owner (t.phase id) ≡ some req
  Action-owner id req (takes_id r {s}) v o = elim (Bool-cases (nat_eq s.client.last_id id)) [
    | inl hit ↦ cc (o, ap owner (v.fresh id (ground (arith, hit))))
    | inr miss ↦ rw miss o
  ]
  Action-owner id req (files i r {s} owned) v o = elim (Bool-cases (nat_eq i id)) [
    | inl hit ↦
        let same : i ≡ id = ground (arith, hit) in
        rw hit (sym (ap owner owned) ∙ ap (λ j. owner (s.phase j)) same ∙ o)
    | inr miss ↦ rw miss o
  ]
  Action-owner id req (queues event sender) v o = o
  Action-owner id req (marks_headers enabled) v o = o
  Action-owner id req (adds h) v o = o
  Action-owner id req (drops h) v o = o
  Action-owner id req (adds_all hs) v o = o
  Action-owner id req (handles msg {s}) v o =
      owner-after_msg msg (handle_msg msg s.client).1 s.phase id ∙ o
  Action-owner id req (dequeues m q e) v o = o
  Action-owner id req publishes_stop v o = o
  Action-owner id req (readdresses addr proxy) v o = o
  Action-owner id req (marks_status status) v o = o
  Action-owner id req (schedules value) v o = o

  -- An id belongs to one request for good, until the ids wrap.
  pub Actions-owner :
      {n : ℕ} {s t : System x ch} (id : ℕ) (req : Request x)
      → Actions n s t
      → s.client.last_id + n < usize_mod
      → IsConsistent s
      → owner (s.phase id) ≡ some req
      → owner (t.phase id) ≡ some req
  Actions-owner id req here small v o = o
  Actions-owner id req (next {n} {k} {s} {t} {u} action rest) small v o =
      let (last, v') = Action-Advances action (omega arith) v in
      Actions-owner id req rest (omega (arith, last)) v' (Action-owner id req action v o)
