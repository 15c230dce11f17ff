-- ===== src/Client/System/Inventory.antt =====
-- src/client.rs: each action keeps the ids, the inventory and the responses in step.
use electrum_sdk.Base.{
  ℕ, ◌<◌, ◌+◌, ◌≡◌, refl, sym, ap, subst, List, [], ◌∷◌, Bool, true, false, Option, nat_eq,
  if◌then◌else◌, arith, inl, inr, Result, Bool-cases,
}
use electrum_sdk.Base.Map
use electrum_sdk.Base.Map.{get-insert, get-remove}
use electrum_sdk.Base.Set
use electrum_sdk.External.{External}
use electrum_sdk.Channel.{Channel}
use electrum_sdk.Types.Hash.{ScriptHash, hash_eq}
use electrum_sdk.Types.Request.{Request}
use electrum_sdk.Types.Response.{Response, usize_mod}
use electrum_sdk.Client.{Client, Message, ClientEvent, Error, set_scripts}
use electrum_sdk.Client.Send.{take_id, file, send_client_event}
use electrum_sdk.Client.Subscribe.{add_script, drop_script, add_scripts}
use electrum_sdk.Client.Subscribe.Laws.{subscribed, add_scripts-old, add_scripts-new}
use electrum_sdk.Client.System.{Phase, taken, filed, update, System, at}
use electrum_sdk.Client.System.Phases.{responses_under, Fits, IsConsistent}

module _ {x : External} where
  pub Fits-eq :
      (p : Phase x) {e e' : Option (Request x)} {rs rs' : List (Response x)}
      → e ≡ e'
      → rs ≡ rs'
      → Fits p e rs
      → Fits p e' rs'
  Fits-eq p {e} {e'} {rs} {rs'} same same' f =
      subst (λ l. Fits p e' l) same' (subst (λ o. Fits p o rs) same f)

  pub Fits-if :
      (b : Bool) (p p' : Phase x) (e e' : Option (Request x)) (rs rs' : List (Response x))
      → Fits p e rs
      → Fits p' e' rs'
      → Fits (if b then p else p') (if b then e else e') (if b then rs else rs')
  Fits-if true p p' e e' rs rs' f g = f
  Fits-if false p p' e e' rs rs' f g = g

pub if_same {ℓ} : {A : Type ℓ} (f : ℕ → A) (k j : ℕ) → (if nat_eq k j then f k else f j) ≡ f j
if_same f k j = elim (Bool-cases (nat_eq k j)) [
  | inl hit ↦ rw hit (ap f (ground (arith, hit)))
  | inr miss ↦ rw miss
]

module _ {x : External} {ch : Channel (Message x)} where
  -- The counter, the inventory and the notifications are left as they are.
  pub record Untouched (c c' : Client x ch) : Type 0 where
    pub last_id : c'.last_id ≡ c.last_id
    pub inventory : c'.inventory ≡ c.inventory
    pub published : c'.published ≡ c.published

  pub Untouched-IsConsistent :
      (s : System x ch) (c' : Client x ch)
      → Untouched s.client c'
      → IsConsistent s
      → IsConsistent (at s c')
  Untouched-IsConsistent s c' u v = record {
    fits = λ id.
        Fits-eq (s.phase id) (ap (λ m. Map.get m id) (sym u.inventory))
          (ap (responses_under id) (sym u.published)) (v.fits id);
    fresh = λ id h. v.fresh id (omega (arith, u.last_id));
  }

  pub send_client_event-Untouched :
      (event : ClientEvent x) (sender : Option ℕ) (c : Client x ch)
      → Untouched c (send_client_event event sender c).0
  unfolding send_client_event
  send_client_event-Untouched event sender c = record {
    last_id = ground arith;
    inventory = ground arith;
    published = ground arith;
  }

  pub add_script-Untouched : (h : ScriptHash) (c : Client x ch) → Untouched c (add_script h c).0
  unfolding add_script set_scripts
  add_script-Untouched h c = record {
    last_id = ground arith;
    inventory = ground arith;
    published = ground arith;
  }

  pub drop_script-Untouched : (h : ScriptHash) (c : Client x ch) → Untouched c (drop_script h c).0
  unfolding drop_script set_scripts
  drop_script-Untouched h c = record {
    last_id = ground arith;
    inventory = ground arith;
    published = ground arith;
  }

  pub add_scripts-Untouched :
      (hs : List ScriptHash) (c : Client x ch) → Untouched c (add_scripts hs c).0
  unfolding set_scripts
  add_scripts-Untouched [] c =
      unfold add_scripts in record { last_id = refl; inventory = refl; published = refl }
  add_scripts-Untouched (h ∷ hs) c = elim (Bool-cases (subscribed c h)) [
    | inl old ↦
        subst (λ (r : Client x ch × Result (Unit {0}) Error). Untouched c r.0)
          (sym (add_scripts-old h c hs old))
          (record { last_id = refl; inventory = refl; published = refl })
    | inr fresh ↦
        let u = add_scripts-Untouched hs (set_scripts (Set.insert c.scripts h) c) in
        subst (λ (r : Client x ch × Result (Unit {0}) Error). Untouched c r.0)
          (sym (add_scripts-new h c hs fresh))
          (record { last_id = u.last_id; inventory = u.inventory; published = u.published })
  ]

  -- An id that is taken belongs to the request for which it was taken.
  pub takes_id-IsConsistent :
      (req : Request x) (s : System x ch)
      → s.client.last_id + 1 < usize_mod
      → IsConsistent s
      → IsConsistent (record {
        client = take_id s.client;
        phase = update s.phase s.client.last_id (taken req);
      })
  unfolding take_id
  takes_id-IsConsistent req s small v =
      let k = s.client.last_id in
      let unused =
        subst (λ p. Fits p (Map.get s.client.inventory k) (responses_under k s.client.published))
          (v.fresh k (omega arith)) (v.fits k) in
      record {
        fits = λ j.
            Fits-eq (update s.phase k (taken req) j) (if_same (Map.get s.client.inventory) k j)
              (if_same (λ i. responses_under i s.client.published) k j)
              (Fits-if (nat_eq k j) (taken req) (s.phase j) _ _ _ _ unused (v.fits j));
        fresh = λ j h. ground (arith, v.fresh j, small, h);
      }

  pub files-IsConsistent :
      (id : ℕ) (req : Request x) (s : System x ch)
      → s.phase id ≡ taken req
      → IsConsistent s
      → IsConsistent
          (record { client = file id req s.client; phase = update s.phase id (filed req) })
  unfolding file
  files-IsConsistent id req s owned v =
      let empty =
        subst (λ p. Fits p (Map.get s.client.inventory id) (responses_under id s.client.published))
          owned (v.fits id) in
      record {
        fits = λ j.
            Fits-eq (update s.phase id (filed req) j) (sym (get-insert s.client.inventory id j req))
              (if_same (λ i. responses_under i s.client.published) id j)
              (Fits-if (nat_eq id j) (filed req) (s.phase j) _ _ _ _ (refl, empty.1) (v.fits j));
        fresh = λ j h. ground (arith, v.fresh j h, owned);
      }
