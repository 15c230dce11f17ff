-- ===== src/Client/Subscribe/Laws.antt =====
-- The set of subscribed scripts under the operations.
use electrum_sdk.Base.{
  ◌≡◌, refl, ap, List, [], ◌∷◌, ◌++◌, Bool, true, false, ◌||◌, Result, ok, err, All, Bool-cases,
  inl, inr,
}
use electrum_sdk.Base.Set
use electrum_sdk.Base.Set.{
  Distinct, Distinct-insert, Distinct-remove, contains-insert, contains-remove,
}
use electrum_sdk.External.{External}
use electrum_sdk.Channel.{Channel}
use electrum_sdk.Types.Hash.{ScriptHash, hash_eq}
use electrum_sdk.Client.{Client, Message, Error, already_subscribed, not_subscribed, set_scripts}
use electrum_sdk.Client.Subscribe.{add_script, drop_script, add_scripts}

module _ {x : External} {ch : Channel (Message x)} where
  abbrev pub subscribed : Client x ch → ScriptHash → Bool
  subscribed c s = Set.contains c.scripts s

  module _ (s : ScriptHash) (c : Client x ch) where
    add_script-new :
        subscribed c s ≡ false → add_script s c ≡ (set_scripts (Set.insert c.scripts s) c, ok tt)
    unfolding add_script
    add_script-new h = rw (add_script, h)

    add_script-old : subscribed c s ≡ true → add_script s c ≡ (c, err (already_subscribed s))
    unfolding add_script
    add_script-old h = rw (add_script, h)

    drop_script-old :
        subscribed c s ≡ true → drop_script s c ≡ (set_scripts (Set.remove c.scripts s) c, ok tt)
    unfolding drop_script
    drop_script-old h = rw (drop_script, h)

    drop_script-new : subscribed c s ≡ false → drop_script s c ≡ (c, err (not_subscribed s))
    unfolding drop_script
    drop_script-new h = rw (drop_script, h)

    pub add_scripts-new :
        (ss : List ScriptHash)
        → subscribed c s ≡ false
        → add_scripts (s ∷ ss) c ≡ add_scripts ss (set_scripts (Set.insert c.scripts s) c)
    unfolding add_scripts
    add_scripts-new ss h = rw h

    pub add_scripts-old :
        (ss : List ScriptHash)
        → subscribed c s ≡ true
        → add_scripts (s ∷ ss) c ≡ (c, err (already_subscribed s))
    unfolding add_scripts
    add_scripts-old ss h = rw h

  -- A script that is subscribed to is there for the test of the next subscription; taking it back
  -- restores the set as it was, for every script.
  pub drop-add :
      (s : ScriptHash) (c : Client x ch)
      → subscribed c s ≡ false
      → let c' = (add_script s c).0 in
        ((add_script s c).1 ≡ ok tt)
        × (add_script s c' ≡ (c', err (already_subscribed s)))
        × ((drop_script s c').1 ≡ ok tt)
        × ((t : ScriptHash) → subscribed (drop_script s c').0 t ≡ subscribed c t)
  unfolding set_scripts
  drop-add s c new =
      let c' : Client x ch = set_scripts (Set.insert c.scripts s) c in
      let there : subscribed c' s ≡ true = Set.contains-insert_self c.scripts s in
      rw (add_script-new s c new) (
        refl,
        add_script-old s c' there,
        ap (λ (r : Client x ch × Result (Unit {0}) Error). r.1) (drop_script-old s c' there),
        λ t. rw (drop_script-old s c' there) (Set.contains-remove-insert c.scripts s t new),
      )

  pub add_script-Distinct :
      (s : ScriptHash) (c : Client x ch) → Distinct c.scripts → Distinct (add_script s c).0.scripts
  unfolding set_scripts
  add_script-Distinct s c d = elim (Bool-cases (subscribed c s)) [
    | inl h ↦ rw (add_script-old s c h) d
    | inr h ↦ rw (add_script-new s c h) (Distinct-insert c.scripts s d)
  ]

  pub drop_script-Distinct :
      (s : ScriptHash) (c : Client x ch) → Distinct c.scripts → Distinct (drop_script s c).0.scripts
  unfolding set_scripts
  drop_script-Distinct s c d = elim (Bool-cases (subscribed c s)) [
    | inl h ↦ rw (drop_script-old s c h) (Distinct-remove c.scripts s d)
    | inr h ↦ rw (drop_script-new s c h) d
  ]

  pub add_scripts-Distinct :
      (ss : List ScriptHash) (c : Client x ch)
      → Distinct c.scripts
      → Distinct (add_scripts ss c).0.scripts
  unfolding set_scripts
  add_scripts-Distinct [] c d = unfold add_scripts in d
  add_scripts-Distinct (s ∷ ss) c d = elim (Bool-cases (subscribed c s)) [
    | inl h ↦ rw (add_scripts-old s c ss h) d
    | inr h ↦ rw (add_scripts-new s c ss h) (
        add_scripts-Distinct ss (set_scripts (Set.insert c.scripts s) c)
          (Distinct-insert c.scripts s d))
  ]

  -- The set of scripts holds no script twice, whatever is added or taken away.
  scripts-Distinct :
      (s : ScriptHash) (ss : List ScriptHash) (c : Client x ch)
      → Distinct c.scripts
      → Distinct (add_script s c).0.scripts
        × Distinct (drop_script s c).0.scripts
        × Distinct (add_scripts ss c).0.scripts
  unfolding set_scripts
  scripts-Distinct s ss c d =
      (add_script-Distinct s c d, drop_script-Distinct s c d, add_scripts-Distinct ss c d)

  -- A batch that meets a script which is subscribed to already fails there, but the scripts before
  -- it stay in the set.
  pub add_scripts_partial :
      (before : List ScriptHash) (s : ScriptHash) (after : List ScriptHash) (c : Client x ch)
      → Distinct before
      → All (λ t. subscribed c t ≡ false) before
      → subscribed c s ≡ true
      → let r = add_scripts (before ++ s ∷ after) c in
        (r.1 ≡ err (already_subscribed s))
        × ((t : ScriptHash) → subscribed r.0 t ≡ (Set.contains before t || subscribed c t))
  unfolding set_scripts
  add_scripts_partial [] s after c d n h =
      rw (add_scripts-old s c after h) (refl, λ t. rw (Set.contains-nil t))
  add_scripts_partial (b ∷ before) s after c d n h =
      let c' : Client x ch = set_scripts (Set.insert c.scripts b) c in
      let rest =
        add_scripts_partial before s after c' d.1 (Set.absent-insert c.scripts b before d.0 n.1)
          (Set.contains-insert_old c.scripts b s h) in
      rw (add_scripts-new b c (before ++ s ∷ after) n.0)
        (rest.0, λ t. Set.contains-insert_cons c.scripts before b t (rest.1 t))

  pub add_scripts-nil : (c : Client x ch) → add_scripts [] c ≡ (c, ok tt)
  unfolding add_scripts
  add_scripts-nil c = refl

  pub add_scripts_accepted :
      (ss : List ScriptHash) (c : Client x ch)
      → (add_scripts ss c).1 ≡ ok tt
      → Distinct ss
        × All (λ t. subscribed c t ≡ false) ss
        × ((t : ScriptHash)
            → subscribed (add_scripts ss c).0 t ≡ (Set.contains ss t || subscribed c t))
  unfolding set_scripts
  add_scripts_accepted [] c e = (tt, tt, λ t. rw (add_scripts-nil c) (rw (Set.contains-nil t) refl))
  add_scripts_accepted (s ∷ ss) c e = elim (Bool-cases (subscribed c s)) [
    | inl old ↦
        cc (e, ap (λ (r : Client x ch × Result (Unit {0}) Error). r.1) (add_scripts-old s c ss old))
    | inr new ↦
        let c' : Client x ch = set_scripts (Set.insert c.scripts s) c in
        let next = add_scripts-new s c ss new in
        let (d, n, m) = add_scripts_accepted ss c' (rw next at e) in
        let (h, n') = Set.absent-insert_old c.scripts s ss n in
        ((h, d), (new, n'), λ t. rw next (Set.contains-insert_cons c.scripts ss s t (m t)))
  ]

  pub add_scripts_accepts :
      (ss : List ScriptHash) (c : Client x ch)
      → Distinct ss
      → All (λ t. subscribed c t ≡ false) ss
      → (add_scripts ss c).1 ≡ ok tt
  unfolding set_scripts
  add_scripts_accepts [] c d n = rw (add_scripts-nil c) refl
  add_scripts_accepts (s ∷ ss) c d n = rw (add_scripts-new s c ss n.0) (
      add_scripts_accepts ss (set_scripts (Set.insert c.scripts s) c) d.1
        (Set.absent-insert c.scripts s ss d.0 n.1))
