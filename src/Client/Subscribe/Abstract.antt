-- ===== src/Client/Subscribe/Abstract.antt =====
-- src/client.rs: the scripts as a set without order: the lists of a `HashSet`, those with the same
-- members being one.
use mathlib.Core.Quot
use mathlib.Core.Quot.{Quot, Quot-set}
use electrum_sdk.Base.{
  ◌≡◌, ◌≢◌, refl, sym, ap, ◌∙◌, List, Bool, true, false, Result, ok, err, if◌then◌else◌, arith,
  Bool-cases, inl, inr, ◌==◌,
}
use electrum_sdk.Base.Set.{contains, contains-insert, contains-remove}
use electrum_sdk.External.{External}
use electrum_sdk.Channel.{Channel}
use electrum_sdk.Types.Hash.{ScriptHash, hash_eq}
use electrum_sdk.Client.{Client, Message, Error, already_subscribed, not_subscribed, set_scripts}
use electrum_sdk.Client.Subscribe.{add_script, drop_script}

abbrev pub SameMembers : List ScriptHash → List ScriptHash → Type 0
SameMembers xs ys = (s : ScriptHash) → contains xs s ≡ contains ys s

abbrev pub ScriptSet : Type 0
ScriptSet = Quot SameMembers

different : (s t : ScriptHash) → s ≢ t → (s == t) ≡ false
different s t h = elim (Bool-cases (s == t)) [
  | inl same ↦ absurd (h ((hash_eq.equal_iff s t).0 same))
  | inr other ↦ other
]

swap_tests :
    (a b u v w : Bool)
    → (a ≡ true → b ≡ true → ⊥)
    → (if a then u else if b then v else w) ≡ (if b then v else if a then u else w)
swap_tests true true u v w h = absurd (h refl refl)
swap_tests true false u v w h = refl
swap_tests false b u v w h = refl

pub data Change : Type 0 where
  adds drops : Change

abbrev pub wanted : Change → Bool
wanted adds = true
wanted drops = false

-- The result, by whether the script is there: it must be there to be unsubscribed from, and must not
-- be to be subscribed to.
abbrev pub expected : Change → ScriptHash → Bool → Result (Unit {0}) Error
expected adds s true = err (already_subscribed s)
expected drops s false = err (not_subscribed s)
expected _ _ _ = ok tt

module _ {x : External} {ch : Channel (Message x)} where
  -- The set that a client holds.
  abbrev pub scripts_of : Client x ch → ScriptSet
  scripts_of c = Quot.mk c.scripts

  abbrev pub change : Change → ScriptHash → Client x ch → Client x ch × Result (Unit {0}) Error
  change adds s c = add_script s c
  change drops s c = drop_script s c

  -- After a change the script is there or not, as it was wanted; the others are as they were.
  contains-change :
      (p : Change) (s : ScriptHash) (c : Client x ch) (t : ScriptHash)
      → contains (change p s c).0.scripts t ≡ (if t == s then wanted p else contains c.scripts t)
  unfolding add_script drop_script set_scripts
  contains-change adds s c t = ground (arith, contains-insert c.scripts s t, hash_eq.equal_iff t s)
  contains-change drops s c t = ground (arith, contains-remove c.scripts s t, hash_eq.equal_iff t s)

  contains-both :
      (p q : Change) (s t : ScriptHash) (c : Client x ch) (r : ScriptHash)
      → contains (change q t (change p s c).0).0.scripts r
        ≡ (if r == t then wanted q else if r == s then wanted p else contains c.scripts r)
  contains-both p q s t c r =
      contains-change q t (change p s c).0 r
      ∙ ap (λ (b : Bool). if r == t then wanted q else b) (contains-change p s c r)

  result-change :
      (p : Change) (s : ScriptHash) (c : Client x ch)
      → (change p s c).1 ≡ expected p s (contains c.scripts s)
  unfolding add_script drop_script
  result-change adds s c = ground arith
  result-change drops s c = ground arith

  -- Two tasks that each subscribe to or unsubscribe from a script of their own: in either order they
  -- leave the same set, in which each script is there or not as its task wanted it, and the others are
  -- as they were; and each task gets the result that fits whether its script was there at first: a
  -- script that is there cannot be subscribed to, and one that is not cannot be unsubscribed from.
  pub scripts_commute :
      (p q : Change) (s t : ScriptHash) (c : Client x ch)
      → s ≢ t
      → let c1 = (change p s c).0 in
        let c2 = (change q t c).0 in
        (scripts_of (change q t c1).0 ≡ scripts_of (change p s c2).0)
        × ((r : ScriptHash)
            → contains (change q t c1).0.scripts r
              ≡ (if r == t then wanted q else if r == s then wanted p else contains c.scripts r))
        × ((change p s c).1 ≡ expected p s (contains c.scripts s))
        × ((change q t c1).1 ≡ expected q t (contains c.scripts t))
        × ((change q t c).1 ≡ expected q t (contains c.scripts t))
        × ((change p s c2).1 ≡ expected p s (contains c.scripts s))
  scripts_commute p q s t c h =
      let c1 = (change p s c).0 in
      let c2 = (change q t c).0 in
      (
        Quot.sound (λ r.
            contains-both p q s t c r
            ∙ swap_tests (r == t) (r == s) (wanted q) (wanted p) (contains c.scripts r)
                (λ a b. h (sym ((hash_eq.equal_iff r s).0 b) ∙ (hash_eq.equal_iff r t).0 a))
            ∙ sym (contains-both q p t s c r)),
        contains-both p q s t c,
        result-change p s c,
        result-change q t c1
            ∙ ap (expected q t)
                (contains-change p s c t ∙ rw (different t s (λ e. h (sym e))) refl),
        result-change q t c,
        result-change p s c2
            ∙ ap (expected p s) (contains-change q t c s ∙ rw (different s t h) refl),
      )
