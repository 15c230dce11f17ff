-- ===== src/Types/Method/Names.antt =====
-- src/types/method.rs: the names of the methods, written and read.
use electrum_sdk.Base.{
  String, Result, ok, err, ◌≡◌, refl, sym, str_eq, eq_iff, Bool-cases, inl, inr, if◌then◌else◌,
}
use electrum_sdk.Types.Method.{Method, Error, unknown_method, to_string, from_str, get_block_header}

-- Reading the name of a method gives the method.
pub from_str-to_string : (m : Method) → from_str (to_string m) ≡ ok m
unfolding from_str to_string
from_str-to_string get_block_header = refl
from_str-to_string _ = refl

-- The result read from a text: the method of that name, or an error with the text.
abbrev pub Reads : String → Result Method Error → Type 0
Reads s (ok m) = to_string m ≡ s
Reads s (err (unknown_method t)) = t ≡ s

module _ (s : String) where
  -- One arm of the `match` on the text.
  arm-Reads :
      (name : String) (a b : Result Method Error)
      → (name ≡ s → Reads s a)
      → Reads s b
      → Reads s (if str_eq s name then a else b)
  arm-Reads name a b hit miss = elim (Bool-cases (str_eq s name)) [
    | inl e ↦ rw e (hit (sym ((eq_iff s name).0 e)))
    | inr e ↦ rw e miss
  ]

  pub from_str-Reads : Reads s (from_str s)
  unfolding from_str to_string
  from_str-Reads =
      arm-Reads _ _ _ (λ e. e)
        (arm-Reads _ _ _ (λ e. e)
          (arm-Reads _ _ _ (λ e. e)
            (arm-Reads _ _ _ (λ e. e)
              (arm-Reads _ _ _ (λ e. e)
                (arm-Reads _ _ _ (λ e. e)
                  (arm-Reads _ _ _ (λ e. e)
                    (arm-Reads _ _ _ (λ e. e)
                      (arm-Reads _ _ _ (λ e. e)
                        (arm-Reads _ _ _ (λ e. e)
                          (arm-Reads _ _ _ (λ e. e)
                            (arm-Reads _ _ _ (λ e. e) (arm-Reads _ _ _ (λ e. e) refl))))))))))))

-- A text is read as a method only if it is that method's name.
pub to_string-from_str : (s : String) (m : Method) → from_str s ≡ ok m → to_string m ≡ s
to_string-from_str s m h = rw h at (from_str-Reads s)

-- A refused text is returned in the error.
pub from_str-eq-err : (s t : String) → from_str s ≡ err (unknown_method t) → t ≡ s
from_str-eq-err s t h = rw h at (from_str-Reads s)
