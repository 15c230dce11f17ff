-- ===== src/Net/Address.antt =====
-- src/net/mod.rs: the scheme of an address, and its domain.
use Prim.Native.Char.{code}
use electrum_sdk.Base.{
  ℕ, zero, suc, ◌-◌, String, List, [], ◌∷◌, Bool, true, false, ◌&&◌, Option, some, length, nat_eq,
  if◌then◌else◌,
}

abbrev pub Text : Type 0
Text = List ℕ

-- The code points of a literal.
abbrev pub codes : String → Text
codes String.[] = []
codes (String.◌∷◌ c s) = code c ∷ codes s

abbrev pub tcp_scheme : Text
tcp_scheme = codes "tcp://"

abbrev pub ssl_scheme : Text
ssl_scheme = codes "ssl://"

unfoldable pub starts_with : Text → Text → Bool
starts_with s [] = true
starts_with [] (p ∷ ps) = false
starts_with (c ∷ s) (p ∷ ps) = nat_eq c p && starts_with s ps

-- `s.replace(pat, "")`: every occurrence is left out, from the left; `skip` counts what is left of
-- the occurrence that was found.
unfoldable pub erase_all : Text → ℕ → Text → Text
unfolding starts_with
erase_all pat skip [] = []
erase_all pat (suc skip) (c ∷ s) = erase_all pat skip s
erase_all pat zero (c ∷ s) =
    let found = erase_all pat (length pat - 1) s in
    let other = erase_all pat zero s in if starts_with (c ∷ s) pat then found else c ∷ other

-- The first lines of `connect`: whether TLS is asked for, and the address without its scheme.
unfoldable pub strip : Text → Bool × Text
unfolding erase_all
strip addr =
    if starts_with addr tcp_scheme
    then (false, erase_all tcp_scheme 0 addr)
    else if starts_with addr ssl_scheme
    then (true, erase_all ssl_scheme 0 addr)
    else (false, addr)

abbrev pub before_colon : Text → Text
before_colon [] = []
before_colon (c ∷ s) = if nat_eq c b':' then [] else c ∷ before_colon s

-- `split(':').next()`
unfoldable pub domain : Text → Option Text
domain s = some (before_colon s)
