-- ===== src/Net/Domain.antt =====
-- src/net/mod.rs: the trait `ToSocketAddrsDomain`, its implementations, and what they agree on. The
-- supertraits are not used here: what the resolver makes of an address is a parameter of `Network`.
use electrum_sdk.Base.{
  ℕ, ◌≡◌, ◌↔◌, ◌⊎◌, inl, inr, refl, subst, ap, ◌∙◌, [], ◌∷◌, ◌++◌, Option, none, some, arith,
  nat_eq, Bool-cases,
}
use electrum_sdk.Net.Address.{Text, before_colon}
use electrum_sdk.Net.Address
use electrum_sdk.Net.Schemes.{Without, before_colon-append}

pub record ToSocketAddrsDomain (A : Type 0) : Type 0 where
  pub domain : A → Option Text

abbrev pub domain_of : {A : Type 0} ⦃t : ToSocketAddrsDomain A⦄ → A → Option Text
domain_of ⦃t⦄ = t.domain

-- The body that the trait gives: an address that has no domain.
abbrev pub no_domain : {A : Type 0} → A → Option Text
no_domain a = none

-- `String` and `&str`
instance abbrev pub text_domain : ToSocketAddrsDomain Text
text_domain = record { domain = Address.domain }

-- `(&str, u16)`
instance abbrev pub host_domain : ToSocketAddrsDomain (Text × ℕ)
host_domain = record { domain = λ (host, port). domain_of host }

-- `tokio_socks::TargetAddr`, with the variants that the implementation matches.
pub data TargetAddr (SocketAddr : Type 0) : Type 0 where
  ip : SocketAddr → TargetAddr SocketAddr
  domain_name : Text → ℕ → TargetAddr SocketAddr

abbrev pub target_domain : {SocketAddr : Type 0} → TargetAddr SocketAddr → Option Text
target_domain (ip a) = none
target_domain (domain_name host port) = some host

instance abbrev pub target_addr_domain :
    {SocketAddr : Type 0} → ToSocketAddrsDomain (TargetAddr SocketAddr)
target_addr_domain = record { domain = target_domain }

-- The macro for the six types of socket addresses and of IP addresses with a port.
abbrev pub impl_to_socket_addrs_domain : (A : Type 0) → ToSocketAddrsDomain A
impl_to_socket_addrs_domain A = record { domain = no_domain }

-- The text is this domain, or this domain with a colon and more after it.
abbrev pub Begins : Text → Text → Type 0
Begins s d = (s ≡ d) ⊎ ((rest : Text) × (s ≡ d ++ b':' ∷ rest))

before_colon-Begins : (s : Text) → Without b':' (before_colon s) × Begins s (before_colon s)
before_colon-Begins [] = (tt, inl refl)
before_colon-Begins (c ∷ s) =
    let (clean, begins) = before_colon-Begins s in
    elim (Bool-cases (nat_eq c b':')) [
      | inl hit ↦ rw hit (tt, inr (s, ap (λ k. k ∷ s) (ground (arith, hit))))
      | inr miss ↦ rw miss (
        ((λ e. ground (arith, miss, e)), clean),
        elim begins [
          | inl same ↦ inl (ap (◌∷◌ c) same)
          | inr (rest, same) ↦ inr (rest, ap (◌∷◌ c) same)
        ],
      )
    ]

before_colon-id : (s : Text) → Without b':' s → before_colon s ≡ s
before_colon-id [] h = refl
before_colon-id (c ∷ s) h = ground (arith, before_colon-id s h.1)

-- The domain of a text is the one beginning of it without a colon that is followed by the end or by
-- a colon.
pub domain_of-text : (s d : Text) → (domain_of s ≡ some d) ↔ (Without b':' d × Begins s d)
unfolding Address.domain
domain_of-text s d = (
  λ e. subst (λ t. Without b':' t × Begins s t) (ground (arith, e)) (before_colon-Begins s),
  λ (clean, begins). ap some (elim begins [
    | inl same ↦ ap before_colon same ∙ before_colon-id d clean
    | inr (rest, same) ↦ ap before_colon same ∙ before_colon-append d rest clean
  ]),
)
