-- ===== src/Net/Schemes.antt =====
-- src/net/mod.rs: the scheme of an address, the kind of its stream, and the server name.
use electrum_sdk.Base.{
  ℕ, ◌≡◌, refl, ap, subst, [], ◌∷◌, ◌++◌, Bool, true, false, Option, none, some, ok, arith, All,
  All-append, ◌≢◌, Option-cases, Result-cases, >>=-eq-ok, inl, inr,
}
use electrum_sdk.Net.Address.{
  Text, tcp_scheme, ssl_scheme, starts_with, erase_all, strip, before_colon,
}
use electrum_sdk.Net.{
  MaybeTlsStream, plain, rustls, Network, wrap, connect_direct, connect_proxy, connect_by, connect,
  tcp_stream, socks_stream,
}

-- A text without this code point.
abbrev pub Without : ℕ → Text → Type 0
Without k = All λ c. c ≢ k

starts_with-All : (P : ℕ → Type 0) (s pat : Text) → All P s → starts_with s pat ≡ true → All P pat
unfolding starts_with
starts_with-All P s [] h e = tt
starts_with-All P [] (p ∷ ps) h e = cc
starts_with-All P (c ∷ s) (p ∷ ps) h e =
    let same : c ≡ p = ground arith in (subst P same h.0, starts_with-All P s ps h.1 (ground arith))

starts_with-append : (pat s : Text) → starts_with (pat ++ s) pat ≡ true
unfolding starts_with
starts_with-append [] s = refl
starts_with-append (p ∷ ps) s = ground (arith, starts_with-append ps s)

not_true : (b : Bool) → b ≢ true → b ≡ false
not_true true h = absurd (h refl)
not_true false h = refl

-- Neither scheme occurs in a text without a slash.
no_scheme :
    (s : Text)
    → Without b'/' s
    → (starts_with s tcp_scheme ≡ false) × (starts_with s ssl_scheme ≡ false)
no_scheme s h = (
  not_true (starts_with s tcp_scheme)
      (λ e. (starts_with-All (λ c. c ≢ b'/') s tcp_scheme h e).1.1.1.1.0 refl),
  not_true (starts_with s ssl_scheme)
      (λ e. (starts_with-All (λ c. c ≢ b'/') s ssl_scheme h e).1.1.1.1.0 refl),
)

erase_all_id :
    (pat s : Text)
    → ((r : Text) → Without b'/' r → starts_with r pat ≡ false)
    → Without b'/' s
    → erase_all pat 0 s ≡ s
unfolding erase_all
erase_all_id pat [] miss h = refl
erase_all_id pat (c ∷ s) miss h = rw (miss (c ∷ s) h) (ap (◌∷◌ c) (erase_all_id pat s miss h.1))

-- For a host and port without a slash: the address after the scheme is left, and TLS is asked for by
-- `ssl://` alone.
pub strip_lem :
    (host : Text)
    → Without b'/' host
    → (strip (tcp_scheme ++ host) ≡ (false, host))
      × (strip (ssl_scheme ++ host) ≡ (true, host))
      × (strip host ≡ (false, host))
unfolding strip
strip_lem host h =
    let rest = λ (pat : Text) (miss : (r : Text) → Without b'/' r → starts_with r pat ≡ false).
      erase_all_id pat host miss h in
    (
      ap (λ (r : Text). (false, r)) (rest tcp_scheme (λ r k. (no_scheme r k).0)),
      ap (λ (r : Text). (true, r)) (rest ssl_scheme (λ r k. (no_scheme r k).1)),
      rw ((no_scheme host h).0, (no_scheme host h).1),
    )

pub before_colon-append :
    (host port : Text) → Without b':' host → before_colon (host ++ b':' ∷ port) ≡ host
before_colon-append [] port h = refl
before_colon-append (c ∷ s) port h = ground (arith, before_colon-append s port h.1)

module _ (n : Network) where
  -- An address with `ssl://` never gets a plain stream, with or without a proxy.
  connect_ssl-ne-plain :
      (addr : Text) (proxy : Option n.SocketAddr) (t : Option ℕ) (s : n.Tcp)
      → connect n (ssl_scheme ++ addr) proxy t ≢ ok (plain s)
  unfolding connect
  connect_ssl-ne-plain addr none t s e = ground arith
  connect_ssl-ne-plain addr (some p) t s e = ground arith

  -- What a stream that `wrap` returns for TLS was made from.
  abbrev pub Secured : Text → MaybeTlsStream n.Tcp n.Tls → Type 0
  Secured host s =
      (tls : n.Tls) × (name : n.ServerName) × (tcp : n.Tcp) × (s ≡ rustls tls)
      × (n.server_name host ≡ some name)
      × (n.tls_connect name tcp ≡ ok tls)

  wrap_ssl :
      (addr : Text) (tcp : n.Tcp) (s : MaybeTlsStream n.Tcp n.Tls)
      → wrap n addr true tcp ≡ ok s
      → Secured (before_colon addr) s
  unfolding wrap
  wrap_ssl addr tcp s e = elim (Option-cases (n.server_name (before_colon addr))) [
    | inl unnamed ↦ absurd (ground (arith, unnamed))
    | inr (name, named) ↦ elim (Result-cases (n.tls_connect name tcp)) [
      | inl (tls, made) ↦ (tls, name, tcp, ground (arith, named, made), named, made)
      | inr (failed, f) ↦ absurd (ground (arith, named, f))
    ]
  ]

  -- A stream is opened, and then wrapped.
  connect_by_wraps :
      (proxy : Option n.SocketAddr) (addr : Text) (ssl : Bool) (t : Option ℕ)
      (s : MaybeTlsStream n.Tcp n.Tls)
      → connect_by n proxy addr ssl t ≡ ok s
      → (tcp : n.Tcp) × (wrap n addr ssl tcp ≡ ok s)
  unfolding connect_direct connect_proxy
  connect_by_wraps none addr ssl t s e =
      let opened = >>=-eq-ok (tcp_stream n addr t) (wrap n addr ssl) e in (opened.0, opened.2)
  connect_by_wraps (some p) addr ssl t s e =
      let opened = >>=-eq-ok (socks_stream n addr p t) (wrap n addr ssl) e in (opened.0, opened.2)

  -- For a host without a slash or a colon, and a port without a slash: a stream for `ssl://host:port`
  -- is a TLS stream over some socket, and its server name is the one of the host.
  pub connect_ssl_name :
      (host port : Text) (proxy : Option n.SocketAddr) (t : Option ℕ)
      (s : MaybeTlsStream n.Tcp n.Tls)
      → Without b'/' host
      → Without b':' host
      → Without b'/' port
      → connect n (ssl_scheme ++ (host ++ b':' ∷ port)) proxy t ≡ ok s
      → Secured host s
  unfolding connect
  connect_ssl_name host port proxy t s h k l e =
      let clean =
        All-append (λ c. c ≢ b'/') host (b':' ∷ port) h ((λ q. absurd (omega arith)), l) in
      let opened = connect_by_wraps proxy (host ++ b':' ∷ port) true t s (
        subst (λ (r : Bool × Text). connect_by n proxy r.1 r.0 t ≡ ok s)
          (strip_lem (host ++ b':' ∷ port) clean).1 e) in
      rw (before_colon-append host port k) at (wrap_ssl (host ++ b':' ∷ port) opened.0 s opened.1)
