-- ===== src/Net.antt =====
-- src/net/mod.rs, src/net/stream.rs and src/net/socks.rs: the address, and which stream is opened.
-- The resolver, the sockets, SOCKS and TLS are parameters. A text is the list of its code points.
pub mod Address
pub mod Schemes
pub mod Domain
pub mod Poll
use electrum_sdk.Base.{
  ℕ, List, [], ◌∷◌, Bool, true, false, Option, none, some, Result, ok, err, map_err, ◌>>=◌,
  if◌then◌else◌,
}
use Address.{Text, strip, domain}

pub data MaybeTlsStream (Tcp Tls : Type 0) : Type 0 where
  plain : Tcp → MaybeTlsStream Tcp Tls
  rustls : Tls → MaybeTlsStream Tcp Tls

-- What the operating system and the crates provide. A connection attempt takes the timeout in
-- seconds, and gives `none` when it runs out.
pub record Network : Type 1 where
  pub SocketAddr : Type 0
  pub Tcp : Type 0
  pub Tls : Type 0
  pub ServerName : Type 0
  pub IoError : Type 0
  pub SocksError : Type 0
  pub other_error : IoError
  pub to_socket_addrs : Text → Result (List SocketAddr) IoError
  pub tcp_connect : ℕ → SocketAddr → Option (Result Tcp IoError)
  pub socks5_connect : ℕ → SocketAddr → Text → Option (Result Tcp SocksError)
  pub server_name : Text → Option ServerName
  pub tls_connect : ServerName → Tcp → Result Tls IoError

pub data Error (n : Network) : Type 0 where
  io : n.IoError → Error n
  socks : n.SocksError → Error n
  timeout : Error n
  invalid_dns_name : Error n

abbrev pub default_timeout : ℕ
default_timeout = 60

module _ (n : Network) where
  -- `unwrap_or(Duration::from_secs(60))`
  abbrev pub or_default : Option ℕ → ℕ
  or_default none = default_timeout
  or_default (some t) = t

  abbrev pub or_timeout {ℓ} :
      {A E : Type ℓ} → (E → Error n) → Option (Result A E) → Result A (Error n)
  or_timeout wrap none = err timeout
  or_timeout wrap (some r) = map_err wrap r

  abbrev pub or_invalid {ℓ} : {A : Type ℓ} → Option A → Result A (Error n)
  or_invalid none = err invalid_dns_name
  or_invalid (some a) = ok a

  abbrev pub first : List n.SocketAddr → Result n.SocketAddr (Error n)
  first [] = err (io n.other_error)
  first (a ∷ as') = ok a

  unfoldable pub connect_with_tls : Text → n.Tcp → Result n.Tls (Error n)
  connect_with_tls name stream = do
    server ← or_invalid (n.server_name name)
    map_err io (n.tls_connect server stream)

  -- The last part of both functions below.
  unfoldable pub wrap : Text → Bool → n.Tcp → Result (MaybeTlsStream n.Tcp n.Tls) (Error n)
  unfolding connect_with_tls domain
  wrap addr ssl stream =
      if ssl
      then (do name ← or_invalid (domain addr); tls ← connect_with_tls name stream; ok (rustls tls))
      else ok (plain stream)

  -- The sockets of the two functions below.
  unfoldable pub tcp_stream : Text → Option ℕ → Result n.Tcp (Error n)
  tcp_stream addr t = do
    addrs ← map_err io (n.to_socket_addrs addr)
    a ← first addrs
    or_timeout io (n.tcp_connect (or_default t) a)

  unfoldable pub socks_stream : Text → n.SocketAddr → Option ℕ → Result n.Tcp (Error n)
  socks_stream addr proxy t = or_timeout socks (n.socks5_connect (or_default t) proxy addr)

  unfoldable pub connect_direct :
      Text → Bool → Option ℕ → Result (MaybeTlsStream n.Tcp n.Tls) (Error n)
  unfolding wrap tcp_stream
  connect_direct addr ssl t = tcp_stream addr t >>= wrap addr ssl

  unfoldable pub connect_proxy :
      Text → n.SocketAddr → Bool → Option ℕ → Result (MaybeTlsStream n.Tcp n.Tls) (Error n)
  unfolding wrap socks_stream
  connect_proxy addr proxy ssl t = socks_stream addr proxy t >>= wrap addr ssl

  abbrev pub connect_by :
      Option n.SocketAddr → Text → Bool → Option ℕ → Result (MaybeTlsStream n.Tcp n.Tls) (Error n)
  connect_by (some proxy) addr ssl t = connect_proxy addr proxy ssl t
  connect_by none addr ssl t = connect_direct addr ssl t

  unfoldable pub connect :
      Text → Option n.SocketAddr → Option ℕ → Result (MaybeTlsStream n.Tcp n.Tls) (Error n)
  unfolding connect_direct connect_proxy strip
  connect addr proxy t = let (ssl, addr') = strip addr in connect_by proxy addr' ssl t
