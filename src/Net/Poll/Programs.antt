-- ===== src/Net/Poll/Programs.antt =====
-- src/net/stream.rs: code that uses a stream by its poll functions alone, on a `MaybeTlsStream` and on
-- the stream inside.
use electrum_sdk.Base.{ℕ, ◌≡◌, ap, ◌∙◌, refl, ◌∷◌, ◌++◌, Option, some, Result, ok}
use electrum_sdk.External.{Bytes}
use electrum_sdk.Net.{MaybeTlsStream, plain, rustls, Network, connect}
use electrum_sdk.Net.Address.{Text, ssl_scheme}
use electrum_sdk.Net.Schemes.{Without, connect_ssl_name}
use electrum_sdk.Net.Poll.{
  Poll, Runtime, AsyncReadWrite, maybe_tls_stream, poll_read, poll_write, poll_flush, poll_shutdown,
}

-- Code that makes one call after the other, each by the results of those before it, and ends with a
-- value.
pub data Program (rt : Runtime) (A : Type 0) : Type 0 where
  done : A → Program rt A
  reads :
      rt.Context
      → rt.ReadBuf
      → (rt.ReadBuf → Poll (Result (Unit {0}) rt.IoError) → Program rt A)
      → Program rt A
  writes : rt.Context → Bytes → (Poll (Result ℕ rt.IoError) → Program rt A) → Program rt A
  flushes : rt.Context → (Poll (Result (Unit {0}) rt.IoError) → Program rt A) → Program rt A
  shuts_down : rt.Context → (Poll (Result (Unit {0}) rt.IoError) → Program rt A) → Program rt A

-- The stream in the end, and the value.
unfoldable pub run : {rt : Runtime} {A S : Type 0} → AsyncReadWrite rt S → Program rt A → S → S × A
run io (done a) s = (s, a)
run io (reads cx buf k) s = let r = io.poll_read s cx buf in run io (k r.1 r.2) r.0
run io (writes cx b k) s = let r = io.poll_write s cx b in run io (k r.1) r.0
run io (flushes cx k) s = let r = io.poll_flush s cx in run io (k r.1) r.0
run io (shuts_down cx k) s = let r = io.poll_shutdown s cx in run io (k r.1) r.0

module _ (rt : Runtime) {Tcp Tls : Type 0} ⦃tcp : AsyncReadWrite rt Tcp⦄
    ⦃tls : AsyncReadWrite rt Tls⦄ where
  abbrev pub both : AsyncReadWrite rt (MaybeTlsStream Tcp Tls)
  both = maybe_tls_stream rt

  run-plain :
      {A : Type 0} (p : Program rt A) (s : Tcp)
      → run both p (plain s) ≡ (plain (run tcp p s).0, (run tcp p s).1)
  unfolding run maybe_tls_stream poll_read poll_write poll_flush poll_shutdown
  run-plain (done a) s = refl
  run-plain (reads cx buf k) s = let r = tcp.poll_read s cx buf in run-plain (k r.1 r.2) r.0
  run-plain (writes cx b k) s = let r = tcp.poll_write s cx b in run-plain (k r.1) r.0
  run-plain (flushes cx k) s = let r = tcp.poll_flush s cx in run-plain (k r.1) r.0
  run-plain (shuts_down cx k) s = let r = tcp.poll_shutdown s cx in run-plain (k r.1) r.0

  run-rustls :
      {A : Type 0} (p : Program rt A) (s : Tls)
      → run both p (rustls s) ≡ (rustls (run tls p s).0, (run tls p s).1)
  unfolding run maybe_tls_stream poll_read poll_write poll_flush poll_shutdown
  run-rustls (done a) s = refl
  run-rustls (reads cx buf k) s = let r = tls.poll_read s cx buf in run-rustls (k r.1 r.2) r.0
  run-rustls (writes cx b k) s = let r = tls.poll_write s cx b in run-rustls (k r.1) r.0
  run-rustls (flushes cx k) s = let r = tls.poll_flush s cx in run-rustls (k r.1) r.0
  run-rustls (shuts_down cx k) s = let r = tls.poll_shutdown s cx in run-rustls (k r.1) r.0

  -- Whatever code does with a `MaybeTlsStream` by its poll functions, it does with the stream inside:
  -- the value is the same, and the stream in the end is that of the same kind around the one inside.
  pub run-inside :
      {A : Type 0} (p : Program rt A) (t : Tcp) (s : Tls)
      → (run both p (plain t) ≡ (plain (run tcp p t).0, (run tcp p t).1))
        × (run both p (rustls s) ≡ (rustls (run tls p s).0, (run tls p s).1))
  run-inside p t s = (run-plain p t, run-rustls p s)

module _ (n : Network) (rt : Runtime) ⦃tcp : AsyncReadWrite rt n.Tcp⦄
    ⦃tls : AsyncReadWrite rt n.Tls⦄ where
  -- For a host without a slash or a colon, and a port without a slash: code that uses a stream opened
  -- for `ssl://host:port` by the poll functions does what it does with a TLS stream whose handshake
  -- was made for the name of the host.
  pub run-connect_ssl :
      {A : Type 0} (host port : Text) (proxy : Option n.SocketAddr) (t : Option ℕ)
      (s : MaybeTlsStream n.Tcp n.Tls) (p : Program rt A)
      → Without b'/' host
      → Without b':' host
      → Without b'/' port
      → connect n (ssl_scheme ++ (host ++ b':' ∷ port)) proxy t ≡ ok s
      → (secured : n.Tls) × (name : n.ServerName) × (socket : n.Tcp) × (n.server_name host
          ≡ some name)
        × (n.tls_connect name socket ≡ ok secured)
        × (run (both rt) p s ≡ (rustls (run tls p secured).0, (run tls p secured).1))
  run-connect_ssl host port proxy t s p h k l e =
      let (secured, name, socket, same, named, made) =
        connect_ssl_name n host port proxy t s h k l e in
      (secured, name, socket, named, made, ap (run (both rt) p) same ∙ run-rustls rt p secured)
