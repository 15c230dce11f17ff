-- ===== src/Net/Poll.antt =====
-- src/net/stream.rs: reading from and writing to a stream that may be protected with TLS. The streams
-- inside are parameters.
pub mod Programs
use electrum_sdk.Base.{ℕ, Result}
use electrum_sdk.External.{Bytes}
use electrum_sdk.Net.{MaybeTlsStream, plain, rustls}

pub data Poll (A : Type 0) : Type 0 where
  ready : A → Poll A
  pending : Poll A

-- What the runtime gives to a call: the context of the task, and its buffers and errors.
pub record Runtime : Type 1 where
  pub Context : Type 0
  pub ReadBuf : Type 0
  pub IoError : Type 0

-- The traits `AsyncRead` and `AsyncWrite`: a call changes the stream, and a call of `poll_read` the
-- buffer too.
pub record AsyncReadWrite (rt : Runtime) (S : Type 0) : Type 0 where
  pub poll_read : S → rt.Context → rt.ReadBuf → S × rt.ReadBuf × Poll (Result (Unit {0}) rt.IoError)
  pub poll_write : S → rt.Context → Bytes → S × Poll (Result ℕ rt.IoError)
  pub poll_flush : S → rt.Context → S × Poll (Result (Unit {0}) rt.IoError)
  pub poll_shutdown : S → rt.Context → S × Poll (Result (Unit {0}) rt.IoError)

module _ (rt : Runtime) {Tcp Tls : Type 0} ⦃tcp : AsyncReadWrite rt Tcp⦄
    ⦃tls : AsyncReadWrite rt Tls⦄ where
  open rt use {Context, ReadBuf, IoError}

  unfoldable pub poll_read :
      MaybeTlsStream Tcp Tls
      → Context
      → ReadBuf
      → MaybeTlsStream Tcp Tls × ReadBuf × Poll (Result (Unit {0}) IoError)
  poll_read (plain s) cx buf = let r = tcp.poll_read s cx buf in (plain r.0, r.1, r.2)
  poll_read (rustls s) cx buf = let r = tls.poll_read s cx buf in (rustls r.0, r.1, r.2)

  unfoldable pub poll_write :
      MaybeTlsStream Tcp Tls → Context → Bytes → MaybeTlsStream Tcp Tls × Poll (Result ℕ IoError)
  poll_write (plain s) cx buf = let r = tcp.poll_write s cx buf in (plain r.0, r.1)
  poll_write (rustls s) cx buf = let r = tls.poll_write s cx buf in (rustls r.0, r.1)

  unfoldable pub poll_flush :
      MaybeTlsStream Tcp Tls → Context → MaybeTlsStream Tcp Tls × Poll (Result (Unit {0}) IoError)
  poll_flush (plain s) cx = let r = tcp.poll_flush s cx in (plain r.0, r.1)
  poll_flush (rustls s) cx = let r = tls.poll_flush s cx in (rustls r.0, r.1)

  unfoldable pub poll_shutdown :
      MaybeTlsStream Tcp Tls → Context → MaybeTlsStream Tcp Tls × Poll (Result (Unit {0}) IoError)
  poll_shutdown (plain s) cx = let r = tcp.poll_shutdown s cx in (plain r.0, r.1)
  poll_shutdown (rustls s) cx = let r = tls.poll_shutdown s cx in (rustls r.0, r.1)

  instance unfoldable pub maybe_tls_stream : AsyncReadWrite rt (MaybeTlsStream Tcp Tls)
  maybe_tls_stream = record {
    poll_read = poll_read;
    poll_write = poll_write;
    poll_flush = poll_flush;
    poll_shutdown = poll_shutdown;
  }
