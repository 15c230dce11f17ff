-- ===== src/Tests/Streams.antt =====
-- Addresses and streams on concrete inputs.
use electrum_sdk.Base.{
  ◌≡◌, ◌↔◌, refl, [], ◌∷◌, ◌++◌, Bool, true, false, none, some, ok, length, arith,
}
use electrum_sdk.External.{Bytes}
use electrum_sdk.Net.{MaybeTlsStream, plain, rustls, connect}
use electrum_sdk.Net.Address.{Text, domain, tcp_scheme, ssl_scheme, strip}
use electrum_sdk.Net.Schemes.{Without, strip_lem}
use electrum_sdk.Net.Domain.{text_domain, domain_of, Begins, domain_of-text}
use electrum_sdk.Net.Poll.{Poll, Runtime, AsyncReadWrite}
use electrum_sdk.Net.Poll.Programs.{
  Program, done, writes, shuts_down, run, both, run-inside, run-connect_ssl,
}
use electrum_sdk.Tests.Concrete.{network}

abbrev host : Text
host = b'e' ∷ b's' ∷ []

abbrev port : Text
port = b'2' ∷ []

abbrev host_and_port : Text
host_and_port = host ++ b':' ∷ port

strip_lem_example :
    (strip (tcp_scheme ++ host) ≡ (false, host))
    × (strip (ssl_scheme ++ host) ≡ (true, host))
    × (strip host ≡ (false, host))
strip_lem_example = strip_lem host ((λ e. absurd (omega arith)), ((λ e. absurd (omega arith)), tt))

abbrev stream : MaybeTlsStream Text (Text × Text)
stream = rustls (host, host_and_port)

domain_of-text_example :
    (domain_of host_and_port ≡ some host) ↔ (Without b':' host × Begins host_and_port host)
domain_of-text_example = domain_of-text host_and_port host

-- The domain of an address with an IPv6 host, `[::1]:50002`, is a bracket.
abbrev ipv6_address : Text
ipv6_address = b'[' ∷ b':' ∷ b':' ∷ b'1' ∷ b']' ∷ b':' ∷ b'2' ∷ []

ipv6_domain : domain_of ipv6_address ≡ some (b'[' ∷ [])
unfolding domain
ipv6_domain = refl

-- A runtime whose streams are texts: a call of `poll_write` appends, and nothing is ever read.
abbrev runtime : Runtime
runtime = record { Context = Unit; ReadBuf = Bytes; IoError = Unit }

abbrev append_to : AsyncReadWrite runtime Text
append_to = record {
  poll_read = λ s cx buf. (s, buf, Poll.pending);
  poll_write = λ s cx b. (s ++ b, Poll.ready (ok (length b)));
  poll_flush = λ s cx. (s, Poll.ready (ok tt));
  poll_shutdown = λ s cx. (s, Poll.ready (ok tt));
}

abbrev append_over_tls : AsyncReadWrite runtime (Text × Text)
append_over_tls = record {
  poll_read = λ s cx buf. (s, buf, Poll.pending);
  poll_write = λ s cx b. ((s.0, s.1 ++ b), Poll.ready (ok (length b)));
  poll_flush = λ s cx. (s, Poll.ready (ok tt));
  poll_shutdown = λ s cx. (s, Poll.ready (ok tt));
}

-- Two bytes are written, and the stream is shut down if that is ready.
abbrev farewell : Program runtime Bool
farewell =
    writes tt (1 ∷ 2 ∷ [])
      λ r. elim r [ Poll.ready n ↦ shuts_down tt λ s. done true | Poll.pending ↦ done false ]

run-inside_example :
    (run (both runtime ⦃tcp = append_to⦄ ⦃tls = append_over_tls⦄) farewell (plain host)
      ≡ (plain (run append_to farewell host).0, (run append_to farewell host).1))
    × (run (both runtime ⦃tcp = append_to⦄ ⦃tls = append_over_tls⦄) farewell (rustls (host, port))
        ≡ (
          rustls (run append_over_tls farewell (host, port)).0,
          (run append_over_tls farewell (host, port)).1,
        ))
run-inside_example =
    run-inside runtime ⦃tcp = append_to⦄ ⦃tls = append_over_tls⦄ farewell host (host, port)

run-connect_ssl_example :
    (secured : Text × Text) × (name : Text) × (socket : Text) × (network.server_name host
      ≡ some name)
    × (network.tls_connect name socket ≡ ok secured)
    × (run (both runtime ⦃tcp = append_to⦄ ⦃tls = append_over_tls⦄) farewell stream ≡ (
      rustls (run append_over_tls farewell secured).0,
      (run append_over_tls farewell secured).1,
    ))
unfolding connect
run-connect_ssl_example =
    run-connect_ssl network runtime ⦃tcp = append_to⦄ ⦃tls = append_over_tls⦄ host port none none
      stream farewell ((λ e. absurd (omega arith)), ((λ e. absurd (omega arith)), tt))
      ((λ e. absurd (omega arith)), ((λ e. absurd (omega arith)), tt))
      ((λ e. absurd (omega arith)), tt) refl
