-- ===== src/Lib.antt =====
-- A model of electrum-sdk, a client of the Electrum protocol, with theorems on it.
--
-- A caller calls a method of the client (src/client.rs). It files the request in the inventory under
-- a fresh id, and puts an event into a bounded channel. While there is a connection, the sender task
-- takes the events from the channel and writes them to the stream, and the receiver task reads the
-- lines of the server, looks up the request of each answer in the inventory, reads the answer by it
-- (src/types/mod.rs) and publishes the response under its id; the caller waits for that. The auto
-- connect loop opens streams (src/net) and renews the subscriptions.
--
-- Files:
--   Base, Base/*        conditionals, lists on native numbers, results, `HashMap` and `HashSet` as lists
--   External            the crates bitcoin, serde and serde_json, as parameters
--   Channel             tokio's bounded channel as operations, with its documented laws
--   Types/Method        src/types/method.rs; Types/Method/Names has its theorems
--   Types/Hash, Request, Structs, Message, Response, Notification
--                       src/types/mod.rs; theorems in Types/Message/Readback and
--                       Requests, Types/Response/Headers and Types/Response/Kinds
--   Net, Net/Address    src/net/mod.rs, socks.rs and the enum of stream.rs; theorems in Net/Schemes
--   Net/Domain          the trait `ToSocketAddrsDomain` of src/net/mod.rs
--   Net/Poll            the poll functions of src/net/stream.rs; theorems in Net/Poll/Programs
--   Client              the data of src/client.rs: the fields of `Client` as one record
--   Client/Send         `send_client_event`, `disconnect`, `stop`, `send_msg`, `send_batch_msg`
--   Client/Receive      the receiver task of `try_connect`
--   Client/Sender       the sender task of `try_connect`
--   Client/Await        `get_response`, `get_batch_response`
--   Client/Subscribe    the set of scripts in `script_subscribe`, `script_unsubscribe` and
--                       `batch_script_subscribe`
--   Client/Api          the calls of the protocol; in Api/Subscriptions, batches of scripts
--   Client/Connect      `connect`, `try_connect`, `start`, `change_address` and the auto connect loop
--   Client/Pinger       the pinger task of `try_connect`
--   Client/Run          the methods and rounds of all tasks in any order, each as one step, as a
--                       relation; in Run/Methods, the methods as runs of steps
--   Client/System       the single accesses of all tasks to what they share, in any order, with a
--                       history of the ids; in System/Refine, the steps of Client/Run as such accesses
--   Tests, Tests/*      the parameters instantiated, and the theorems on concrete inputs
-- The modules below those of Client hold the theorems on them.
--
-- The names of the source are kept; `_block_headers_subscribe`, `_script_subscribe` and
-- `_batch_script_subscribe` are `call_headers_subscribe`, `call_script_subscribe` and
-- `send_batch_subscribe`. Locks, `Arc` and atomics become a record that a method takes and returns:
-- what one lock holds together is one step. In Client/Run a method is one step up to its wait; in
-- Client/System the taking of an id, the insertion of its request into the inventory and the sending
-- of its message are actions of their own, between which any other task may act. What a task waits
-- for is an argument: the lines that are read, the result of a write, the notifications that a
-- subscription receives, the answer on a oneshot channel. No fuel is needed: each loop runs over its
-- input. The ids wrap at 2 ^ 64, as `AtomicUsize` on a 64-bit machine does; the arithmetic on sizes
-- wraps, as it does without overflow checks, and a slice out of range is a panic, which ends its task
-- as unwinding does. Both are set by the profile of the program that is built: with the release
-- profile of Cargo.toml, which has panic = "abort", a panic ends the whole process, so that what the
-- model says of the other tasks after one does not apply there. A theorem that needs numbers without
-- overflow says so.
--
-- Not modelled: `pinger.abort()` and `receiver.abort()` after the loop of the sender task (src/client.rs,
-- lines 506 and 507), by which the other two tasks of a connection end with it; logging; the lengths of
-- sleeps; the display of errors; the re-exports of lib.rs; the examples, which call the library. The
-- resolver, sockets, SOCKS, rustls, tokio's runtime, serde and bitcoin are parameters. The order of a
-- `HashSet` is that of a list;
-- Client/Subscribe/Abstract has the sets without order, as a quotient.
pub mod Base
pub mod External
pub mod Channel
pub mod Types
pub mod Client
pub mod Net
pub mod Tests
