-- ===== src/Tests/Concrete.antt =====
-- The parameters of the development, instantiated: the crates, the channel and the network.
use electrum_sdk.Base.{
  ℕ, true, ◌+◌, ◌-◌, ◌*◌, ◌^◌, ◌≡◌, ◌<◌, ◌≤◌, refl, String, List, [], ◌∷◌, ◌++◌, Option, none, some,
  Result, ok, err, ◌>>=◌, str_eq, if◌then◌else◌, ltb, nat_eq, length, arith,
}
use electrum_sdk.External.{External, Bytes}
use electrum_sdk.Channel.{Channel, IsChannel}
use electrum_sdk.Net.{Network}
use electrum_sdk.Net.Address.{Text, codes}
use electrum_sdk.Tests.Json.{
  Json, JsonError, mismatch, about, boolean, number, text, null, array_of, object_of, is_null,
  read_bool, read_string, read_number, read_below, read_integer, read_array, visit, bytes_of,
}

abbrev nibble : ℕ → ℕ
nibble c = if ltb c 58 then c - 48 else c - 87

abbrev unhex : Text → Result Bytes (Unit {0})
unhex [] = ok []
unhex (a ∷ []) = err tt
unhex (a ∷ b ∷ s) = unhex s >>= λ rest. ok ((nibble a * 16 + nibble b) ∷ rest)

abbrev read_hex : String → Result Bytes (Unit {0})
read_hex s = unhex (codes s)

abbrev read_header : Bytes → Result Bytes (Unit {0})
read_header b = if nat_eq (length b) 80 then ok b else err tt

-- The answer of a server to `server.ping` with the id 0.
abbrev pub ping_line : String
ping_line = "{\"id\":0,\"jsonrpc\":\"2.0\",\"result\":null,\"error\":\"busy\"}"

abbrev pub ping_object : Json
ping_object =
    object_of
      (("id", number 0) ∷ ("jsonrpc", text "2.0") ∷ ("result", null) ∷ ("error", text "busy") ∷ [])

-- Answers to a ping with the id 0, and to an unsubscription with the id 1.
abbrev pub pong_line : String
pong_line = "{\"id\":0,\"jsonrpc\":\"2.0\",\"result\":true}"

abbrev pub done_line : String
done_line = "{\"id\":1,\"jsonrpc\":\"2.0\",\"result\":true}"

-- A notification of no new headers.
abbrev pub headers_line : String
headers_line = "{\"jsonrpc\":\"2.0\",\"method\":\"blockchain.headers.subscribe\",\"params\":[]}"

abbrev headers_object : Json
headers_object = object_of (
    ("jsonrpc", text "2.0")
    ∷ ("method", text "blockchain.headers.subscribe")
    ∷ ("params", array_of [])
    ∷ [])

abbrev true_object : ℕ → Json
true_object id =
    object_of (("id", number id) ∷ ("jsonrpc", text "2.0") ∷ ("result", boolean true) ∷ [])

-- The lines that the tests need.
abbrev parse_line : String → Result Json JsonError
parse_line s =
    if str_eq s ping_line
    then ok ping_object
    else if str_eq s pong_line
    then ok (true_object 0)
    else if str_eq s done_line
    then ok (true_object 1)
    else if str_eq s headers_line
    then ok headers_object
    else err mismatch

abbrev pub crates : External
crates = record {
  BlockHeader = Bytes;
  Transaction = Bytes;
  Txid = String;
  Script = Bytes;
  Address = Bytes;
  HexError = Unit;
  EncodeError = Unit;
  IoError = Unit;
  SocketAddr = ℕ;
  serialize_tx = λ tx. tx;
  deserialize_header = read_header;
  deserialize_tx = λ b. ok b;
  vec_from_hex = read_hex;
  array_from_hex = read_hex;
  to_hex = λ b. "00";
  txid_to_string = λ t. t;
  sha256 = λ b. length b ∷ b;
  script_as_bytes = λ s. s;
  script_pubkey = λ a. a;
  F32 = String;
  F64 = ℕ;
  f32_to_string = λ v. v;
  Value = Json;
  JsonError = JsonError;
  parse = parse_line;
  is_null = is_null;
  read_bool = read_bool;
  read_string = read_string;
  read_u8 = read_below 256;
  read_u32 = read_below (2 ^ 32);
  read_u64 = read_below (2 ^ 64);
  read_usize = read_below (2 ^ 64);
  read_i32 = read_integer;
  read_i64 = read_integer;
  read_f64 = read_number;
  read_txid = read_string;
  read_array = read_array;
  visit_struct = visit;
  visit_map = visit;
  missing_field = about;
  no_variant = mismatch;
  custom = about;
  custom_hex = λ e. mismatch;
  custom_encode = λ e. mismatch;
  null_value = null;
  bool_value = boolean;
  number_value = number;
  string_value = text;
  array_value = array_of;
  object_value = object_of;
  value_to_string = λ v. "";
  object_to_vec = λ ms. ok (bytes_of (object_of ms));
}

-- A bounded queue as a list.
module _ {A : Type 0} where
  abbrev list_send : ℕ × List A → A → Option (ℕ × List A)
  list_send (n, xs) a = if ltb (length xs) n then some (n, xs ++ a ∷ []) else none

  abbrev list_recv : ℕ × List A → Option (A × (ℕ × List A))
  list_recv (n, []) = none
  list_recv (n, x ∷ xs) = some (x, (n, xs))

abbrev pub list_channel : (A : Type 0) → Channel A
list_channel A = record {
  Chan = ℕ × List A;
  create = λ n. (n, []);
  try_send = list_send;
  recv = list_recv;
  pending = λ q. q.1;
  capacity = λ q. q.0;
}

module _ {A : Type 0} where
  list_send-room :
      (n : ℕ) (xs : List A) (a : A) → length xs < n → list_send (n, xs) a ≡ some (n, xs ++ a ∷ [])
  list_send-room n xs a h = ground arith

  list_send-full : (n : ℕ) (xs : List A) (a : A) → n ≤ length xs → list_send (n, xs) a ≡ none
  list_send-full n xs a h = ground arith

  list_recv-nil : (n : ℕ) (xs : List A) → xs ≡ [] → list_recv (n, xs) ≡ none
  list_recv-nil n xs e = rw e refl

  list_recv-cons :
      (n : ℕ) (xs rest : List A) (a : A) → xs ≡ a ∷ rest → list_recv (n, xs) ≡ some (a, (n, rest))
  list_recv-cons n xs rest a e = rw e refl

pub list_channel-IsChannel : (A : Type 0) → IsChannel (list_channel A)
list_channel-IsChannel A = record {
  pending-create = λ n. refl;
  capacity-create = λ n. refl;
  try_send_room = λ (n, xs) a h. ((n, xs ++ a ∷ []), list_send-room n xs a h, refl, refl);
  try_send_full = λ (n, xs) a h. list_send-full n xs a h;
  recv_empty = λ (n, xs) e. list_recv-nil n xs e;
  recv_first = λ (n, xs) a rest e. ((n, rest), list_recv-cons n xs rest a e, refl, refl);
}

-- A network on which every host answers; a TLS stream is the name and the socket.
abbrev pub network : Network
network = record {
  SocketAddr = Text;
  Tcp = Text;
  Tls = Text × Text;
  ServerName = Text;
  IoError = Unit;
  SocksError = Unit;
  other_error = tt;
  to_socket_addrs = λ addr. ok (addr ∷ []);
  tcp_connect = λ t addr. some (ok addr);
  socks5_connect = λ t proxy addr. some (ok addr);
  server_name = λ host. some host;
  tls_connect = λ name tcp. ok (name, tcp);
}
