-- ===== src/Types/Method.antt =====
-- src/types/method.rs: the names of the Electrum methods.
pub mod Names
use electrum_sdk.Base.{String, Result, ok, err, str_eq, if◌then◌else◌, map_err, ◌>>=◌}
use Prim.Native.String.{◌++◌}
use electrum_sdk.External.{External}

pub data Method : Type 0 where
  get_block_header get_block_headers block_header_subscribe : Method
  script_subscribe script_unsubscribe estimate_fee : Method
  broadcast_tx get_transaction get_balance get_history : Method
  features version ping : Method

pub data Error : Type 0 where
  unknown_method : String → Error

-- `Display`
unfoldable pub to_string : Method → String
to_string get_block_header = "blockchain.block.header"
to_string get_block_headers = "blockchain.block.headers"
to_string block_header_subscribe = "blockchain.headers.subscribe"
to_string script_subscribe = "blockchain.scripthash.subscribe"
to_string script_unsubscribe = "blockchain.scripthash.unsubscribe"
to_string estimate_fee = "blockchain.estimatefee"
to_string broadcast_tx = "blockchain.transaction.broadcast"
to_string get_transaction = "blockchain.transaction.get"
to_string get_balance = "blockchain.scripthash.get_balance"
to_string get_history = "blockchain.scripthash.get_history"
to_string features = "server.features"
to_string version = "server.version"
to_string ping = "server.ping"

unfoldable pub from_str : String → Result Method Error
from_str s =
    if str_eq s "blockchain.block.header"
    then ok get_block_header
    else if str_eq s "blockchain.block.headers"
    then ok get_block_headers
    else if str_eq s "blockchain.headers.subscribe"
    then ok block_header_subscribe
    else if str_eq s "blockchain.scripthash.subscribe"
    then ok script_subscribe
    else if str_eq s "blockchain.scripthash.unsubscribe"
    then ok script_unsubscribe
    else if str_eq s "blockchain.estimatefee"
    then ok estimate_fee
    else if str_eq s "blockchain.transaction.broadcast"
    then ok broadcast_tx
    else if str_eq s "blockchain.transaction.get"
    then ok get_transaction
    else if str_eq s "blockchain.scripthash.get_balance"
    then ok get_balance
    else if str_eq s "blockchain.scripthash.get_history"
    then ok get_history
    else if str_eq s "server.features"
    then ok features
    else if str_eq s "server.version"
    then ok version
    else if str_eq s "server.ping"
    then ok ping
    else err (unknown_method s)

-- The message of `Error` for `de::Error::custom`.
unfoldable pub error_message : Error → String
error_message (unknown_method s) = "unknown method: " ++ s

-- `Serialize` and `Deserialize`
module _ (x : External) where
  open x use {Value, JsonError, read_string, custom, string_value}

  unfoldable pub serialize : Method → Value
  unfolding to_string
  serialize m = string_value (to_string m)

  unfoldable pub deserialize : Value → Result Method JsonError
  unfolding error_message
  deserialize v = do
    conditions ← read_string v
    map_err (λ e. custom (error_message e)) (from_str conditions)
