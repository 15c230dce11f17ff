-- ===== src/Types/Notification.antt =====
-- src/types/mod.rs: `Notification` and `to_notification`.
use electrum_sdk.Base.{List, Result, ok, err, map_err, ◌>>=◌, traverse}
use electrum_sdk.External.{External}
use electrum_sdk.Types.Method.{Method}
use electrum_sdk.Types.Structs.{
  HeaderNotification, ScriptNotification, read_raw_header_notification, read_script_notification,
}
use electrum_sdk.Types.Message.{
  JsonRpcMsg, Error, json, unexpected_method, unexpected_msg, request, response, notification,
}
use electrum_sdk.Types.Response.{header_of_raw}

pub data Notification (x : External) : Type 0 where
  headers : List (HeaderNotification x) → Notification x
  script : ScriptNotification → Notification x

module _ (x : External) where
  open x use {Value}

  unfoldable pub read_headers : Value → Result (Notification x) (Error x)
  read_headers v = do
    values ← map_err json (x.read_array v)
    raw ← map_err json (traverse (read_raw_header_notification x) values)
    notifications ← traverse header_of_raw raw
    ok (headers notifications)

  unfoldable pub read_script : Value → Result (Notification x) (Error x)
  read_script v = do n ← map_err json (read_script_notification x v); ok (script n)

  -- The `match` on the method.
  unfoldable pub read_params : Method → Value → Result (Notification x) (Error x)
  unfolding read_headers read_script
  read_params Method.block_header_subscribe v = read_headers v
  read_params Method.script_subscribe v = read_script v
  read_params m v = err (unexpected_method m)

  unfoldable pub to_notification : JsonRpcMsg x → Result (Notification x) (Error x)
  to_notification (notification jsonrpc m ps) = read_params m ps
  to_notification (request id jsonrpc m ps) = err unexpected_msg
  to_notification (response id jsonrpc result error) = err unexpected_msg
