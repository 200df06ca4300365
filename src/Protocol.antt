-- ===== src/Protocol.antt =====
-- The Request, Response and UserStatus of system/user_manager.h, and what the managers share: the
-- reply of an early return, and the JSON documents that they send.
use lite_chat_server.Common.{Bool, Str, [], false, lit, true, ℕ, ℤ}
use lite_chat_server.Json.{Json, end, field, obj}
use lite_chat_server.World.{M, pure}

pub record Request : Type 0 where
  pub type : Str
  pub username : Str
  pub password : Str
  pub new_username : Str
  pub new_password : Str
  pub verify_password : Str
  pub target_username : Str
  pub content : Str
  pub count : ℤ
  pub client_socket : ℕ

pub record Response : Type 0 where
  pub code : ℕ
  pub msg : Str
  pub data_json : Str

pub data UserStatus : Type 0 where
  online offline : UserStatus

-- `response.code = code; response.msg = msg`, with no data
abbrev pub response : ℕ → Str → Response
response code msg = record { code = code; msg = msg; data_json = [] }

abbrev pub reply : ℕ → Str → M Response
reply code msg = pure (response code msg)

abbrev pub entry : Str → Json → Json
entry key value = obj (field key value end)

-- isOnline ? "online" : "offline"
unfoldable pub status_text : Bool → Str
status_text true = lit "online"
status_text false = lit "offline"

-- Server::maxConnections
abbrev pub max_connections : ℕ
max_connections = 128
