-- ===== src/Server/Parsing.antt =====
-- The first half of Server::DispatchRequest: from a JSON document to a Request. `none` is an
-- exception of jsoncpp.
use lite_chat_server.Common.{
  Option, Str, String, [], if◌then◌else◌, is_empty, lit, none, some, ℕ, ℤ,
}
use lite_chat_server.Host.{Host}
use lite_chat_server.Json.{Json, arr, bool, int, null, obj, real, str}
use lite_chat_server.Protocol.{Request}

infixl 5 ◌>>=◌
abbrev ◌>>=◌ : {A B : Type 0} → Option A → (A → Option B) → Option B
none >>= f = none
some a >>= f = f a

-- dataNode.isNull() ? root : dataNode
abbrev pub fields_node : Json → Json → Json
fields_node root null = root
fields_node root (bool b) = bool b
fields_node root (int n) = int n
fields_node root (real n d) = real n d
fields_node root (str s) = str s
fields_node root (arr items) = arr items
fields_node root (obj fields) = obj fields

module _ ⦃host : Host⦄ where
  -- The type, and the node that holds the fields.
  unfoldable pub read_head : Json → Option (Str × Json)
  read_head root = do
    type_node ← host.member root (lit "type")
    type ← host.as_string type_node
    data_node ← host.member root (lit "data")
    some (type, fields_node root data_node)

  -- if(node.isMember(key)) request.field = node[key].asString(), on a field that starts out empty
  unfoldable pub read_text : Json → String → Option Str
  read_text node key = do
    present ← host.is_member node (lit key)
    if present then (host.member node (lit key) >>= host.as_string) else some []

  -- `count` has no initial value.
  unfoldable pub read_count : Json → Option ℤ
  read_count node = do
    present ← host.is_member node (lit "count")
    if present then (host.member node (lit "count") >>= host.as_int) else some host.indeterminate

  unfoldable pub read_request : Str → ℕ → Json → Option Request
  read_request type socket node = do
    username ← read_text node "username"
    password ← read_text node "password"
    new_username ← read_text node "newUsername"
    new_password ← read_text node "newPassword"
    verify_password ← read_text node "verifyPassword"
    target_username ← read_text node "targetUsername"
    content ← read_text node "content"
    count ← read_count node
    some (record {
      type = type;
      username = username;
      password = password;
      new_username = new_username;
      new_password = new_password;
      verify_password = verify_password;
      target_username = target_username;
      content = content;
      count = count;
      client_socket = socket;
    })

-- The name of the session comes before the name in the request, which then is the target.
unfoldable pub claim_session : Str → Request → Request
claim_session session_name request =
    if is_empty session_name
    then request
    else if is_empty request.username
    then record request { username = session_name }
    else record request {
      username = session_name;
      target_username =
          if is_empty request.target_username then request.username else request.target_username;
    }
