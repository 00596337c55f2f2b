-- ===== src/Dialogs/Chat.antt =====
-- chat-service: chat-service/src/dialog/dialog_service.cpp and the functions of
-- scripts/redis/dialog_functions.lua that it calls.
pub mod Laws
use otus_highload_architect.Prelude.{
  ◌>>=◌, ◌≡◌, false, Option, none, some, List, [], ◌∷◌, ◌++◌, if◌then◌else◌, Text, codes, bytes_eq,
  bytes_lt, database_error, unauthenticated, Outcome, ok, throw, traverse,
}
use otus_highload_architect.Prelude.Int.{pos, negsuc}
use otus_highload_architect.Platform.Json.{
  JsonText, Json, make_object, str, boolean, text_at, parse,
}
use otus_highload_architect.Platform.Lists.{ListStore}
use otus_highload_architect.Platform.Broker.{Broker, topic}
use otus_highload_architect.Platform.Connections.{Connection, up, down, lost, call}

pub record ChatMessage : Type 0 where
  pub from_user_id : Text
  pub to_user_id : Text
  pub text : Text

-- HSET and HMGET of the three fields of a message.
pub record MessageHashes : Type 1 where
  pub Store : Type 0
  pub hset : Store → Text → ChatMessage → Store
  pub hmget : Store → Text → Option ChatMessage
  pub hmget-hset :
      (s : Store) (k : Text) (m : ChatMessage) (j : Text)
      → hmget (hset s k m) j ≡ (if bytes_eq k j then some m else hmget s j)

pub record ChatPlatform : Type 1 where
  pub json : JsonText
  pub hashes : MessageHashes
  pub lists : ListStore Text
  -- `cjson.encode`, which writes what userver's JSON reads
  pub cjson_encode : Json → json.Document
  pub from_string-cjson_encode : (j : Json) → json.from_string (cjson_encode j) ≡ some j

pub record ChatState (p : ChatPlatform) : Type 0 where
  pub messages : p.hashes.Store
  pub index : p.lists.Store

-- Lua orders strings by their bytes.
unfoldable pub idx_key : Text → Text → Text
idx_key id1 id2 =
    if bytes_lt id1 id2
    then codes "dialog:idx:" ++ id1 ++ codes ":" ++ id2
    else codes "dialog:idx:" ++ id2 ++ codes ":" ++ id1

abbrev pub msg_key : Text → Text
msg_key msg_id = codes "dialog:msg:" ++ msg_id

-- `ExtractUserId`: the value of `x-user-id` in the metadata of the call.
unfoldable pub extract_user_id : Option Text → Outcome Text
extract_user_id none = throw unauthenticated
extract_user_id (some id) = ok id

-- The table that `dialog_list` encodes: a field that is not there is `false` in Lua.
abbrev pub message_json : Option ChatMessage → Json
message_json (some m) =
    make_object
      (("from", str m.from_user_id) ∷ ("to", str m.to_user_id) ∷ ("text", str m.text) ∷ [])
message_json none =
    make_object (("from", boolean false) ∷ ("to", boolean false) ∷ ("text", boolean false) ∷ [])

module _ (p : ChatPlatform) where
  unfoldable pub dialog_send : ChatState p → Text → Text → Text → Text → ChatState p
  unfolding idx_key
  dialog_send s from_id to_id text msg_id =
      let message : ChatMessage = record {
        from_user_id = from_id;
        to_user_id = to_id;
        text = text;
      } in
      record {
        messages = p.hashes.hset s.messages (msg_key msg_id) message;
        index = p.lists.rpush s.index (idx_key from_id to_id) (msg_id ∷ []);
      }

  unfoldable pub encode_all : ChatState p → List Text → List p.json.Document
  encode_all s [] = []
  encode_all s (id ∷ ids) =
      p.cjson_encode (message_json (p.hashes.hmget s.messages (msg_key id))) ∷ encode_all s ids

  unfoldable pub dialog_list : ChatState p → Text → Text → List p.json.Document
  unfolding idx_key encode_all
  dialog_list s user1 user2 =
      encode_all s (p.lists.lrange s.index (idx_key user1 user2) (pos 0) (negsuc 0))

  unfoldable pub read_message : p.json.Document → Outcome ChatMessage
  read_message item = do
    json ← parse p.json item
    from ← text_at "from" json
    to ← text_at "to" json
    text ← text_at "text" json
    ok (record { from_user_id = from; to_user_id = to; text = text })

  -- `DialogServiceImpl::ListMessages`
  unfoldable pub list_messages :
      ChatState p → Connection → Option Text → Text → Outcome (List ChatMessage)
  list_messages s connection metadata other_user_id = do
    user_id ← extract_user_id metadata
    reply ← call connection (dialog_list s user_id other_user_id)
    traverse read_message reply

  abbrev pub messages_exchange : Text
  messages_exchange = codes "messages-exchange"

  unfoldable pub sent_event : Text → Text → p.json.Document
  sent_event from to =
      p.json.to_string (make_object (("from_user_id", str from) ∷ ("to_user_id", str to) ∷ []))

  module _ (b : Broker p.json.Document) where
    -- `DialogServiceComponent::DialogServiceComponent`, as far as it acts on the broker.
    unfoldable pub dialog_service_start : b.State → b.State
    dialog_service_start s = b.declare_exchange s messages_exchange topic

    publish_sent :
        ChatState p → b.State → Outcome b.State → ChatState p × b.State × Outcome (Unit {0})
    publish_sent s broker (ok published) = (s, published, ok tt)
    publish_sent s broker (throw e) = (s, broker, throw e)

    store_message :
        ChatState p
        → b.State
        → Connection
        → Text
        → Outcome Text
        → Text
        → Text
        → ChatState p × b.State × Outcome (Unit {0})
    unfolding publish_sent sent_event
    store_message s broker connection msg_id (throw e) to text = (s, broker, throw e)
    store_message s broker down msg_id (ok from) to text = (s, broker, throw database_error)
    store_message s broker lost msg_id (ok from) to text =
        (dialog_send s from to text msg_id, broker, throw database_error)
    store_message s broker up msg_id (ok from) to text =
        publish_sent (dialog_send s from to text msg_id) broker (
          b.publish_reliable broker messages_exchange (codes "message.sent." ++ to)
            (sent_event from to))

    -- `DialogServiceImpl::SendMessage`, with the random identifier of the message.
    unfoldable pub send_message :
        ChatState p
        → b.State
        → Connection
        → Text
        → Option Text
        → Text
        → Text
        → ChatState p × b.State × Outcome (Unit {0})
    unfolding store_message
    send_message s broker connection msg_id metadata to_user_id text =
        store_message s broker connection msg_id (extract_user_id metadata) to_user_id text
