-- ===== src/Dialogs/Chat/Laws.antt =====
-- A dialog is one list, whoever asks for it, and a message that is sent stands at its end.
use otus_highload_architect.Prelude.{
  traverse, traverse-append, suc, ◌≡◌, refl, sym, ap, ◌∙◌, false, Option, none, some, List, [], ◌∷◌,
  ◌++◌, arith, if◌then◌else◌, length, take_of_length-le, Text, codes, bytes_eq, bytes_eq_iff,
  bytes_eq_refl, bytes_lt_cases, mem_bytes, Exception, bad_json, ok, throw, or_throw,
}
use otus_highload_architect.Prelude.Int.{pos, negsuc}
use otus_highload_architect.Platform.Lists.{range}
use otus_highload_architect.Platform.Broker.{Broker}
use otus_highload_architect.Platform.Connections.{up}
use otus_highload_architect.Dialogs.Chat.{
  extract_user_id, ChatMessage, ChatPlatform, ChatState, idx_key, msg_key, message_json,
  dialog_send, encode_all, list_messages, dialog_list, read_message, messages_exchange, sent_event,
  publish_sent, store_message, send_message,
}

idx_key-symmetric : (a b : Text) → idx_key a b ≡ idx_key b a
unfolding idx_key
idx_key-symmetric a b = ground (
  arith,
  bytes_lt_cases a b,
  λ (e : a ≡ b).
      ap (λ x. codes "dialog:idx:" ++ x ++ codes ":" ++ b) e
      ∙ ap (λ x. codes "dialog:idx:" ++ b ++ codes ":" ++ x) (sym e),
)

range-all : (xs : List Text) → range (pos 0) (negsuc 0) xs ≡ xs
unfolding range
range-all [] = refl
range-all (x ∷ xs) = ground (arith, take_of_length-le (suc (length xs)) (x ∷ xs) (omega arith))

msg_key-eq : (a b : Text) → bytes_eq (msg_key a) (msg_key b) ≡ bytes_eq a b
unfolding bytes_eq
msg_key-eq a b = refl

module _ (p : ChatPlatform) where
  dialog_list-contents :
      (s : ChatState p) (a b : Text)
      → dialog_list p s a b ≡ encode_all p s (p.lists.contents s.index (idx_key a b))
  unfolding dialog_list
  dialog_list-contents s a b =
      ap (encode_all p s)
        (p.lists.lrange_lem s.index (idx_key a b) (pos 0) (negsuc 0) ∙ range-all _)

  encode_all-append :
      (s : ChatState p) (l m : List Text)
      → encode_all p s (l ++ m) ≡ encode_all p s l ++ encode_all p s m
  unfolding encode_all
  encode_all-append s [] m = refl
  encode_all-append s (x ∷ l) m = rw (encode_all-append s l m) refl

  encode_all-fresh :
      (s : ChatState p) (from to text id : Text) (l : List Text)
      → mem_bytes id l ≡ false
      → encode_all p (dialog_send p s from to text id) l ≡ encode_all p s l
  unfolding encode_all mem_bytes dialog_send
  encode_all-fresh s from to text id [] h = refl
  encode_all-fresh s from to text id (x ∷ l) h =
      let other : bytes_eq id x ≡ false = ground (arith, h, bytes_eq_iff id x, bytes_eq_iff x id) in
      let kept : p.hashes.hmget (dialog_send p s from to text id).messages (msg_key x)
          ≡ p.hashes.hmget s.messages (msg_key x) =
        p.hashes.hmget-hset s.messages (msg_key id) _ (msg_key x)
        ∙ rw (msg_key-eq id x, other) refl in
      let rest = encode_all-fresh s from to text id l (ground (arith, h)) in rw (kept, rest) refl

  list-index :
      (s : ChatState p) (from to text id a b : Text)
      → dialog_list p (dialog_send p s from to text id) a b
        ≡ encode_all p (dialog_send p s from to text id) (
            if bytes_eq (idx_key from to) (idx_key a b)
            then p.lists.contents s.index (idx_key a b) ++ id ∷ []
            else p.lists.contents s.index (idx_key a b))
  unfolding dialog_send
  list-index s from to text id a b =
      dialog_list-contents (dialog_send p s from to text id) a b
      ∙ ap (encode_all p (dialog_send p s from to text id))
          (p.lists.contents-rpush s.index (idx_key from to) (id ∷ []) (idx_key a b))

  sent-entry :
      (s : ChatState p) (from to text id : Text)
      → encode_all p (dialog_send p s from to text id) (id ∷ [])
        ≡ p.cjson_encode
            (message_json (some (record { from_user_id = from; to_user_id = to; text = text })))
          ∷ []
  unfolding encode_all dialog_send
  sent-entry s from to text id =
      let message : ChatMessage = record { from_user_id = from; to_user_id = to; text = text } in
      let stored : p.hashes.hmget (dialog_send p s from to text id).messages (msg_key id)
          ≡ some message =
        p.hashes.hmget-hset s.messages (msg_key id) message (msg_key id)
        ∙ rw (bytes_eq_refl (msg_key id)) refl in
      ap (λ o. p.cjson_encode (message_json o) ∷ []) stored

  dialog_list-symmetric : (t : ChatState p) (a b : Text) → dialog_list p t a b ≡ dialog_list p t b a
  dialog_list-symmetric t a b =
      dialog_list-contents t a b
      ∙ ap (λ k. encode_all p t (p.lists.contents t.index k)) (idx_key-symmetric a b)
      ∙ sym (dialog_list-contents t b a)

  own-send :
      (s : ChatState p) (from to text id : Text)
      → mem_bytes id (p.lists.contents s.index (idx_key from to)) ≡ false
      → dialog_list p (dialog_send p s from to text id) to from
        ≡ dialog_list p s to from
          ++ p.cjson_encode
              (message_json (some (record { from_user_id = from; to_user_id = to; text = text })))
            ∷ []
  own-send s from to text id fresh =
      let ids = p.lists.contents s.index (idx_key from to) in
      let t = dialog_send p s from to text id in
      let entry =
        p.cjson_encode
          (message_json (some (record { from_user_id = from; to_user_id = to; text = text }))) in
      let before : encode_all p t ids ≡ dialog_list p s to from =
        encode_all-fresh s from to text id ids fresh
        ∙ sym (dialog_list-contents s from to)
        ∙ dialog_list-symmetric s from to in
      dialog_list-symmetric t to from
      ∙ list-index s from to text id from to
      ∙ rw (bytes_eq_refl (idx_key from to)) (encode_all-append t ids (id ∷ []))
      ∙ ap (λ l. l ++ encode_all p t (id ∷ [])) before
      ∙ ap (λ l. dialog_list p s to from ++ l) (sent-entry s from to text id)

  -- A message with an identifier that the dialog does not hold yet stands at the end of the dialog that
  -- both users see, behind all that was there; and both users of a dialog see one list at any time.
  pub list-send :
      (s : ChatState p) (from to text id : Text)
      → mem_bytes id (p.lists.contents s.index (idx_key from to)) ≡ false
      → (dialog_list p (dialog_send p s from to text id) to from
          ≡ dialog_list p s to from
            ++ p.cjson_encode
                (message_json (some (record { from_user_id = from; to_user_id = to; text = text })))
              ∷ [])
        × ((t : ChatState p) (a b : Text) → dialog_list p t a b ≡ dialog_list p t b a)
  list-send s from to text id fresh = (own-send s from to text id fresh, dialog_list-symmetric)

  -- A message leaves a dialog under another index as it was, where that dialog does not hold the
  -- identifier either.
  pub list-send_other :
      (s : ChatState p) (from to text id a b : Text)
      → bytes_eq (idx_key from to) (idx_key a b) ≡ false
      → mem_bytes id (p.lists.contents s.index (idx_key a b)) ≡ false
      → dialog_list p (dialog_send p s from to text id) a b ≡ dialog_list p s a b
  list-send_other s from to text id a b other absent =
      list-index s from to text id a b
      ∙ rw other (
          encode_all-fresh s from to text id (p.lists.contents s.index (idx_key a b)) absent
          ∙ sym (dialog_list-contents s a b))

  -- What `dialog_list` encodes is what `ListMessages` reads: a message that is there comes back with its
  -- three fields, and an identifier without its message stops the listing.
  read-encoded :
      (o : Option ChatMessage)
      → read_message p (p.cjson_encode (message_json o)) ≡ or_throw o bad_json
  unfolding read_message
  read-encoded none = rw (p.from_string-cjson_encode (message_json none)) refl
  read-encoded (some m) = rw (p.from_string-cjson_encode (message_json (some m))) refl

  -- For a named caller and a database that answers, where the broker refuses the event
  -- `SendMessage` throws, and the message is stored all the same.
  pub send_message-unpublished :
      (b : Broker p.json.Document) (s : ChatState p) (broker : b.State) (id to text from : Text)
      (e : Exception)
      → b.publish_reliable broker
          (messages_exchange p)
          (codes "message.sent." ++ to)
          (sent_event p from to)
        ≡ throw e
      → send_message p b s broker up id (some from) to text
        ≡ (dialog_send p s from to text id, broker, throw e)
  unfolding send_message store_message publish_sent extract_user_id
  send_message-unpublished b s broker id to text from e h = rw (store_message, h) refl

  -- Where the broker takes the event `SendMessage` returns with the message stored and the event
  -- published.
  pub send_message-published :
      (b : Broker p.json.Document) (s : ChatState p) (broker published : b.State)
      (id to text from : Text)
      → b.publish_reliable broker
          (messages_exchange p)
          (codes "message.sent." ++ to)
          (sent_event p from to)
        ≡ ok published
      → send_message p b s broker up id (some from) to text
        ≡ (dialog_send p s from to text id, published, ok tt)
  unfolding send_message store_message publish_sent extract_user_id
  send_message-published b s broker published id to text from h = rw (store_message, h) refl

  list_messages-dialog_list :
      (s : ChatState p) (user other : Text)
      → list_messages p s up (some user) other
        ≡ traverse (read_message p) (dialog_list p s user other)
  unfolding list_messages extract_user_id
  list_messages-dialog_list s user other = refl

  -- A listing after a message is the listing before it with the message at the end.
  pub list_messages-dialog_send :
      (s : ChatState p) (from to text id : Text) (before : List ChatMessage)
      → mem_bytes id (p.lists.contents s.index (idx_key from to)) ≡ false
      → list_messages p s up (some to) from ≡ ok before
      → list_messages p (dialog_send p s from to text id) up (some to) from
        ≡ ok (before ++ record { from_user_id = from; to_user_id = to; text = text } ∷ [])
  list_messages-dialog_send s from to text id before fresh read =
      list_messages-dialog_list (dialog_send p s from to text id) to from
      ∙ ap (traverse (read_message p)) (own-send s from to text id fresh)
      ∙ traverse-append (read_message p) (dialog_list p s to from) before _ _
          (sym (list_messages-dialog_list s to from) ∙ read)
          (read-encoded (some (record { from_user_id = from; to_user_id = to; text = text })))
