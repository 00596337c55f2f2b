-- ===== src/Dialogs/Services.antt =====
-- The monolith, chat-service and counter-service together: a message that is sent is counted, listed
-- and no longer counted.
pub mod Early
use otus_highload_architect.Prelude.{
  ℕ, ◌+◌, ◌-◌, ◌≡◌, refl, ap, ◌∙◌, inr, false, some, List, [], ◌∷◌, ◌++◌, map, Text, Uuid, codes,
  mem_bytes, rpc_error, Outcome, ok, throw,
}
use otus_highload_architect.Prelude.Int.{ℤ, pos, ◌+ℤ◌}
use otus_highload_architect.Platform.Broker.{Broker}
use otus_highload_architect.Platform.Hashes.{Hashes}
use otus_highload_architect.Platform.Json.{null, make_object, make_array, str, num, member}
use otus_highload_architect.Platform.Uuids.{UuidText}
use otus_highload_architect.Platform.Http.{
  HttpRequest, Response, status_ok, document, value, respond,
}
use otus_highload_architect.Counter.{
  up, counter_process, reset_dialog, reset_dialog_counter, get_unread_count, extract_user_id,
}
use otus_highload_architect.Counter.Steps.{total_of, dialog_of, sum_of, total-count_message}
use otus_highload_architect.Counter.Resets.{reset-count_message}
use otus_highload_architect.Counter.Consumer.{message_counters}
use otus_highload_architect.Dialogs.Chat.{
  ChatMessage, ChatPlatform, ChatState, dialog_send, sent_event, messages_exchange, send_message,
  list_messages, idx_key,
}
use otus_highload_architect.Dialogs.Chat.Laws.{send_message-published, list_messages-dialog_send}
use otus_highload_architect.Dialogs.Handlers.{
  DialogClients, message_item, dialog_send_handler, dialog_list_handler, dialog_unread_handler,
  dialog_list_handler_lem, dialog_send_handler-ok,
}
use otus_highload_architect.Dialogs.Pipeline.{Routed, process-sent_event}

-- What the handlers reach by gRPC.
pub record World (p : ChatPlatform) (r : Hashes) (b : Broker p.json.Document) : Type 0 where
  pub chat : ChatState p
  pub broker : b.State
  pub counters : r.Store

-- The client raises an `RpcError` for whatever the service raises.
abbrev pub as_rpc {ℓ} : {A : Type ℓ} → Outcome A → Outcome A
as_rpc (ok a) = ok a
as_rpc (throw e) = throw rpc_error

module _ (p : ChatPlatform) (r : Hashes) (b : Broker p.json.Document) where
  abbrev pub reply_sent :
      World p r b → ChatState p × b.State × Outcome (Unit {0}) → World p r b × Outcome (Unit {0})
  reply_sent w (chat, broker, outcome) = (record w { chat = chat; broker = broker }, as_rpc outcome)

  abbrev pub reply_reset : World p r b → r.Store × Outcome ℤ → World p r b × Outcome ℤ
  reply_reset w (counters, outcome) = (record w { counters = counters }, as_rpc outcome)

  -- The clients call the two services, whose databases answer.
  pub record Serves (c : DialogClients (World p r b)) : Type 0 where
    -- the identifier that is drawn for a message
    pub drawn : World p r b → Text
    pub send_message_lem :
        (w : World p r b) (user to text : Text)
        → c.send_message w user to text
          ≡ reply_sent w (send_message p b w.chat w.broker up (drawn w) (some user) to text)
    pub list_messages_lem :
        (w : World p r b) (user other : Text)
        → c.list_messages w user other ≡ as_rpc (list_messages p w.chat up (some user) other)
    pub reset_dialog_counter_lem :
        (w : World p r b) (user partner : Text)
        → c.reset_dialog_counter w user partner
          ≡ reply_reset w (reset_dialog_counter r w.counters up (some user) partner)
    pub get_unread_count_lem :
        (w : World p r b) (user : Text)
        → c.get_unread_count w user ≡ as_rpc (get_unread_count r w.counters up (some user))

  module _ (c : DialogClients (World p r b)) (g : Serves c) (uuids : UuidText) where
    abbrev pub unread_response : ℤ → Response p.json.Document
    unread_response n = record {
      status = status_ok;
      body = document (p.json.to_string (make_object (("unread_count", num n) ∷ [])));
    }

    -- A client that asks is told the stored total.
    unread-total :
        (w : World p r b) (user : Uuid)
        → dialog_unread_handler (World p r b) c uuids p.json w user
          ≡ ok (unread_response (total_of r w.counters (uuids.to_string user)))
    unfolding dialog_unread_handler get_unread_count extract_user_id
    unread-total w user = rw (g.get_unread_count_lem w (uuids.to_string user)) refl

    -- The services after a message, before its event is handled.
    abbrev pub after_send : World p r b → b.State → Uuid → Uuid → Text → World p r b
    after_send w published user to text = record w {
      chat = dialog_send p w.chat (uuids.to_string user) (uuids.to_string to) text (g.drawn w);
      broker = published;
    }

    abbrev pub event_of : Uuid → Uuid → p.json.Document
    event_of user to = sent_event p (uuids.to_string user) (uuids.to_string to)

    -- And with its event handled.
    abbrev pub after_event : World p r b → b.State → Uuid → Uuid → Text → World p r b
    after_event w published user to text = record (after_send w published user to text) {
      counters = (counter_process r p.json w.counters up up (event_of user to)).0;
    }

    send-handled :
        (w : World p r b) (user to : Uuid) (request : HttpRequest) (text : Text)
        (published : b.State)
        → uuids.generator request.path_arg ≡ some to
        → member "text" request.json_body ≡ some (str text)
        → b.publish_reliable w.broker
            (messages_exchange p)
            (codes "message.sent." ++ uuids.to_string to)
            (event_of user to)
          ≡ ok published
        → dialog_send_handler (World p r b) c uuids p.json w user request
          ≡ respond (after_send w published user to text) status_ok (value null)
    send-handled w user to request text published valid body confirmed =
        dialog_send_handler-ok (World p r b) c uuids p.json w (after_send w published user to text)
          user to request text valid body
          (g.send_message_lem w (uuids.to_string user) (uuids.to_string to) text
            ∙ ap (reply_sent w) (
                send_message-published p b w.chat w.broker published (g.drawn w)
                  (uuids.to_string to) text (uuids.to_string user) confirmed))

    -- With the queue of the counters bound, a message to a valid identifier whose event is confirmed is
    -- answered with 200, its event stands last in the queue of the counters, and once that event is
    -- handled the recipient's unread count is one higher.
    pub send-counted :
        (w : World p r b) (user to : Uuid) (request : HttpRequest) (text : Text)
        (published : b.State)
        → Routed p r b w.broker
        → uuids.generator request.path_arg ≡ some to
        → member "text" request.json_body ≡ some (str text)
        → b.publish_reliable w.broker
            (messages_exchange p)
            (codes "message.sent." ++ uuids.to_string to)
            (event_of user to)
          ≡ ok published
        → (dialog_send_handler (World p r b) c uuids p.json w user request
            ≡ respond (after_send w published user to text) status_ok (value null))
          × (b.queue published message_counters
              ≡ b.queue w.broker message_counters ++ event_of user to ∷ [])
          × (dialog_unread_handler
                (World p r b)
                c
                uuids
                p.json
                (after_event w published user to text)
                to
              ≡ ok (unread_response (total_of r w.counters (uuids.to_string to) +ℤ pos 1)))
    send-counted w user to request text published routed valid body confirmed =
        let u = uuids.to_string user in
        let t = uuids.to_string to in
        (
          send-handled w user to request text published valid body confirmed,
          b.queue-publish_reliable w.broker published _ _ _ confirmed message_counters
              ∙ rw (routed t) refl,
          unread-total (after_event w published user to text) to
              ∙ ap (λ s. ok (unread_response (total_of r s t)))
                  (ap (λ x. x.0) (process-sent_event p r w.counters up up u t))
              ∙ ap (λ n. ok (unread_response n)) (total-count_message r w.counters t u),
        )

    abbrev pub after_list : World p r b → Uuid → Uuid → World p r b
    after_list w user other = record w {
      counters = (reset_dialog r w.counters (uuids.to_string user) (uuids.to_string other)).0;
    }

    list-handled :
        (w : World p r b) (user other : Uuid) (request : HttpRequest) (messages : List ChatMessage)
        → uuids.generator request.path_arg ≡ some other
        → list_messages p w.chat up (some (uuids.to_string user)) (uuids.to_string other)
          ≡ ok messages
        → dialog_list_handler (World p r b) c uuids p.json w user request
          ≡ respond
              (after_list w user other)
              status_ok
              (document (p.json.to_string (make_array (map message_item messages))))
    unfolding reset_dialog_counter extract_user_id
    list-handled w user other request messages valid found =
        dialog_list_handler_lem (World p r b) c uuids p.json w (after_list w user other) user other
          request messages valid
          (inr (
            (reset_dialog r w.counters (uuids.to_string user) (uuids.to_string other)).1,
            g.reset_dialog_counter_lem w (uuids.to_string user) (uuids.to_string other),
          ))
          (g.list_messages_lem (after_list w user other) (uuids.to_string user)
              (uuids.to_string other)
            ∙ ap as_rpc found)

    -- The recipient then lists the dialog: where the counters say that the recipient had not read `n` of
    -- the sender's messages before, and where the identifier of the message is new in the dialog, the answer is
    -- 200 with the messages of before and the new one at the end, and the unread count is afterwards what
    -- it was before the message, less those `n`.
    pub list-clears :
        (w : World p r b) (user to : Uuid) (request : HttpRequest) (text : Text)
        (published : b.State) (before : List ChatMessage) (n d : ℕ)
        → uuids.generator request.path_arg ≡ some user
        → mem_bytes
            (g.drawn w)
            (p.lists.contents w.chat.index (idx_key (uuids.to_string user) (uuids.to_string to)))
          ≡ false
        → list_messages p w.chat up (some (uuids.to_string to)) (uuids.to_string user) ≡ ok before
        → dialog_of r w.counters (uuids.to_string to) (uuids.to_string user) ≡ pos n
        → total_of r w.counters (uuids.to_string to)
          ≡ pos (sum_of r w.counters (uuids.to_string to) + d)
        → let sent : ChatMessage = record {
          from_user_id = uuids.to_string user;
          to_user_id = uuids.to_string to;
          text = text;
        } in
          (final : World p r b) × (dialog_list_handler
              (World p r b)
              c
              uuids
              p.json
              (after_event w published user to text)
              to
              request
            ≡ respond final status_ok
                (document (p.json.to_string (make_array (map message_item (before ++ sent ∷ []))))))
          × (dialog_unread_handler (World p r b) c uuids p.json final to
              ≡ ok (unread_response (pos (sum_of r w.counters (uuids.to_string to) + d - n))))
    list-clears w user to request text published before n d valid fresh read unread total =
        let u = uuids.to_string user in
        let t = uuids.to_string to in
        let v = after_event w published user to text in
        (
          after_list v to user,
          list-handled v to user request _ valid
              (list_messages-dialog_send p w.chat u t text (g.drawn w) before fresh read),
          unread-total (after_list v to user) to
              ∙ ap (λ s. ok (unread_response (total_of r (reset_dialog r s t u).0 t)))
                  (ap (λ x. x.0) (process-sent_event p r w.counters up up u t))
              ∙ ap (λ x. ok (unread_response x))
                  (reset-count_message r w.counters t u n d unread total),
        )
