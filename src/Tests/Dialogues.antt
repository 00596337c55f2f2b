-- ===== src/Tests/Dialogues.antt =====
-- The theorems on a dialog message on its way through the three services, at concrete inputs.
use otus_highload_architect.Prelude.{
  ◌+◌, ◌-◌, ◌≡◌, refl, some, [], ◌∷◌, ◌++◌, map, if◌then◌else◌, codes, mem_bytes, ok, traverse,
}
use otus_highload_architect.Prelude.Int.{pos, ◌+ℤ◌}
use otus_highload_architect.Prelude.Maps.{lookup}
use otus_highload_architect.Platform.Uuids.{plain_uuids}
use otus_highload_architect.Platform.Json.{Json, null, make_object, make_array, str, plain_json}
use otus_highload_architect.Platform.Lists.{range}
use otus_highload_architect.Platform.Http.{HttpRequest, status_ok, value, document, respond}
use otus_highload_architect.Platform.PlainQueues.{PlainBroker, plain_broker}
use otus_highload_architect.Counter.{up, computed_total, reset_dialog_counter, get_unread_count}
use otus_highload_architect.Counter.Consumer.{message_counters, counter_consumer_start}
use otus_highload_architect.Counter.Steps.{total_of, dialog_of, sum_of}
use otus_highload_architect.Dialogs.Chat.{
  extract_user_id, messages_exchange, send_message, list_messages, dialog_list, encode_all,
  dialog_service_start,
}
use otus_highload_architect.Dialogs.Handlers.{
  DialogClients, message_item, dialog_send_handler, dialog_list_handler, dialog_unread_handler,
}
use otus_highload_architect.Dialogs.Pipeline.{Routed, Started-Routed, chat_first}
use otus_highload_architect.Dialogs.Services.{
  World, Serves, reply_sent, reply_reset, as_rpc, unread_response, after_send, after_event,
  event_of, send-counted, list-clears,
}
use otus_highload_architect.Tests.Platforms.{ann, bob, quiet}
use otus_highload_architect.Tests.Services.{chat, silent}
use otus_highload_architect.Tests.Counters.{store, nothing_read}

abbrev pub started : PlainBroker Json
started =
    counter_consumer_start Json (plain_broker Json)
      (dialog_service_start chat (plain_broker Json) quiet)

abbrev pub world : World chat store (plain_broker Json)
world = record { chat = silent; broker = started; counters = nothing_read }

abbrev pub clients : DialogClients (World chat store (plain_broker Json))
clients = record {
  send_message = λ w user to text.
      reply_sent chat store (plain_broker Json) w
        (send_message chat (plain_broker Json) w.chat w.broker up (codes "m1") (some user) to text);
  list_messages = λ w user other. as_rpc (list_messages chat w.chat up (some user) other);
  reset_dialog_counter = λ w user partner.
      reply_reset chat store (plain_broker Json) w
        (reset_dialog_counter store w.counters up (some user) partner);
  get_unread_count = λ w user. as_rpc (get_unread_count store w.counters up (some user));
}

abbrev pub serves : Serves chat store (plain_broker Json) clients
serves = record {
  drawn = λ w. codes "m1";
  send_message_lem = λ w user to text. refl;
  list_messages_lem = λ w user other. refl;
  reset_dialog_counter_lem = λ w user partner. refl;
  get_unread_count_lem = λ w user. refl;
}

abbrev to_bob : HttpRequest
to_bob = record {
  path_arg = bob;
  args = [];
  json_body = make_object (("text", str (codes "hi")) ∷ []);
}

abbrev pub with_ann : HttpRequest
with_ann = record { path_arg = ann; args = []; json_body = null }

abbrev pub event : Json
event = event_of chat store (plain_broker Json) clients serves plain_uuids ann bob

abbrev pub published : PlainBroker Json
published = record started {
  queues = λ q.
      if started.bound (codes "messages-exchange") (codes "message.sent." ++ bob) q
      then started.queues q ++ event ∷ []
      else started.queues q;
}

pub event-confirmed :
    (plain_broker Json).publish_reliable started
      (messages_exchange chat)
      (codes "message.sent." ++ bob)
      event
    ≡ ok published
unfolding counter_consumer_start dialog_service_start
event-confirmed = refl

pub started-Routed : Routed chat store (plain_broker Json) started
started-Routed = Started-Routed chat store (plain_broker Json) quiet started chat_first

send-counted_example :
    (dialog_send_handler
        (World chat store (plain_broker Json))
        clients
        plain_uuids
        plain_json
        world
        ann
        to_bob
      ≡ respond
          (after_send chat store
            (plain_broker Json)
            clients
            serves
            plain_uuids
            world
            published
            ann
            bob
            (codes "hi"))
          status_ok
          (value null))
    × (published.queues message_counters ≡ started.queues message_counters ++ event ∷ [])
    × (dialog_unread_handler
          (World chat store (plain_broker Json))
          clients
          plain_uuids
          plain_json
          (after_event chat store
            (plain_broker Json)
            clients
            serves
            plain_uuids
            world
            published
            ann
            bob
            (codes "hi"))
          bob
        ≡ ok (
            unread_response chat store
              (plain_broker Json)
              clients
              serves
              plain_uuids
              (total_of store nothing_read bob +ℤ pos 1)))
send-counted_example =
    send-counted chat store (plain_broker Json) clients serves plain_uuids world ann bob to_bob
      (codes "hi") published started-Routed refl refl event-confirmed

pub nothing_sent : list_messages chat silent up (some bob) ann ≡ ok []
unfolding list_messages dialog_list encode_all extract_user_id traverse range
nothing_sent = refl

pub nothing_unread : dialog_of store nothing_read bob ann ≡ pos 0
unfolding lookup
nothing_unread = refl

pub nothing_total : total_of store nothing_read bob ≡ pos (sum_of store nothing_read bob + 0)
unfolding lookup computed_total
nothing_total = refl

list-clears_example :
    (final : World chat store (plain_broker Json)) × (dialog_list_handler
        (World chat store (plain_broker Json))
        clients
        plain_uuids
        plain_json
        (after_event chat store
          (plain_broker Json)
          clients
          serves
          plain_uuids
          world
          published
          ann
          bob
          (codes "hi"))
        bob
        with_ann
      ≡ respond final status_ok (
          document (
            make_array (
              map message_item
                ([] ++ record { from_user_id = ann; to_user_id = bob; text = codes "hi" } ∷ [])))))
    × (dialog_unread_handler
          (World chat store (plain_broker Json))
          clients
          plain_uuids
          plain_json
          final
          bob
        ≡ ok (
            unread_response chat store
              (plain_broker Json)
              clients
              serves
              plain_uuids
              (pos (sum_of store nothing_read bob + 0 - 0))))
unfolding mem_bytes
list-clears_example =
    list-clears chat store (plain_broker Json) clients serves plain_uuids world ann bob with_ann
      (codes "hi") published [] 0 0 refl refl nothing_sent nothing_unread nothing_total
