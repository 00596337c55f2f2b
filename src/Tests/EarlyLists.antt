-- ===== src/Tests/EarlyLists.antt =====
-- The theorem on a dialog that is listed before its event is handled, at concrete inputs.
use otus_highload_architect.Prelude.{◌+◌, ◌-◌, ◌≡◌, refl, [], ◌∷◌, ◌++◌, map, codes, mem_bytes, ok}
use otus_highload_architect.Prelude.Int.{pos}
use otus_highload_architect.Platform.Uuids.{plain_uuids}
use otus_highload_architect.Platform.Json.{Json, make_array, plain_json}
use otus_highload_architect.Platform.Http.{status_ok, document, respond}
use otus_highload_architect.Platform.PlainQueues.{plain_broker}
use otus_highload_architect.Counter.Steps.{sum_of}
use otus_highload_architect.Dialogs.Handlers.{
  message_item, dialog_list_handler, dialog_unread_handler,
}
use otus_highload_architect.Dialogs.Services.Early.{handled, list-early}
use otus_highload_architect.Dialogs.Services.{after_list, World, unread_response, after_send}
use otus_highload_architect.Tests.Platforms.{ann, bob}
use otus_highload_architect.Tests.Services.{chat}
use otus_highload_architect.Tests.Counters.{store, nothing_read}
use otus_highload_architect.Tests.Dialogues.{
  world, clients, serves, with_ann, event, published, nothing_sent, nothing_unread, nothing_total,
}

abbrev listed : World chat store (plain_broker Json)
listed =
    after_list chat store (plain_broker Json) clients serves plain_uuids
      (after_send chat store (plain_broker Json) clients serves plain_uuids world published ann bob
        (codes "hi"))
      bob ann

list-early_example :
    (dialog_list_handler
        (World chat store (plain_broker Json))
        clients
        plain_uuids
        plain_json
        (after_send chat store
          (plain_broker Json)
          clients
          serves
          plain_uuids
          world
          published
          ann
          bob
          (codes "hi"))
        bob
        with_ann
      ≡ respond listed status_ok (
          document (
            make_array (
              map message_item
                ([] ++ record { from_user_id = ann; to_user_id = bob; text = codes "hi" } ∷ [])))))
    × (dialog_unread_handler
          (World chat store (plain_broker Json))
          clients
          plain_uuids
          plain_json
          (handled chat store (plain_broker Json) clients serves plain_uuids listed event)
          bob
        ≡ ok (
            unread_response chat store
              (plain_broker Json)
              clients
              serves
              plain_uuids
              (pos (sum_of store nothing_read bob + 0 - 0 + 1))))
unfolding mem_bytes
list-early_example =
    list-early chat store (plain_broker Json) clients serves plain_uuids world ann bob with_ann
      (codes "hi") published [] 0 0 refl refl nothing_sent nothing_unread nothing_total
