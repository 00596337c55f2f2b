-- ===== src/Dialogs/Services/Early.antt =====
-- A dialog that is listed while the event of its last message still waits in the queue.
use otus_highload_architect.Prelude.{
  ℕ, ◌+◌, ◌-◌, ◌≡◌, ap, ◌∙◌, false, some, List, [], ◌∷◌, ◌++◌, map, arith, Text, Uuid, mem_bytes,
  ok,
}
use otus_highload_architect.Prelude.Int.{pos}
use otus_highload_architect.Platform.Broker.{Broker}
use otus_highload_architect.Platform.Hashes.{Hashes}
use otus_highload_architect.Platform.Json.{make_array}
use otus_highload_architect.Platform.Uuids.{UuidText}
use otus_highload_architect.Platform.Http.{HttpRequest, status_ok, document, respond}
use otus_highload_architect.Counter.{up, counter_process}
use otus_highload_architect.Counter.Steps.{
  total_of, dialog_of, sum_of, total-count_message, pos-suc,
}
use otus_highload_architect.Counter.Resets.{reset_dialog_drift}
use otus_highload_architect.Dialogs.Chat.{ChatMessage, ChatPlatform, list_messages, idx_key}
use otus_highload_architect.Dialogs.Chat.Laws.{list_messages-dialog_send}
use otus_highload_architect.Dialogs.Handlers.{
  DialogClients, message_item, dialog_list_handler, dialog_unread_handler,
}
use otus_highload_architect.Dialogs.Pipeline.{process-sent_event}
use otus_highload_architect.Dialogs.Services.{
  World, Serves, unread_response, unread-total, after_send, after_list, event_of, list-handled,
}

module _ (p : ChatPlatform) (r : Hashes) (b : Broker p.json.Document)
    (c : DialogClients (World p r b)) (g : Serves p r b c) (uuids : UuidText) where
  -- The world in which an event is handled.
  abbrev pub handled : World p r b → p.json.Document → World p r b
  handled w event = record w { counters = (counter_process r p.json w.counters up up event).0 }

  -- Where the recipient lists the dialog before the event of the new message is handled, the answer holds
  -- the message already; the event then counts it all the same, so that a message that was read stays
  -- in the unread count: the count is what it was before, less the `n` messages that were unread, and one more.
  pub list-early :
      (w : World p r b) (user to : Uuid) (request : HttpRequest) (text : Text) (published : b.State)
      (before : List ChatMessage) (n d : ℕ)
      → uuids.generator request.path_arg ≡ some user
      → mem_bytes
          (g.drawn w)
          (p.lists.contents w.chat.index (idx_key (uuids.to_string user) (uuids.to_string to)))
        ≡ false
      → list_messages p w.chat up (some (uuids.to_string to)) (uuids.to_string user) ≡ ok before
      → dialog_of r w.counters (uuids.to_string to) (uuids.to_string user) ≡ pos n
      → total_of r w.counters (uuids.to_string to)
        ≡ pos (sum_of r w.counters (uuids.to_string to) + d)
      → let sent : ChatMessage = record {
        from_user_id = uuids.to_string user;
        to_user_id = uuids.to_string to;
        text = text;
      } in
        let listed =
          after_list p r b c g uuids
            (after_send p r b c g uuids w published user to text)
            to
            user in
        (dialog_list_handler
            (World p r b)
            c
            uuids
            p.json
            (after_send p r b c g uuids w published user to text)
            to
            request
          ≡ respond listed status_ok
              (document (p.json.to_string (make_array (map message_item (before ++ sent ∷ []))))))
        × (dialog_unread_handler
              (World p r b)
              c
              uuids
              p.json
              (handled listed (event_of p r b c g uuids user to))
              to
            ≡ ok (
                unread_response p r b c g uuids
                  (pos (sum_of r w.counters (uuids.to_string to) + d - n + 1))))
  list-early w user to request text published before n d valid fresh read unread total =
      let u = uuids.to_string user in
      let t = uuids.to_string to in
      let v = after_send p r b c g uuids w published user to text in
      let listed = after_list p r b c g uuids v to user in
      let (low, value, dialogs, others, sum) =
        reset_dialog_drift r w.counters t u n d total unread in
      (
        list-handled p r b c g uuids v to user request _ valid
            (list_messages-dialog_send p w.chat u t text (g.drawn w) before fresh read),
        unread-total p r b c g uuids (handled listed (event_of p r b c g uuids user to)) to
            ∙ ap (λ s. ok (unread_response p r b c g uuids (total_of r s t)))
                (ap (λ x. x.0) (process-sent_event p r listed.counters up up u t))
            ∙ ap (λ x. ok (unread_response p r b c g uuids x))
                (total-count_message r listed.counters t u
                  ∙ pos-suc _ _ low
                  ∙ ap pos (omega (arith, sum))),
      )
