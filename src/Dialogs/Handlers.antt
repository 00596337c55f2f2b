-- ===== src/Dialogs/Handlers.antt =====
-- The dialog handlers of the monolith: src/dialog/dialog_send_handler.cpp,
-- src/dialog/dialog_list_handler.cpp and src/dialog/dialog_unread_handler.cpp. The two services answer
-- through the clients below; `throw` is the `RpcError` of a call.
use otus_highload_architect.Prelude.{
  false, ◌≡◌, refl, ap, true, ◌⊎◌, inl, inr, none, some, List, [], ◌∷◌, map, if◌then◌else◌, Text,
  Uuid, codes, rpc_error, Outcome, ok, throw,
}
use otus_highload_architect.Prelude.Int.{ℤ, pos}
use otus_highload_architect.Platform.Uuids.{UuidText}
use otus_highload_architect.Platform.Json.{
  null, JsonText, Json, make_object, make_array, str, num, text_at, has_member, member, as_text,
}
use otus_highload_architect.Platform.Http.{
  HttpRequest, Response, status_ok, bad_request, internal_server_error, empty, document, value,
  respond,
}
use otus_highload_architect.Dialogs.Chat.{ChatMessage}

-- The generated clients of chat-service and counter-service; `W` is the state of the two services.
pub record DialogClients (W : Type 0) : Type 0 where
  -- metadata `x-user-id`, recipient and text
  pub send_message : W → Text → Text → Text → W × Outcome (Unit {0})
  pub list_messages : W → Text → Text → Outcome (List ChatMessage)
  pub reset_dialog_counter : W → Text → Text → W × Outcome ℤ
  pub get_unread_count : W → Text → Outcome ℤ

abbrev pub message_item : ChatMessage → Json
message_item msg =
    make_object
      (("from", str msg.from_user_id) ∷ ("to", str msg.to_user_id) ∷ ("text", str msg.text) ∷ [])

module _ (W : Type 0) (c : DialogClients W) (uuids : UuidText) (json : JsonText) where
  -- Only `RpcError` is caught.
  sent : W × Outcome (Unit {0}) → W × Outcome (Response json.Document)
  sent (w, ok _) = respond w status_ok (value null)
  sent (w, throw rpc_error) = respond w internal_server_error (value null)
  sent (w, throw e) = (w, throw e)

  send_text : W → Uuid → Uuid → Outcome Text → W × Outcome (Response json.Document)
  unfolding sent
  send_text w user_id to (throw e) = (w, throw e)
  send_text w user_id to (ok text) =
      sent (c.send_message w (uuids.to_string user_id) (uuids.to_string to) text)

  -- `DialogSendHandler::HandleRequestJsonThrow`; `{}` of a JSON handler is `null`.
  unfoldable pub dialog_send_handler : W → Uuid → HttpRequest → W × Outcome (Response json.Document)
  unfolding send_text
  dialog_send_handler w user_id request =
      if has_member "text" request.json_body
      then (elim (uuids.generator request.path_arg) [
        | none ↦ respond w bad_request (value null)
        | some to ↦ send_text w user_id to (text_at "text" request.json_body)
      ])
      else respond w bad_request
          (value (make_object (("error", str (codes "Expected body has `text` field")) ∷ [])))

  listed : W → Outcome (List ChatMessage) → W × Outcome (Response json.Document)
  listed w (ok messages) =
      respond w status_ok (document (json.to_string (make_array (map message_item messages))))
  listed w (throw rpc_error) = respond w internal_server_error empty
  listed w (throw e) = (w, throw e)

  -- The reset is best-effort: an `RpcError` is logged and the list is still asked for.
  after_reset : Uuid → Uuid → W × Outcome ℤ → W × Outcome (Response json.Document)
  unfolding listed
  after_reset user_id other (w, ok _) =
      listed w (c.list_messages w (uuids.to_string user_id) (uuids.to_string other))
  after_reset user_id other (w, throw rpc_error) =
      listed w (c.list_messages w (uuids.to_string user_id) (uuids.to_string other))
  after_reset user_id other (w, throw e) = (w, throw e)

  -- `DialogListHandler::HandleRequestThrow`
  unfoldable pub dialog_list_handler : W → Uuid → HttpRequest → W × Outcome (Response json.Document)
  unfolding after_reset
  dialog_list_handler w user_id request = elim (uuids.generator request.path_arg) [
    | none ↦ respond w bad_request empty
    | some other ↦
        after_reset user_id other
          (c.reset_dialog_counter w (uuids.to_string user_id) (uuids.to_string other))
  ]

  unread_answer : Outcome ℤ → Outcome (Response json.Document)
  unread_answer (ok total) = ok (record {
    status = status_ok;
    body = document (json.to_string (make_object (("unread_count", num total) ∷ [])));
  })
  unread_answer (throw rpc_error) = ok (record {
    status = status_ok;
    body = document (json.to_string (make_object (("unread_count", num (pos 0)) ∷ [])));
  })
  unread_answer (throw e) = throw e

  -- `DialogUnreadHandler::HandleRequestThrow`
  unfoldable pub dialog_unread_handler : W → Uuid → Outcome (Response json.Document)
  unfolding unread_answer
  dialog_unread_handler w user_id = unread_answer (c.get_unread_count w (uuids.to_string user_id))

  -- A message that chat-service takes is answered with 200.
  pub dialog_send_handler-ok :
      (w after : W) (user to : Uuid) (request : HttpRequest) (text : Text)
      → uuids.generator request.path_arg ≡ some to
      → member "text" request.json_body ≡ some (str text)
      → c.send_message w (uuids.to_string user) (uuids.to_string to) text ≡ (after, ok tt)
      → dialog_send_handler w user request ≡ respond after status_ok (value null)
  unfolding dialog_send_handler send_text sent
  dialog_send_handler-ok w after user to request text valid body done =
      let there : has_member "text" request.json_body ≡ true =
        ap (λ o. elim o [ some v ↦ true | none ↦ false ]) body in
      let read : text_at "text" request.json_body ≡ ok text = ap as_text body in
      rw (there, valid, read, ap (λ x. x.1) done, sent, ap (λ x. x.0) done) refl

  -- For a valid identifier in the path, listing a dialog resets its counter first, with the same
  -- two identifiers, and answers 200 with the messages that chat-service lists, whether the reset
  -- succeeds or fails as a call.
  pub dialog_list_handler_lem :
      (w after : W) (user other : Uuid) (request : HttpRequest) (messages : List ChatMessage)
      → uuids.generator request.path_arg ≡ some other
      → (c.reset_dialog_counter w (uuids.to_string user) (uuids.to_string other)
          ≡ (after, throw rpc_error))
        ⊎ ((n : ℤ) × (c.reset_dialog_counter w (uuids.to_string user) (uuids.to_string other)
              ≡ (after, ok n)))
      → c.list_messages after (uuids.to_string user) (uuids.to_string other) ≡ ok messages
      → dialog_list_handler w user request
        ≡ respond after status_ok
            (document (json.to_string (make_array (map message_item messages))))
  unfolding dialog_list_handler after_reset listed
  dialog_list_handler_lem w after user other request messages valid (inl failed) found =
      rw
        (
          valid,
          dialog_list_handler,
          ap (λ x. x.1) failed,
          after_reset,
          ap (λ x. x.0) failed,
          found,
          listed,
          ap (λ x. x.0) failed,
        )
        refl
  dialog_list_handler_lem w after user other request messages valid (inr (n, done)) found =
      rw
        (
          valid,
          dialog_list_handler,
          ap (λ x. x.1) done,
          after_reset,
          ap (λ x. x.0) done,
          found,
          listed,
          ap (λ x. x.0) done,
        )
        refl
