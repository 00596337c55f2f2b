-- ===== src/Dialogs/Resend.antt =====
-- `DialogServiceImpl::SendMessage` (chat-service/src/dialog/dialog_service.cpp) where it fails once the
-- message is stored, and the caller sends the message again.
use otus_highload_architect.Prelude.{
  ◌≡◌, ◌⊎◌, List, ◌++◌, Text, codes, Exception, database_error, throw,
}
use otus_highload_architect.Platform.Broker.{Broker}
use otus_highload_architect.Platform.Connections.{Connection, up, lost}
use otus_highload_architect.Dialogs.Chat.{ChatPlatform, messages_exchange, sent_event}

module _ (p : ChatPlatform) (b : Broker p.json.Document) (broker : b.State) (c : Connection)
    (to text from : Text) (e : Exception) where
  -- The broker refuses the event, or the answer of the FCALL is lost.
  abbrev pub FailsStored : Type 0
  FailsStored =
      ((c ≡ up)
        × (b.publish_reliable broker (messages_exchange p) (codes "message.sent." ++ to)
              (sent_event p from to)
            ≡ throw e))
      ⊎ ((c ≡ lost) × (e ≡ database_error))
