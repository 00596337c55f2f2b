-- ===== src/Tests/Resend.antt =====
-- The theorem on a message that is sent again, at concrete inputs.
use otus_highload_architect.Prelude.{some, codes, Outcome}
use otus_highload_architect.Platform.Json.{Json}
use otus_highload_architect.Platform.PlainQueues.{PlainBroker, plain_broker}
use otus_highload_architect.Platform.Connections.{up, lost}
use otus_highload_architect.Dialogs.Chat.{ChatMessage, ChatState, send_message}
use otus_highload_architect.Tests.Platforms.{ann, bob}
use otus_highload_architect.Tests.Services.{chat, silent}
use otus_highload_architect.Tests.Dialogues.{started}

abbrev hello : ChatMessage
hello = record { from_user_id = ann; to_user_id = bob; text = codes "hi" }

-- The answer of the FCALL is lost.
abbrev unanswered : ChatState chat × PlainBroker Json × Outcome (Unit {0})
unanswered =
    send_message chat (plain_broker Json) silent started lost (codes "m1") (some ann) bob
      (codes "hi")

abbrev resent : ChatState chat × PlainBroker Json × Outcome (Unit {0})
resent =
    send_message chat (plain_broker Json) unanswered.0 started up (codes "m2") (some ann) bob
      (codes "hi")
