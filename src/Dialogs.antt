-- ===== src/Dialogs.antt =====
-- Dialogs: the handlers of src/dialog, and chat-service with its Redis functions.
pub mod Buckets
pub mod Chat
pub mod Handlers
pub mod Pipeline
pub mod Services
pub mod Resend
