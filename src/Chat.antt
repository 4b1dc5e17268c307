-- ===== src/Chat.antt =====
-- The chat server (chat/src/server): the user model over its SQL database, and the handlers of
-- ChatService.
pub mod Tables
pub mod UserModel
pub mod Types
pub mod Service
pub mod Logins
pub mod Closing
pub mod Examples
