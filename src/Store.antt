-- ===== src/Store.antt =====
-- `MessageRepository` of app/repository/mongodb.go over the database that it calls.
pub mod Engine
pub mod Documents
pub mod Repository
pub mod Messages
pub mod Reading
pub mod Groups
pub mod Direct
pub mod Once
pub mod GroupService
pub mod Service
pub mod Lists
pub mod Tests
pub mod GroupTests
