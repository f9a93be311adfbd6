-- ===== src/Web.antt =====
-- src/web/: the JSON that the server writes and the requests that it reads.
pub mod Json
pub mod Query
pub mod Route
pub mod Answers
pub mod Files
pub mod Options
