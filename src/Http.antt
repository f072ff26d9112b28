-- ===== src/Http.antt =====
-- src/http: the responses, the handlers and the route table.
pub mod Response
pub mod Handler
pub mod Events
pub mod Traits
pub mod Router
pub mod LocalFile
