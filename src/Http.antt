-- ===== src/Http.antt =====
-- src/core/http: requests, the callbacks of the parser, responses and the HTTP server.
pub mod Request
pub mod Context
pub mod Response
pub mod Server
pub mod Session
pub mod Tests
