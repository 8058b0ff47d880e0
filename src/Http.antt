-- ===== src/Http.antt =====
-- src/http: URLs, responses, and the headers of a request. The parser of src/http/http_parser.c is
-- third-party code; what it calls and returns are arguments here.
pub mod Url
pub mod Response
pub mod Headers
pub mod Client
