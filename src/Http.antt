-- ===== src/Http.antt =====
-- examples/http/server: the request of request.hpp and header.hpp, and the parser's module.
pub mod Parser
pub mod ServerWork
pub mod Reply
pub mod RequestHandler
use baserver.Base.{ℕ, List, []}

-- A string is the list of its bytes.
pub record Header : Type 0 where
  pub name : List ℕ
  pub value : List ℕ

-- The head of the list of headers is the back of the vector.
pub record Request : Type 0 where
  pub method : List ℕ
  pub uri : List ℕ
  pub http_version_major : ℕ
  pub http_version_minor : ℕ
  pub headers : List Header

-- `request::reset`.
abbrev pub no_request : Request
no_request = record {
  method = [];
  uri = [];
  http_version_major = 0;
  http_version_minor = 0;
  headers = [];
}
