-- ===== src/Http/Reply.antt =====
-- examples/http/server/reply.hpp and reply.cpp: replies, and the stock ones. A string is the list of its
-- bytes. `boost::lexical_cast` of a size is a parameter.
use Prim.Native.Char.{code}
use Prim.Native.String.{String}
use baserver.Base.{ℕ, List, [], ◌∷◌, ◌++◌, length}
use baserver.Http.{Header}

-- The bytes of a literal.
abbrev pub bytes : String → List ℕ
bytes String.[] = []
bytes (String.◌∷◌ c s) = code c ∷ bytes s

pub data Status : Type 0 where
  ok created accepted no_content : Status
  multiple_choices moved_permanently moved_temporarily not_modified : Status
  bad_request unauthorized forbidden not_found : Status
  internal_server_error not_implemented bad_gateway service_unavailable : Status

pub record Reply : Type 0 where
  pub status : Status
  pub headers : List Header
  pub content : List ℕ

abbrev pub crlf : List ℕ
crlf = 13 ∷ 10 ∷ []

-- The line of a status, without its `crlf`.
abbrev status_text : Status → String
status_text ok = "HTTP/1.0 200 OK"
status_text created = "HTTP/1.0 201 Created"
status_text accepted = "HTTP/1.0 202 Accepted"
status_text no_content = "HTTP/1.0 204 No Content"
status_text multiple_choices = "HTTP/1.0 300 Multiple Choices"
status_text moved_permanently = "HTTP/1.0 301 Moved Permanently"
status_text moved_temporarily = "HTTP/1.0 302 Moved Temporarily"
status_text not_modified = "HTTP/1.0 304 Not Modified"
status_text bad_request = "HTTP/1.0 400 Bad Request"
status_text unauthorized = "HTTP/1.0 401 Unauthorized"
status_text forbidden = "HTTP/1.0 403 Forbidden"
status_text not_found = "HTTP/1.0 404 Not Found"
status_text internal_server_error = "HTTP/1.0 500 Internal Server Error"
status_text not_implemented = "HTTP/1.0 501 Not Implemented"
status_text bad_gateway = "HTTP/1.0 502 Bad Gateway"
status_text service_unavailable = "HTTP/1.0 503 Service Unavailable"

unfoldable pub to_buffer : Status → List ℕ
to_buffer s = bytes (status_text s) ++ crlf

abbrev pub name_value_separator : List ℕ
name_value_separator = bytes ": "

-- The loop of `to_buffers`.
unfoldable pub header_buffers : List Header → List (List ℕ)
header_buffers [] = []
header_buffers (h ∷ hs) = h.name ∷ name_value_separator ∷ h.value ∷ crlf ∷ header_buffers hs

unfoldable pub to_buffers : Reply → List (List ℕ)
to_buffers r = (to_buffer r.status ∷ header_buffers r.headers) ++ crlf ∷ r.content ∷ []

abbrev stock_text : Status → String
stock_text ok = ""
stock_text created =
    "<html><head><title>Created</title></head><body><h1>201 Created</h1></body></html>"
stock_text accepted =
    "<html><head><title>Accepted</title></head><body><h1>202 Accepted</h1></body></html>"
stock_text no_content =
    "<html><head><title>No Content</title></head><body><h1>204 Content</h1></body></html>"
stock_text multiple_choices =
    "<html><head><title>Multiple Choices</title></head><body><h1>300 Multiple Choices</h1></body></html>"
stock_text moved_permanently =
    "<html><head><title>Moved Permanently</title></head><body><h1>301 Moved Permanently</h1></body></html>"
stock_text moved_temporarily =
    "<html><head><title>Moved Temporarily</title></head><body><h1>302 Moved Temporarily</h1></body></html>"
stock_text not_modified =
    "<html><head><title>Not Modified</title></head><body><h1>304 Not Modified</h1></body></html>"
stock_text bad_request =
    "<html><head><title>Bad Request</title></head><body><h1>400 Bad Request</h1></body></html>"
stock_text unauthorized =
    "<html><head><title>Unauthorized</title></head><body><h1>401 Unauthorized</h1></body></html>"
stock_text forbidden =
    "<html><head><title>Forbidden</title></head><body><h1>403 Forbidden</h1></body></html>"
stock_text not_found =
    "<html><head><title>Not Found</title></head><body><h1>404 Not Found</h1></body></html>"
stock_text internal_server_error =
    "<html><head><title>Internal Server Error</title></head><body><h1>500 Internal Server Error</h1></body></html>"
stock_text not_implemented =
    "<html><head><title>Not Implemented</title></head><body><h1>501 Not Implemented</h1></body></html>"
stock_text bad_gateway =
    "<html><head><title>Bad Gateway</title></head><body><h1>502 Bad Gateway</h1></body></html>"
stock_text service_unavailable =
    "<html><head><title>Service Unavailable</title></head><body><h1>503 Service Unavailable</h1></body></html>"

-- `stock_replies::to_string`.
unfoldable pub to_string : Status → List ℕ
to_string s = bytes (stock_text s)

unfoldable pub reset : Reply → Reply
reset r = record r { content = []; headers = [] }

-- The two headers of every reply that is made here.
abbrev pub two_headers : List ℕ → List ℕ → List Header
two_headers size kind =
    record { name = bytes "Content-Length"; value = size }
    ∷ record { name = bytes "Content-Type"; value = kind }
    ∷ []

-- `print` is `boost::lexical_cast<std::string>`.
unfoldable pub stock_reply : (ℕ → List ℕ) → Status → Reply
stock_reply print s = record {
  status = s;
  content = to_string s;
  headers = two_headers (print (length (to_string s))) (bytes "text/html");
}
