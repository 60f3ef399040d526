-- ===== src/Tests/Replies.antt =====
-- Tests of examples/http/server/request_handler.cpp, reply.cpp and mime_types.cpp.
use baserver.Base.{
  ℕ, zero, suc, ap, ◌+◌, ◌*◌, ◌/◌, ◌%◌, ◌≡◌, refl, arith, if◌then◌else◌, List, [], ◌∷◌, ◌++◌,
  Option, none, some,
}
use baserver.Http.{Request, no_request}
use baserver.Http.Reply.{
  Reply, bytes, crlf, to_buffer, header_buffers, to_buffers, to_string, stock_reply, reset,
  bad_request, not_found, ok, no_content,
}
use baserver.Http.RequestHandler.{
  Environment, url_decode, has_dots, last_of, extension_of, same, extension_to_type, with_index,
  fill_out, serve, is_refused, answer_path, handle_request,
}
use baserver.Http.RequestHandler.Decoding.{Form, itself, digits, plus, encode, url_decode-encode}
use baserver.Http.RequestHandler.Confinement.{handle_request-Confined}

-- A reader of two digits that are the quotient and the remainder by 16, as bytes themselves.
abbrev read_digits : List ℕ → Option ℕ
read_digits (a ∷ b ∷ []) = some (a * 16 + b)
read_digits _ = none

abbrev high : ℕ → ℕ
high c = c / 16

abbrev low : ℕ → ℕ
low c = c % 16

abbrev forms : List Form
forms = itself b'/' ∷ itself b'a' ∷ plus ∷ digits 43 ∷ digits 255 ∷ []

url_decode-encode_example :
    url_decode read_digits (encode high low forms) ≡ some (b'/' ∷ b'a' ∷ 32 ∷ 43 ∷ 255 ∷ [])
url_decode-encode_example =
    url_decode-encode read_digits high low (λ c h. ap some (omega arith)) forms
      (refl, refl, (refl, refl, (omega arith, (omega arith, tt))))

-- One file, and a printer in the unary system.
abbrev strokes : ℕ → List ℕ
strokes zero = []
strokes (suc n) = b'|' ∷ strokes n

abbrev one_file : List ℕ → Option (List ℕ)
one_file name = if same name (bytes "root/a/index.html") then some (bytes "<p>") else none

abbrev environment : Environment
environment = record { open_file = one_file; read_hex = read_digits; print = strokes }

abbrev get : List ℕ → Request
get uri = record no_request { uri = uri }

abbrev blank : Reply
blank = record { status = ok; headers = []; content = [] }

-- A file outside of the root has no part in the answer.
abbrev with_secret : List ℕ → Option (List ℕ)
with_secret name = if same name (bytes "etc") then some (bytes "key") else one_file name

handle_request-Confined_example :
    handle_request environment (bytes "root") (get (bytes "/a/")) blank
    ≡ handle_request
        (record environment { open_file = with_secret })
        (bytes "root")
        (get (bytes "/a/"))
        blank
unfolding same
handle_request-Confined_example =
    handle_request-Confined environment with_secret (bytes "root") (get (bytes "/a/")) blank
      (λ path v. refl)

program : Unit {0}
unfolding to_buffer header_buffers to_buffers to_string stock_reply reset url_decode has_dots
    last_of extension_of same extension_to_type with_index fill_out serve is_refused answer_path
    handle_request
program = tt

answered : List ℕ → Reply
answered uri = handle_request environment (bytes "root") (get uri) blank

index_found : answered (bytes "/a/") ≡ record {
  status = ok;
  headers =
      record { name = bytes "Content-Length"; value = bytes "|||" }
      ∷ record { name = bytes "Content-Type"; value = bytes "text/html" }
      ∷ [];
  content = bytes "<p>";
}
unfolding program answered
index_found = refl

-- The dots may be escaped: they are looked for in the decoded path.
escaped_dots : answered (b'/' ∷ b'%' ∷ 2 ∷ 14 ∷ b'.' ∷ []) ≡ stock_reply strokes bad_request
unfolding program answered
escaped_dots = refl

missing : answered (bytes "/b") ≡ stock_reply strokes not_found
unfolding program answered
missing = refl

cut_escape : url_decode read_digits (bytes "/%2") ≡ none
unfolding program
cut_escape = refl

-- A zero cuts the name off, behind the extension that gives the type.
after_zero : extension_of (bytes "/a.html" ++ 0 ∷ bytes ".gif") ≡ bytes "gif"
unfolding program
after_zero = refl

written :
    to_buffers (record { status = no_content; headers = []; content = [] })
    ≡ (bytes "HTTP/1.0 204 No Content" ++ crlf) ∷ crlf ∷ [] ∷ []
unfolding program
written = refl
