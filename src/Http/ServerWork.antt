-- ===== src/Http/ServerWork.antt =====
-- examples/http/server/server_work.hpp: what a read does with the parser. An action names the call
-- that makes the reply: of request_handler.cpp, or of the stock reply.
use baserver.Base.{◌≡◌, refl, ℕ, List, Run, ok, ◌>>=◌}
use baserver.Http.{Request, no_request}
use baserver.Http.Parser.{
  Tribool, yes, no, indeterminate, expecting_newline_3, Parsing, parse, started,
}
use baserver.Http.Parser.Loops.{at}
use baserver.Http.Parser.RoundTrip.{
  Message, IsWellformed, message_onto, request_of, parse-message_onto,
}

pub data Action : Type 0 where
  handle_request : Request → Action
  bad_request reads_again : Action

-- `on_clear`, on the request and the parser.
abbrev pub on_clear : Parsing
on_clear = started no_request

-- The branches of `on_read` after `parse`.
abbrev pub answer : Tribool × (Parsing × List ℕ) → Action × Parsing
answer (yes, (p, rest)) = (handle_request p.request, p)
answer (no, (p, rest)) = (bad_request, p)
answer (indeterminate, (p, rest)) = (reads_again, on_clear)

unfoldable pub on_read : List ℕ → Parsing → Run (Action × Parsing)
on_read bytes p = parse bytes p >>= λ r. ok (answer r)

-- Two reads, the second with what the first left.
unfoldable pub on_reads : List ℕ → List ℕ → Parsing → Run (Action × Parsing)
on_reads xs ys p = on_read xs p >>= λ r. on_read ys r.1

on_read-message :
    (m : Message) (cs : List ℕ)
    → IsWellformed m
    → on_read (message_onto m cs) on_clear
      ≡ ok (handle_request (request_of m), at expecting_newline_3 (request_of m))
unfolding on_read
on_read-message m cs w = rw (parse-message_onto m cs w) refl

-- Whenever a first read holds only a part of a request, it is dropped: a second read that begins with a
-- whole request, well-formed and written out, is answered as that request, whatever the part was.
pub on_reads-message :
    (xs cs : List ℕ) (p q : Parsing) (rest : List ℕ) (m : Message)
    → IsWellformed m
    → parse xs p ≡ ok (indeterminate, (q, rest))
    → on_reads xs (message_onto m cs) p
      ≡ ok (handle_request (request_of m), at expecting_newline_3 (request_of m))
unfolding on_reads on_read
on_reads-message xs cs p q rest m w e = rw e (on_read-message m cs w)
