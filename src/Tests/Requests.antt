-- ===== src/Tests/Requests.antt =====
-- Tests of the parser of examples/http/server.
use baserver.Base.{
  ◌≡◌, ◌⊎◌, refl, ℕ, List, [], ◌∷◌, ◌++◌, ok, fault, overflow, ◌>>=◌, Returns, arith, replicate,
}
use baserver.Http.{no_request}
use baserver.Http.Parser.{
  method, http_version_major, expecting_newline_3, yes, no, indeterminate, parse, started, consume,
  is_char, is_ctl, is_tspecial, is_digit, is_token, consume_method_start, consume_method,
  consume_uri, expect, consume_slash, add_digit, push_major, push_minor, consume_major_start,
  consume_major, consume_minor_start, consume_minor, push_back, consume_header_line_start,
  consume_header_name, consume_header_value, consume_end,
}
use baserver.Http.Parser.Safety.{IsValid, parse-Safe}
use baserver.Http.Parser.Loops.{at}
use baserver.Http.Parser.RoundTrip.{
  Message, IsWellformed, message_onto, request_of, parse-message_onto,
}
use baserver.Http.Parser.Split.{parse_parts, parse_parts-message}
use baserver.Http.ServerWork.{
  bad_request, handle_request, on_clear, on_read, on_reads, on_reads-message,
}

-- GET /a HTTP/1.1, with the header H: v.
abbrev get_a : Message
get_a = record {
  first = 71;
  method = 69 ∷ 84 ∷ [];
  uri = 47 ∷ 97 ∷ [];
  major_first = 49;
  major = [];
  minor_first = 49;
  minor = [];
  fields = record { first = 72; name = []; content = 118 ∷ [] } ∷ [];
}

program : Unit {0}
unfolding parse consume is_char is_ctl is_tspecial is_digit is_token consume_method_start
    consume_method consume_uri expect consume_slash add_digit push_major push_minor
    consume_major_start consume_major consume_minor_start consume_minor push_back
    consume_header_line_start consume_header_name consume_header_value consume_end on_read on_reads
program = tt

get_a-IsWellformed : IsWellformed get_a
unfolding program
get_a-IsWellformed = record { method = refl; uri = refl; major = refl; minor = refl; fields = refl }

parse-message_onto_example :
    parse (message_onto get_a (1 ∷ [])) (started no_request)
    ≡ ok (yes, (at expecting_newline_3 (request_of get_a), 1 ∷ []))
parse-message_onto_example = parse-message_onto get_a (1 ∷ []) get_a-IsWellformed

get_a_request : request_of get_a ≡ record {
  method = 71 ∷ 69 ∷ 84 ∷ [];
  uri = 47 ∷ 97 ∷ [];
  http_version_major = 1;
  http_version_minor = 1;
  headers = record { name = 72 ∷ []; value = 118 ∷ [] } ∷ [];
}
get_a_request = refl

new-IsValid : IsValid (started no_request)
new-IsValid = record { header = λ h. cc; major = omega arith; minor = omega arith }

-- A request that is no message: a second line that starts with a blank, without a header.
abbrev folded : List ℕ
folded = 71 ∷ 32 ∷ 32 ∷ 72 ∷ 84 ∷ 84 ∷ 80 ∷ 47 ∷ 49 ∷ 46 ∷ 49 ∷ 13 ∷ 10 ∷ 32 ∷ []

parse-Safe_example :
    (parse folded (started no_request) ≡ fault overflow)
    ⊎ Returns
        (parse folded (started no_request))
        (λ o. IsValid o.1.0 × ((o.0 ≡ indeterminate) → o.1.1 ≡ []))
parse-Safe_example = parse-Safe folded (started no_request) new-IsValid

folded_refused : (parse folded (started no_request) >>= λ o. ok (o.0)) ≡ ok no
unfolding program
folded_refused = refl

-- A version of ten digits overflows.
long_version :
    parse (71 ∷ 32 ∷ 32 ∷ 72 ∷ 84 ∷ 84 ∷ 80 ∷ 47 ∷ replicate 10 57) (started no_request)
    ≡ fault overflow
unfolding program
long_version = refl

-- So does a version that an `int` holds: the digit's code is added before that of 0 is taken off.
held_version :
    parse (48 ∷ []) (at http_version_major (record no_request { http_version_major = 214748364 }))
    ≡ fault overflow
unfolding program
held_version = refl

-- The first bytes of the message, and the rest of it.
abbrev first_part : List ℕ
first_part = 71 ∷ 69 ∷ 84 ∷ []

abbrev second_part : List ℕ
second_part =
    32 ∷ 47 ∷ 97 ∷ 32 ∷ 72 ∷ 84 ∷ 84 ∷ 80 ∷ 47 ∷ 49 ∷ 46 ∷ 49 ∷ 13 ∷ 10 ∷ 72 ∷ 58 ∷ 32 ∷ 118 ∷ 13
    ∷ 10 ∷ 13 ∷ 10 ∷ []

parts : first_part ++ second_part ≡ message_onto get_a []
parts = refl

first_part-parse :
    parse first_part (started no_request)
    ≡ ok (indeterminate, (at method (record no_request { method = first_part }), []))
unfolding program
first_part-parse = refl

parse_parts-message_example :
    parse_parts (first_part ∷ [] ∷ second_part ∷ []) (started no_request)
    ≡ ok (yes, (at expecting_newline_3 (request_of get_a), []))
parse_parts-message_example =
    parse_parts-message (first_part ∷ [] ∷ second_part ∷ []) get_a [] get_a-IsWellformed refl

-- A part of one message, and then the whole of another.
on_reads-message_example :
    on_reads first_part (message_onto get_a []) (started no_request)
    ≡ ok (handle_request (request_of get_a), at expecting_newline_3 (request_of get_a))
on_reads-message_example =
    on_reads-message first_part [] (started no_request)
      (at method (record no_request { method = first_part })) [] get_a get_a-IsWellformed
      first_part-parse

-- The message is handled when one read brings it, and refused when two do.
one_read :
    (on_read (message_onto get_a []) on_clear >>= λ r. ok (r.0))
    ≡ ok (handle_request (request_of get_a))
unfolding program
one_read = refl

two_reads : (on_reads first_part second_part on_clear >>= λ r. ok (r.0)) ≡ ok bad_request
unfolding program
two_reads = refl
