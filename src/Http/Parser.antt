-- ===== src/Http/Parser.antt =====
-- examples/http/server/request_parser.hpp and request_parser.cpp: the parser of requests. A `char`
-- is its byte, so that the negative ones of a signed `char` are 128 and above.
pub mod Split
pub mod Safety
pub mod Loops
pub mod RoundTrip
use baserver.Base.{
  ℕ, ◌+◌, ◌-◌, ◌*◌, ◌^◌, leb, ltb, ◌==◌, if◌then◌else◌, Bool, true, false, not, ◌&&◌, ◌||◌, List,
  [], ◌∷◌, ◌++◌, Run, ok, fault, overflow, out_of_bounds, ◌>>=◌,
}
use baserver.Http.{Header, Request}

pub data State : Type 0 where
  method_start method uri_start uri : State
  http_version_h http_version_t_1 http_version_t_2 http_version_p http_version_slash : State
  http_version_major_start http_version_major http_version_minor_start http_version_minor : State
  expecting_newline_1 header_line_start header_lws header_name space_before_header_value : State
  header_value expecting_newline_2 expecting_newline_3 : State

-- `boost::tribool`.
pub data Tribool : Type 0 where
  yes no indeterminate : Tribool

-- The parser and the request that it fills.
pub record Parsing : Type 0 where
  pub state : State
  pub request : Request

unfoldable pub is_char : ℕ → Bool
is_char c = leb c 127

unfoldable pub is_ctl : ℕ → Bool
is_ctl c = leb c 31 || (c == 127)

-- The special characters, in the order of the source's cases.
abbrev pub tspecials : List ℕ
tspecials =
    40 ∷ 41 ∷ 60 ∷ 62 ∷ 64 ∷ 44 ∷ 59 ∷ 58 ∷ 92 ∷ 34 ∷ 47 ∷ 91 ∷ 93 ∷ 63 ∷ 61 ∷ 123 ∷ 125 ∷ 32 ∷ 9
    ∷ []

abbrev pub member : ℕ → List ℕ → Bool
member c [] = false
member c (d ∷ ds) = (c == d) || member c ds

unfoldable pub is_tspecial : ℕ → Bool
is_tspecial c = member c tspecials

unfoldable pub is_digit : ℕ → Bool
is_digit c = leb 48 c && leb c 57

-- The test that the method and the names of headers share.
unfoldable pub is_token : ℕ → Bool
is_token c = is_char c && (not (is_ctl c) && not (is_tspecial c))

abbrev pub Step : Type 0
Step = Run (Tribool × Parsing)

abbrev pub goes : State → Request → Step
goes s r = ok (indeterminate, record { state = s; request = r })

abbrev pub refuses : Parsing → Step
refuses p = ok (no, p)

abbrev pub push_method : ℕ → Request → Request
push_method c r = record r { method = r.method ++ c ∷ [] }

abbrev pub push_uri : ℕ → Request → Request
push_uri c r = record r { uri = r.uri ++ c ∷ [] }

-- The characters '\t', '\n', '\r', ' ', '.', '/', '0', ':', 'H', 'P' and 'T' are 9, 10, 13, 32, 46,
-- 47, 48, 58, 72, 80 and 84.
unfoldable pub consume_method_start : ℕ → Parsing → Step
consume_method_start c p =
    if not (is_token c) then refuses p else goes method (push_method c p.request)

unfoldable pub consume_method : ℕ → Parsing → Step
consume_method c p =
    if c == 32
    then goes uri p.request
    else (if not (is_token c) then refuses p else goes p.state (push_method c p.request))

unfoldable pub consume_uri_start : ℕ → Parsing → Step
consume_uri_start c p = if is_ctl c then refuses p else goes uri (push_uri c p.request)

unfoldable pub consume_uri : ℕ → Parsing → Step
consume_uri c p =
    if c == 32
    then goes http_version_h p.request
    else (if is_ctl c then refuses p else goes p.state (push_uri c p.request))

-- The states that want one character.
unfoldable pub expect : ℕ → State → ℕ → Parsing → Step
expect wanted next c p = if c == wanted then goes next p.request else refuses p

unfoldable pub consume_slash : ℕ → Parsing → Step
consume_slash c p =
    if c == 47
    then goes http_version_major_start
        (record (p.request) { http_version_major = 0; http_version_minor = 0 })
    else refuses p

-- `version * 10 + input - '0'` on `int`.
unfoldable pub add_digit : ℕ → ℕ → Run ℕ
add_digit version c =
    if leb (2 ^ 31) (version * 10 + c) then fault overflow else ok (version * 10 + c - 48)

unfoldable pub push_major : State → ℕ → Parsing → Step
push_major next c p = do
  v ← add_digit p.request.http_version_major c
  goes next (record (p.request) { http_version_major = v })

unfoldable pub push_minor : State → ℕ → Parsing → Step
push_minor next c p = do
  v ← add_digit p.request.http_version_minor c
  goes next (record (p.request) { http_version_minor = v })

unfoldable pub consume_major_start : ℕ → Parsing → Step
consume_major_start c p = if is_digit c then push_major http_version_major c p else refuses p

unfoldable pub consume_major : ℕ → Parsing → Step
consume_major c p =
    if c == 46
    then goes http_version_minor_start p.request
    else (if is_digit c then push_major p.state c p else refuses p)

unfoldable pub consume_minor_start : ℕ → Parsing → Step
consume_minor_start c p = if is_digit c then push_minor http_version_minor c p else refuses p

unfoldable pub consume_minor : ℕ → Parsing → Step
consume_minor c p =
    if c == 13
    then goes expecting_newline_1 p.request
    else (if is_digit c then push_minor p.state c p else refuses p)

-- `req.headers.back()`, which wants a header.
abbrev pub edit_back : (Header → Header) → List Header → Run (List Header)
edit_back f [] = fault out_of_bounds
edit_back f (h ∷ hs) = ok (f h ∷ hs)

abbrev pub add_to_name : ℕ → Header → Header
add_to_name c h = record h { name = h.name ++ c ∷ [] }

abbrev pub add_to_value : ℕ → Header → Header
add_to_value c h = record h { value = h.value ++ c ∷ [] }

unfoldable pub push_back : State → (Header → Header) → Parsing → Step
push_back next f p = do
  hs ← edit_back f p.request.headers
  goes next (record (p.request) { headers = hs })

abbrev pub has_headers : List Header → Bool
has_headers [] = false
has_headers (h ∷ hs) = true

unfoldable pub consume_header_line_start : ℕ → Parsing → Step
consume_header_line_start c p =
    if c == 13
    then goes expecting_newline_3 p.request
    else (if has_headers p.request.headers && ((c == 32) || (c == 9))
        then goes header_lws p.request
        else (if not (is_token c)
            then refuses p
            else goes header_name (record (p.request) {
              headers = record { name = c ∷ []; value = [] } ∷ p.request.headers;
            })))

unfoldable pub consume_header_lws : ℕ → Parsing → Step
consume_header_lws c p =
    if c == 13
    then goes expecting_newline_2 p.request
    else (if (c == 32) || (c == 9)
        then goes p.state p.request
        else (if is_ctl c then refuses p else push_back header_value (add_to_value c) p))

unfoldable pub consume_header_name : ℕ → Parsing → Step
consume_header_name c p =
    if c == 58
    then goes space_before_header_value p.request
    else (if not (is_token c) then refuses p else push_back p.state (add_to_name c) p)

unfoldable pub consume_header_value : ℕ → Parsing → Step
consume_header_value c p =
    if c == 13
    then goes expecting_newline_2 p.request
    else (if is_ctl c then refuses p else push_back p.state (add_to_value c) p)

unfoldable pub consume_end : ℕ → Parsing → Step
consume_end c p = if c == 10 then ok (yes, p) else refuses p

unfoldable pub consume : ℕ → Parsing → Step
consume c p = elim p.state [
  | method_start ↦ consume_method_start c p
  | method ↦ consume_method c p
  | uri_start ↦ consume_uri_start c p
  | uri ↦ consume_uri c p
  | http_version_h ↦ expect 72 http_version_t_1 c p
  | http_version_t_1 ↦ expect 84 http_version_t_2 c p
  | http_version_t_2 ↦ expect 84 http_version_p c p
  | http_version_p ↦ expect 80 http_version_slash c p
  | http_version_slash ↦ consume_slash c p
  | http_version_major_start ↦ consume_major_start c p
  | http_version_major ↦ consume_major c p
  | http_version_minor_start ↦ consume_minor_start c p
  | http_version_minor ↦ consume_minor c p
  | expecting_newline_1 ↦ expect 10 header_line_start c p
  | header_line_start ↦ consume_header_line_start c p
  | header_lws ↦ consume_header_lws c p
  | header_name ↦ consume_header_name c p
  | space_before_header_value ↦ expect 32 header_value c p
  | header_value ↦ consume_header_value c p
  | expecting_newline_2 ↦ expect 10 header_line_start c p
  | expecting_newline_3 ↦ consume_end c p
]

abbrev pub Parsed : Type 0
Parsed = Run (Tribool × (Parsing × List ℕ))

-- What `parse` does with the result of `consume`: it goes on with `rest`, or returns.
abbrev pub proceed : List ℕ → (Parsing → Parsed) → Tribool × Parsing → Parsed
proceed cs rest (yes, q) = ok (yes, (q, cs))
proceed cs rest (no, q) = ok (no, (q, cs))
proceed cs rest (indeterminate, q) = rest q

-- `parse`, with the input that is left.
unfoldable pub parse : List ℕ → Parsing → Parsed
parse [] p = ok (indeterminate, (p, []))
parse (c ∷ cs) p = consume c p >>= proceed cs (parse cs)

abbrev pub started : Request → Parsing
started r = record { state = method_start; request = r }
