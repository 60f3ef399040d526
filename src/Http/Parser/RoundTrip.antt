-- ===== src/Http/Parser/RoundTrip.antt =====
-- examples/http/server/request_parser.cpp: the parser on requests that are written out.
use baserver.Base.{
  ◌≡◌, refl, ap, ◌∙◌, ℕ, ◌+◌, ◌-◌, ◌*◌, ◌^◌, List, [], ◌∷◌, ◌++◌, ok, Bool, true, leb, not, ◌&&◌,
}
use baserver.Http.{Header, Request, no_request}
use baserver.Http.Parser.{
  method, uri, http_version_major_start, http_version_major, http_version_minor_start,
  http_version_minor, header_line_start, header_name, header_value, expecting_newline_3, yes,
  expect, consume_method_start, consume_method, consume_uri, consume_slash, consume_major,
  consume_minor, consume_header_line_start, consume_header_name, consume_header_value, consume_end,
  consume, parse, is_token, is_digit, started,
}
use baserver.Http.Parser.Loops.{
  all, at, and-left, and-right, parse-more, is_text, is_uri, is_number, value, method-loop,
  uri-loop, major-loop, minor-loop, name-loop, value-loop, consume-major_start, consume-minor_start,
  consume-field_start,
}

-- A header and a request as they are sent. What must not be empty has its first byte apart.
pub record Field : Type 0 where
  pub first : ℕ
  pub name : List ℕ
  pub content : List ℕ

pub record Message : Type 0 where
  pub first : ℕ
  pub method : List ℕ
  pub uri : List ℕ
  pub major_first : ℕ
  pub major : List ℕ
  pub minor_first : ℕ
  pub minor : List ℕ
  pub fields : List Field

abbrev pub fields_onto : List Field → List ℕ → List ℕ
fields_onto [] cs = cs
fields_onto (f ∷ fs) cs = f.first ∷ (f.name ++ 58 ∷ 32 ∷ (f.content ++ 13 ∷ 10 ∷ fields_onto fs cs))

-- The message in front of `cs`.
abbrev pub message_onto : Message → List ℕ → List ℕ
message_onto m cs =
    m.first
    ∷ (m.method
        ++ 32
          ∷ (m.uri
              ++ 32
                ∷ 72
                ∷ 84
                ∷ 84
                ∷ 80
                ∷ 47
                ∷ m.major_first
                ∷ (m.major
                    ++ 46
                      ∷ m.minor_first
                      ∷ (m.minor ++ 13 ∷ 10 ∷ fields_onto m.fields (13 ∷ 10 ∷ cs)))))

-- The headers with those of the fields pushed back.
abbrev pub pushed : List Field → List Header → List Header
pushed [] hs = hs
pushed (f ∷ fs) hs = pushed fs (record { name = f.first ∷ f.name; value = f.content } ∷ hs)

abbrev pub request_of : Message → Request
request_of m = record {
  method = m.first ∷ m.method;
  uri = m.uri;
  http_version_major = value 0 (m.major_first ∷ m.major);
  http_version_minor = value 0 (m.minor_first ∷ m.minor);
  headers = pushed m.fields [];
}

abbrev pub fields_fit : List Field → Bool
fields_fit [] = true
fields_fit (f ∷ fs) = (all is_token (f.first ∷ f.name) && all is_text f.content) && fields_fit fs

-- Tokens for the method and the names, no control characters in the URI and the values, no blank in
-- the URI, and digits for the versions, such that no sum on the way overflows an `int`.
pub record IsWellformed (m : Message) : Type 0 where
  pub method : all is_token (m.first ∷ m.method) ≡ true
  pub uri : all is_uri m.uri ≡ true
  pub major : is_number 0 (m.major_first ∷ m.major) ≡ true
  pub minor : is_number 0 (m.minor_first ∷ m.minor) ≡ true
  pub fields : fields_fit m.fields ≡ true

parse-start :
    (c : ℕ) (cs : List ℕ)
    → is_token c ≡ true
    → parse (c ∷ cs) (started no_request)
      ≡ parse cs (at method (record no_request { method = c ∷ [] }))
unfolding parse consume consume_method_start
parse-start c cs h = rw h refl

parse-blank : (cs : List ℕ) (r : Request) → parse (32 ∷ cs) (at method r) ≡ parse cs (at uri r)
unfolding parse consume consume_method
parse-blank cs r = refl

parse-slash :
    (cs : List ℕ) (r : Request)
    → parse (32 ∷ 72 ∷ 84 ∷ 84 ∷ 80 ∷ 47 ∷ cs) (at uri r)
      ≡ parse cs (
          at http_version_major_start (record r { http_version_major = 0; http_version_minor = 0 }))
unfolding parse consume consume_uri expect consume_slash
parse-slash cs r = refl

parse-dot :
    (cs : List ℕ) (r : Request)
    → parse (46 ∷ cs) (at http_version_major r) ≡ parse cs (at http_version_minor_start r)
unfolding parse consume consume_major
parse-dot cs r = refl

parse-line_end :
    (cs : List ℕ) (r : Request)
    → parse (13 ∷ 10 ∷ cs) (at http_version_minor r) ≡ parse cs (at header_line_start r)
unfolding parse consume consume_minor expect
parse-line_end cs r = refl

parse-colon :
    (cs : List ℕ) (r : Request)
    → parse (58 ∷ 32 ∷ cs) (at header_name r) ≡ parse cs (at header_value r)
unfolding parse consume consume_header_name expect
parse-colon cs r = refl

parse-value_end :
    (cs : List ℕ) (r : Request)
    → parse (13 ∷ 10 ∷ cs) (at header_value r) ≡ parse cs (at header_line_start r)
unfolding parse consume consume_header_value expect
parse-value_end cs r = refl

parse-end :
    (cs : List ℕ) (r : Request)
    → parse (13 ∷ 10 ∷ cs) (at header_line_start r) ≡ ok (yes, (at expecting_newline_3 r, cs))
unfolding parse consume consume_header_line_start consume_end
parse-end cs r = refl

parse-fields :
    (fs : List Field) (cs : List ℕ) (r : Request)
    → fields_fit fs ≡ true
    → parse (fields_onto fs (13 ∷ 10 ∷ cs)) (at header_line_start r)
      ≡ ok (yes, (at expecting_newline_3 (record r { headers = pushed fs r.headers }), cs))
parse-fields [] cs r h = parse-end cs r
parse-fields (f ∷ fs) cs r h =
    let both = and-left (all is_token (f.first ∷ f.name) && all is_text f.content) _ h in
    let named = and-left (all is_token (f.first ∷ f.name)) _ both in
    let h0 : Header = record { name = f.first ∷ []; value = [] } in
    let h1 : Header = record { name = f.first ∷ f.name; value = [] } in
    let r1 : Request = record r { headers = h1 ∷ r.headers } in
    let r2 : Request = record r { headers = record h1 { value = f.content } ∷ r.headers } in
    let rest = fields_onto fs (13 ∷ 10 ∷ cs) in
    parse-more f.first _ _ _ (consume-field_start f.first r (and-left (is_token f.first) _ named))
    ∙ name-loop f.name (58 ∷ 32 ∷ (f.content ++ 13 ∷ 10 ∷ rest))
        (record r { headers = h0 ∷ r.headers }) h0 r.headers refl
        (and-right (is_token f.first) _ named)
    ∙ parse-colon (f.content ++ 13 ∷ 10 ∷ rest) r1
    ∙ value-loop f.content (13 ∷ 10 ∷ rest) r1 h1 r.headers refl
        (and-right (all is_token (f.first ∷ f.name)) _ both)
    ∙ parse-value_end rest r2
    ∙ parse-fields fs cs r2
        (and-right (all is_token (f.first ∷ f.name) && all is_text f.content) _ h)

-- The version's first digit, then the rest of it.
parse-major :
    (c : ℕ) (w cs : List ℕ) (r : Request)
    → r.http_version_major ≡ 0
    → is_number 0 (c ∷ w) ≡ true
    → parse (c ∷ (w ++ cs)) (at http_version_major_start r)
      ≡ parse cs (at http_version_major (record r { http_version_major = value 0 (c ∷ w) }))
parse-major c w cs r z h =
    let k = and-left (is_digit c && not (leb (2 ^ 31) (0 * 10 + c))) _ h in
    parse-more c (w ++ cs) _ _
      (consume-major_start c r (and-left (is_digit c) _ k) (rw z (and-right (is_digit c) _ k)))
    ∙ ap
        (λ v.
          parse (w ++ cs)
            (at http_version_major (record r { http_version_major = v * 10 + c - 48 })))
        z
    ∙ major-loop w cs (record r { http_version_major = 0 * 10 + c - 48 })
        (and-right (is_digit c && not (leb (2 ^ 31) (0 * 10 + c))) _ h)

parse-minor :
    (c : ℕ) (w cs : List ℕ) (r : Request)
    → r.http_version_minor ≡ 0
    → is_number 0 (c ∷ w) ≡ true
    → parse (c ∷ (w ++ cs)) (at http_version_minor_start r)
      ≡ parse cs (at http_version_minor (record r { http_version_minor = value 0 (c ∷ w) }))
parse-minor c w cs r z h =
    let k = and-left (is_digit c && not (leb (2 ^ 31) (0 * 10 + c))) _ h in
    parse-more c (w ++ cs) _ _
      (consume-minor_start c r (and-left (is_digit c) _ k) (rw z (and-right (is_digit c) _ k)))
    ∙ ap
        (λ v.
          parse (w ++ cs)
            (at http_version_minor (record r { http_version_minor = v * 10 + c - 48 })))
        z
    ∙ minor-loop w cs (record r { http_version_minor = 0 * 10 + c - 48 })
        (and-right (is_digit c && not (leb (2 ^ 31) (0 * 10 + c))) _ h)

-- A request that is written out with tokens for its method and header names, no control characters in
-- its URI and header values, no blank in its URI, and digits for its versions, such that at each digit
-- ten times the number before it and the digit's code are together below `2 ^ 31`, is accepted as that
-- request, up to its last byte: what follows it is left.
pub parse-message_onto :
    (m : Message) (cs : List ℕ)
    → IsWellformed m
    → parse (message_onto m cs) (started no_request)
      ≡ ok (yes, (at expecting_newline_3 (request_of m), cs))
parse-message_onto m cs w =
    let r1 : Request = record no_request { method = m.first ∷ m.method } in
    let r2 : Request = record r1 { uri = m.uri } in
    let r3 : Request = record r2 { http_version_major = value 0 (m.major_first ∷ m.major) } in
    let r4 : Request = record r3 { http_version_minor = value 0 (m.minor_first ∷ m.minor) } in
    parse-start m.first _ (and-left (is_token m.first) _ w.method)
    ∙ method-loop m.method _ (record no_request { method = m.first ∷ [] })
        (and-right (is_token m.first) _ w.method)
    ∙ parse-blank _ r1
    ∙ uri-loop m.uri _ r1 w.uri
    ∙ parse-slash _ r2
    ∙ parse-major m.major_first m.major _ r2 refl w.major
    ∙ parse-dot _ r3
    ∙ parse-minor m.minor_first m.minor _ r3 refl w.minor
    ∙ parse-line_end _ r4
    ∙ parse-fields m.fields cs r4 w.fields
