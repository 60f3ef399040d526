-- ===== src/Http/Parser/Split.antt =====
-- examples/http/server/request_parser.hpp: `parse` on input that comes in parts.
use baserver.Base.{◌≡◌, refl, ap, sym, ◌∙◌, ℕ, List, [], ◌∷◌, ◌++◌, ok, fault, ◌>>=◌}
use baserver.Http.{no_request}
use baserver.Http.Parser.Loops.{at}
use baserver.Http.Parser.RoundTrip.{
  Message, IsWellformed, message_onto, request_of, parse-message_onto,
}
use baserver.Http.Parser.{
  started, expecting_newline_3, Tribool, yes, no, indeterminate, Parsing, Step, Parsed, consume,
  proceed, parse,
}

-- The rest of the input, behind a part of it.
abbrev resume : List ℕ → Tribool × (Parsing × List ℕ) → Parsed
resume ys (yes, (q, rest)) = ok (yes, (q, rest ++ ys))
resume ys (no, (q, rest)) = ok (no, (q, rest ++ ys))
resume ys (indeterminate, (q, rest)) = parse ys q

parse-append : (xs ys : List ℕ) (p : Parsing) → parse (xs ++ ys) p ≡ (parse xs p >>= resume ys)
unfolding parse
parse-append [] ys p = refl
parse-append (c ∷ xs) ys p = go (λ q. parse-append xs ys q) (consume c p)
  where
    go :
        ((q : Parsing) → parse (xs ++ ys) q ≡ (parse xs q >>= resume ys))
        → (r : Step)
        → (r >>= proceed (xs ++ ys) (parse (xs ++ ys)))
          ≡ (r >>= proceed xs (parse xs) >>= resume ys)
    go later (fault f) = refl
    go later (ok (yes, q)) = refl
    go later (ok (no, q)) = refl
    go later (ok (indeterminate, q)) = later q

abbrev pub joined : List (List ℕ) → List ℕ
joined [] = []
joined (part ∷ parts) = part ++ joined parts

-- A caller that keeps the parser: it parses the next part as long as the parser asks for more.
unfoldable pub parse_parts : List (List ℕ) → Parsing → Parsed
parse_parts [] p = ok (indeterminate, (p, []))
parse_parts (part ∷ parts) p = parse part p >>= λ (answer, (q, rest)). elim answer [
  | yes ↦ ok (yes, (q, rest ++ joined parts))
  | no ↦ ok (no, (q, rest ++ joined parts))
  | indeterminate ↦ parse_parts parts q
]

parse_parts-joined :
    (parts : List (List ℕ)) (p : Parsing) → parse_parts parts p ≡ parse (joined parts) p
unfolding parse_parts parse
parse_parts-joined [] p = refl
parse_parts-joined (part ∷ parts) p =
    go (λ q. parse_parts-joined parts q) (parse part p) ∙ sym (parse-append part (joined parts) p)
  where
    go :
        ((q : Parsing) → parse_parts parts q ≡ parse (joined parts) q)
        → (r : Parsed)
        → (r >>= λ (answer, (q, rest)). elim answer [
          | yes ↦ ok (yes, (q, rest ++ joined parts))
          | no ↦ ok (no, (q, rest ++ joined parts))
          | indeterminate ↦ parse_parts parts q
        ])
          ≡ (r >>= resume (joined parts))
    go later (fault f) = refl
    go later (ok (yes, (q, rest))) = refl
    go later (ok (no, (q, rest))) = refl
    go later (ok (indeterminate, (q, rest))) = later q

-- However the text of a well-formed request, with what follows it, comes in parts, a caller that keeps
-- the parser between them has the request accepted, up to its last byte.
pub parse_parts-message :
    (parts : List (List ℕ)) (m : Message) (cs : List ℕ)
    → IsWellformed m
    → joined parts ≡ message_onto m cs
    → parse_parts parts (started no_request) ≡ ok (yes, (at expecting_newline_3 (request_of m), cs))
parse_parts-message parts m cs w e =
    parse_parts-joined parts (started no_request)
    ∙ ap (λ t. parse t (started no_request)) e
    ∙ parse-message_onto m cs w
