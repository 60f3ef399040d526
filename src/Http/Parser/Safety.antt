-- ===== src/Http/Parser/Safety.antt =====
-- examples/http/server/request_parser.cpp: what no input makes the parser do.
use baserver.Base.{
  ◌≡◌, refl, ℕ, ◌+◌, ◌-◌, ◌*◌, ◌^◌, ◌<◌, ◌⊎◌, inl, inr, List, [], ◌∷◌, ok, fault, overflow, ◌>>=◌,
  Returns, Bool, true, false, if◌then◌else◌, Bool-cases, arith, leb, not, ◌==◌, ◌&&◌, ◌||◌,
}
use baserver.Http.{Header, Request}
use baserver.Http.Parser.{
  State, method_start, method, uri_start, uri, http_version_h, http_version_t_1, http_version_t_2,
  http_version_p, http_version_slash, http_version_major_start, http_version_major,
  http_version_minor_start, http_version_minor, expecting_newline_1, header_line_start, header_lws,
  header_name, space_before_header_value, header_value, expecting_newline_2, expecting_newline_3,
  Tribool, yes, no, indeterminate, Parsing, Step, goes, refuses, has_headers, add_digit, edit_back,
  push_major, push_minor, push_back, expect, consume_method_start, consume_method,
  consume_uri_start, consume_uri, consume_slash, consume_major_start, consume_major,
  consume_minor_start, consume_minor, consume_header_line_start, consume_header_lws,
  consume_header_name, consume_header_value, consume_end, consume, parse, is_token, is_ctl,
  is_digit, add_to_name, add_to_value,
}

-- The states that use the last header.
abbrev pub needs_header : State → Bool
needs_header header_lws = true
needs_header header_name = true
needs_header space_before_header_value = true
needs_header header_value = true
needs_header expecting_newline_2 = true
needs_header _ = false

-- Such a state has a header, and the versions are values of `int`.
pub record IsValid (p : Parsing) : Type 0 where
  pub header : needs_header p.state ≡ true → has_headers p.request.headers ≡ true
  pub major : p.request.http_version_major < 2 ^ 31
  pub minor : p.request.http_version_minor < 2 ^ 31

-- The run overflows an `int`, or returns a parser that is valid.
abbrev pub Safe : Step → Type 0
Safe r = (r ≡ fault overflow) ⊎ Returns r (λ o. IsValid o.1)

Safe-if : (b : Bool) (x y : Step) → Safe x → Safe y → Safe (if b then x else y)
Safe-if true x y u v = u
Safe-if false x y u v = v

returns : (t : Tribool) (p : Parsing) → IsValid p → Safe (ok (t, p))
returns t p v = inr ((t, p), refl, v)

-- To a state that needs no header, with the versions as they are.
goes-free :
    (s : State) (p : Parsing) (r : Request)
    → IsValid p
    → needs_header s ≡ false
    → r.http_version_major ≡ p.request.http_version_major
    → r.http_version_minor ≡ p.request.http_version_minor
    → Safe (goes s r)
goes-free s p r v n a b = returns indeterminate _ (record {
  header = λ h. cc;
  major = omega (arith, v.major, a);
  minor = omega (arith, v.minor, b);
})

goes-kept :
    (s : State) (p : Parsing)
    → IsValid p
    → has_headers p.request.headers ≡ true
    → Safe (goes s p.request)
goes-kept s p v n =
    returns indeterminate _ (record { header = λ h. n; major = v.major; minor = v.minor })

add_digit-lt :
    (n c : ℕ) → (add_digit n c ≡ fault overflow) ⊎ Returns (add_digit n c) (λ m. m < 2 ^ 31)
unfolding add_digit
add_digit-lt n c = elim (Bool-cases (leb (2 ^ 31) (n * 10 + c))) [
  | inl e ↦ inl (rw e refl)
  | inr e ↦ inr (n * 10 + c - 48, rw e refl, ground (arith, e))
]

push_major-Safe :
    (s : State) (c : ℕ) (p : Parsing) → IsValid p → needs_header s ≡ false → Safe (push_major s c p)
unfolding push_major
push_major-Safe s c p v n = elim (add_digit-lt p.request.http_version_major c) [
  | inl e ↦ inl (rw e refl)
  | inr (m, e, l) ↦
      rw e (returns indeterminate _ (record { header = λ h. cc; major = l; minor = v.minor }))
]

push_minor-Safe :
    (s : State) (c : ℕ) (p : Parsing) → IsValid p → needs_header s ≡ false → Safe (push_minor s c p)
unfolding push_minor
push_minor-Safe s c p v n = elim (add_digit-lt p.request.http_version_minor c) [
  | inl e ↦ inl (rw e refl)
  | inr (m, e, l) ↦
      rw e (returns indeterminate _ (record { header = λ h. cc; major = v.major; minor = l }))
]

push_back-Safe :
    (s : State) (f : Header → Header) (p : Parsing)
    → IsValid p
    → has_headers p.request.headers ≡ true
    → Safe (push_back s f p)
unfolding push_back
push_back-Safe s f p v n = go p.request.headers n
  where
    go :
        (hs : List Header)
        → has_headers hs ≡ true
        → Safe (edit_back f hs >>= λ hs. goes s (record (p.request) { headers = hs }))
    go [] m = cc
    go (h ∷ hs) m =
        returns indeterminate _ (record { header = λ k. refl; major = v.major; minor = v.minor })

expect-free :
    (w : ℕ) (s : State) (c : ℕ) (p : Parsing)
    → IsValid p
    → needs_header s ≡ false
    → Safe (expect w s c p)
unfolding expect
expect-free w s c p v n =
    Safe-if (c == w) _ _ (goes-free s p p.request v n refl refl) (returns no p v)

expect-kept :
    (w : ℕ) (s : State) (c : ℕ) (p : Parsing)
    → IsValid p
    → has_headers p.request.headers ≡ true
    → Safe (expect w s c p)
unfolding expect
expect-kept w s c p v n = Safe-if (c == w) _ _ (goes-kept s p v n) (returns no p v)

start-Safe : (c : ℕ) (p : Parsing) → IsValid p → Safe (consume_method_start c p)
unfolding consume_method_start
start-Safe c p v =
    Safe-if (not (is_token c)) _ _ (returns no p v) (goes-free method p _ v refl refl refl)

method-Safe :
    (c : ℕ) (p : Parsing) → IsValid p → needs_header p.state ≡ false → Safe (consume_method c p)
unfolding consume_method
method-Safe c p v n =
    Safe-if (c == 32) _ _ (goes-free uri p p.request v refl refl refl)
      (Safe-if (not (is_token c)) _ _ (returns no p v) (goes-free p.state p _ v n refl refl))

uri_start-Safe : (c : ℕ) (p : Parsing) → IsValid p → Safe (consume_uri_start c p)
unfolding consume_uri_start
uri_start-Safe c p v = Safe-if (is_ctl c) _ _ (returns no p v) (goes-free uri p _ v refl refl refl)

uri-Safe : (c : ℕ) (p : Parsing) → IsValid p → needs_header p.state ≡ false → Safe (consume_uri c p)
unfolding consume_uri
uri-Safe c p v n =
    Safe-if (c == 32) _ _ (goes-free http_version_h p p.request v refl refl refl)
      (Safe-if (is_ctl c) _ _ (returns no p v) (goes-free p.state p _ v n refl refl))

slash-Safe : (c : ℕ) (p : Parsing) → IsValid p → Safe (consume_slash c p)
unfolding consume_slash
slash-Safe c p v =
    Safe-if (c == 47) _ _
      (returns indeterminate _
        (record { header = λ h. cc; major = omega arith; minor = omega arith }))
      (returns no p v)

major_start-Safe : (c : ℕ) (p : Parsing) → IsValid p → Safe (consume_major_start c p)
unfolding consume_major_start
major_start-Safe c p v =
    Safe-if (is_digit c) _ _ (push_major-Safe http_version_major c p v refl) (returns no p v)

major-Safe :
    (c : ℕ) (p : Parsing) → IsValid p → needs_header p.state ≡ false → Safe (consume_major c p)
unfolding consume_major
major-Safe c p v n =
    Safe-if (c == 46) _ _ (goes-free http_version_minor_start p p.request v refl refl refl)
      (Safe-if (is_digit c) _ _ (push_major-Safe p.state c p v n) (returns no p v))

minor_start-Safe : (c : ℕ) (p : Parsing) → IsValid p → Safe (consume_minor_start c p)
unfolding consume_minor_start
minor_start-Safe c p v =
    Safe-if (is_digit c) _ _ (push_minor-Safe http_version_minor c p v refl) (returns no p v)

minor-Safe :
    (c : ℕ) (p : Parsing) → IsValid p → needs_header p.state ≡ false → Safe (consume_minor c p)
unfolding consume_minor
minor-Safe c p v n =
    Safe-if (c == 13) _ _ (goes-free expecting_newline_1 p p.request v refl refl refl)
      (Safe-if (is_digit c) _ _ (push_minor-Safe p.state c p v n) (returns no p v))

-- The test for a header is what makes the blanks at the start of a line safe.
line_start-Safe : (c : ℕ) (p : Parsing) → IsValid p → Safe (consume_header_line_start c p)
unfolding consume_header_line_start
line_start-Safe c p v =
    Safe-if (c == 13) _ _ (goes-free expecting_newline_3 p p.request v refl refl refl)
      (folded (has_headers p.request.headers) ((c == 32) || (c == 9)) refl)
  where
    named : Safe (
        if not (is_token c)
        then refuses p
        else goes header_name (record (p.request) {
          headers = record { name = c ∷ []; value = [] } ∷ p.request.headers;
        }))
    named =
        Safe-if (not (is_token c)) _ _ (returns no p v) (
          returns indeterminate _ (record { header = λ h. refl; major = v.major; minor = v.minor }))

    folded :
        (b d : Bool)
        → has_headers p.request.headers ≡ b
        → Safe (
            if b && d
            then goes header_lws p.request
            else (if not (is_token c)
                then refuses p
                else goes header_name (record (p.request) {
                  headers = record { name = c ∷ []; value = [] } ∷ p.request.headers;
                })))
    folded true true e = goes-kept header_lws p v e
    folded true false e = named
    folded false d e = named

lws-Safe :
    (c : ℕ) (p : Parsing)
    → IsValid p
    → has_headers p.request.headers ≡ true
    → Safe (consume_header_lws c p)
unfolding consume_header_lws
lws-Safe c p v n = Safe-if (c == 13) _ _ (goes-kept expecting_newline_2 p v n) (
    Safe-if ((c == 32) || (c == 9)) _ _ (goes-kept p.state p v n) (
      Safe-if (is_ctl c) _ _ (returns no p v) (push_back-Safe header_value (add_to_value c) p v n)))

name-Safe :
    (c : ℕ) (p : Parsing)
    → IsValid p
    → has_headers p.request.headers ≡ true
    → Safe (consume_header_name c p)
unfolding consume_header_name
name-Safe c p v n =
    Safe-if (c == 58) _ _ (goes-kept space_before_header_value p v n) (
      Safe-if (not (is_token c)) _ _ (returns no p v)
        (push_back-Safe p.state (add_to_name c) p v n))

value-Safe :
    (c : ℕ) (p : Parsing)
    → IsValid p
    → has_headers p.request.headers ≡ true
    → Safe (consume_header_value c p)
unfolding consume_header_value
value-Safe c p v n =
    Safe-if (c == 13) _ _ (goes-kept expecting_newline_2 p v n)
      (Safe-if (is_ctl c) _ _ (returns no p v) (push_back-Safe p.state (add_to_value c) p v n))

end-Safe : (c : ℕ) (p : Parsing) → IsValid p → Safe (consume_end c p)
unfolding consume_end
end-Safe c p v = Safe-if (c == 10) _ _ (returns yes p v) (returns no p v)

pub consume-Safe : (c : ℕ) (p : Parsing) → IsValid p → Safe (consume c p)
unfolding consume
consume-Safe c p v = go p.state p.request v
  where
    go :
        (s : State) (r : Request)
        → IsValid (record { state = s; request = r })
        → Safe (consume c (record { state = s; request = r }))
    go method_start r v = start-Safe c _ v
    go method r v = method-Safe c _ v refl
    go uri_start r v = uri_start-Safe c _ v
    go uri r v = uri-Safe c _ v refl
    go http_version_h r v = expect-free 72 http_version_t_1 c _ v refl
    go http_version_t_1 r v = expect-free 84 http_version_t_2 c _ v refl
    go http_version_t_2 r v = expect-free 84 http_version_p c _ v refl
    go http_version_p r v = expect-free 80 http_version_slash c _ v refl
    go http_version_slash r v = slash-Safe c _ v
    go http_version_major_start r v = major_start-Safe c _ v
    go http_version_major r v = major-Safe c _ v refl
    go http_version_minor_start r v = minor_start-Safe c _ v
    go http_version_minor r v = minor-Safe c _ v refl
    go expecting_newline_1 r v = expect-free 10 header_line_start c _ v refl
    go header_line_start r v = line_start-Safe c _ v
    go header_lws r v = lws-Safe c _ v (v.header refl)
    go header_name r v = name-Safe c _ v (v.header refl)
    go space_before_header_value r v = expect-kept 32 header_value c _ v (v.header refl)
    go header_value r v = value-Safe c _ v (v.header refl)
    go expecting_newline_2 r v = expect-free 10 header_line_start c _ v refl
    go expecting_newline_3 r v = end-Safe c _ v

-- From a valid parser, such as a new one, every input is parsed without an access to a header that
-- is not there. The run overflows an `int`, or returns a valid parser; and it asks for more only when
-- no input is left.
pub parse-Safe :
    (cs : List ℕ) (p : Parsing)
    → IsValid p
    → (parse cs p ≡ fault overflow)
      ⊎ Returns (parse cs p) (λ o. IsValid o.1.0 × ((o.0 ≡ indeterminate) → o.1.1 ≡ []))
unfolding parse
parse-Safe [] p v = inr (_, refl, (v, λ e. refl))
parse-Safe (c ∷ cs) p v = elim (consume-Safe c p v) [
  | inl e ↦ inl (rw e refl)
  | inr ((yes, q), e, w) ↦ inr ((yes, (q, cs)), rw e refl, (w, λ e. cc))
  | inr ((no, q), e, w) ↦ inr ((no, (q, cs)), rw e refl, (w, λ e. cc))
  | inr ((indeterminate, q), e, w) ↦ rw e (parse-Safe cs q w)
]
