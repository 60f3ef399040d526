-- ===== src/Http/Parser/Loops.antt =====
-- examples/http/server/request_parser.cpp: the states that read a part of a request.
use mathlib.Core.List.{append_assoc, append-nil}
use baserver.Base.{
  ◌≡◌, refl, sym, ap, ◌∙◌, ℕ, ◌+◌, ◌-◌, ◌*◌, ◌^◌, inl, inr, List, [], ◌∷◌, ◌++◌, ok, Bool, true,
  false, Bool-cases, arith, leb, not, ◌==◌, ◌&&◌, ==→eq,
}
use baserver.Http.{Header, Request}
use baserver.Http.Parser.{
  State, method, uri, http_version_major_start, http_version_major, http_version_minor_start,
  http_version_minor, header_line_start, header_name, header_value, indeterminate, Parsing,
  add_digit, push_major, push_minor, push_back, consume_method, consume_uri, consume_major_start,
  consume_major, consume_minor_start, consume_minor, consume_header_line_start, consume_header_name,
  consume_header_value, consume, parse, is_token, is_char, is_ctl, is_tspecial, is_digit,
  has_headers,
}

-- Every byte passes the test.
abbrev pub all : (ℕ → Bool) → List ℕ → Bool
all test [] = true
all test (c ∷ cs) = test c && all test cs

abbrev pub at : State → Request → Parsing
at s r = record { state = s; request = r }

pub and-left : (a b : Bool) → (a && b) ≡ true → a ≡ true
and-left true b h = refl
and-left false b h = cc

pub and-right : (a b : Bool) → (a && b) ≡ true → b ≡ true
and-right true b h = h
and-right false b h = cc

-- One character that is not the last.
pub parse-more :
    (c : ℕ) (cs : List ℕ) (p q : Parsing)
    → consume c p ≡ ok (indeterminate, q)
    → parse (c ∷ cs) p ≡ parse cs q
unfolding parse
parse-more c cs p q e = rw e refl

token-blank : is_token 32 ≡ false
unfolding is_token is_char is_ctl is_tspecial
token-blank = refl

token-return : is_token 13 ≡ false
unfolding is_token is_char is_ctl is_tspecial
token-return = refl

token-tab : is_token 9 ≡ false
unfolding is_token is_char is_ctl is_tspecial
token-tab = refl

token-colon : is_token 58 ≡ false
unfolding is_token is_char is_ctl is_tspecial
token-colon = refl

text-return : not (is_ctl 13) ≡ false
unfolding is_ctl
text-return = refl

digit-dot : is_digit 46 ≡ false
unfolding is_digit
digit-dot = refl

digit-return : is_digit 13 ≡ false
unfolding is_digit
digit-return = refl

-- A byte that passes a test is none that does not.
passes-ne : (test : ℕ → Bool) (c d : ℕ) → test c ≡ true → test d ≡ false → (c == d) ≡ false
passes-ne test c d h k = elim (Bool-cases (c == d)) [
  | inl e ↦ absurd (clash (sym h ∙ ap test (==→eq c d e) ∙ k))
  | inr e ↦ e
]
  where
    clash : true ≡ false → ⊥
    clash e = cc

abbrev pub is_text : ℕ → Bool
is_text c = not (is_ctl c)

abbrev pub is_uri : ℕ → Bool
is_uri c = not (c == 32) && not (is_ctl c)

consume-method :
    (c : ℕ) (r : Request)
    → is_token c ≡ true
    → (c == 32) ≡ false
    → consume c (at method r)
      ≡ ok (indeterminate, at method (record r { method = r.method ++ c ∷ [] }))
unfolding consume consume_method
consume-method c r h n = rw (n, h) refl

pub method-loop :
    (w cs : List ℕ) (r : Request)
    → all is_token w ≡ true
    → parse (w ++ cs) (at method r) ≡ parse cs (at method (record r { method = r.method ++ w }))
method-loop [] cs r h =
    ap (λ w. parse cs (at method (record r { method = w }))) (sym (append-nil r.method))
method-loop (c ∷ w) cs r h =
    let t = and-left (is_token c) _ h in
    parse-more c (w ++ cs) _ _ (consume-method c r t (passes-ne is_token c 32 t token-blank))
    ∙ method-loop w cs (record r { method = r.method ++ c ∷ [] }) (and-right (is_token c) _ h)
    ∙ ap (λ w. parse cs (at method (record r { method = w }))) (append_assoc r.method (c ∷ []) w)

consume-uri :
    (c : ℕ) (r : Request)
    → is_uri c ≡ true
    → consume c (at uri r) ≡ ok (indeterminate, at uri (record r { uri = r.uri ++ c ∷ [] }))
unfolding consume consume_uri
consume-uri c r h = elim (Bool-cases (c == 32)) [
  | inl e ↦ ground (arith, e, h)
  | inr e ↦ elim (Bool-cases (is_ctl c)) [
    | inl d ↦ ground (arith, e, d, h)
    | inr d ↦ rw (e, d) refl
  ]
]

pub uri-loop :
    (w cs : List ℕ) (r : Request)
    → all is_uri w ≡ true
    → parse (w ++ cs) (at uri r) ≡ parse cs (at uri (record r { uri = r.uri ++ w }))
uri-loop [] cs r h = ap (λ w. parse cs (at uri (record r { uri = w }))) (sym (append-nil r.uri))
uri-loop (c ∷ w) cs r h =
    parse-more c (w ++ cs) _ _ (consume-uri c r (and-left (is_uri c) _ h))
    ∙ uri-loop w cs (record r { uri = r.uri ++ c ∷ [] }) (and-right (is_uri c) _ h)
    ∙ ap (λ w. parse cs (at uri (record r { uri = w }))) (append_assoc r.uri (c ∷ []) w)

-- The number that digits stand for, after those of `v`.
abbrev pub value : ℕ → List ℕ → ℕ
value v [] = v
value v (c ∷ cs) = value (v * 10 + c - 48) cs

-- Digits whose sums stay below `2 ^ 31`.
abbrev pub is_number : ℕ → List ℕ → Bool
is_number v [] = true
is_number v (c ∷ cs) =
    (is_digit c && not (leb (2 ^ 31) (v * 10 + c))) && is_number (v * 10 + c - 48) cs

add_digit-eq :
    (v c : ℕ) → not (leb (2 ^ 31) (v * 10 + c)) ≡ true → add_digit v c ≡ ok (v * 10 + c - 48)
unfolding add_digit
add_digit-eq v c h = elim (Bool-cases (leb (2 ^ 31) (v * 10 + c))) [
  | inl e ↦ ground (arith, e, h)
  | inr e ↦ rw e refl
]

consume-major :
    (c : ℕ) (r : Request)
    → is_digit c ≡ true
    → not (leb (2 ^ 31) (r.http_version_major * 10 + c)) ≡ true
    → consume c (at http_version_major r)
      ≡ ok (
        indeterminate,
        at http_version_major
            (record r { http_version_major = r.http_version_major * 10 + c - 48 }),
      )
unfolding consume consume_major push_major
consume-major c r h n =
    rw (passes-ne is_digit c 46 h digit-dot, h, add_digit-eq r.http_version_major c n) refl

pub consume-major_start :
    (c : ℕ) (r : Request)
    → is_digit c ≡ true
    → not (leb (2 ^ 31) (r.http_version_major * 10 + c)) ≡ true
    → consume c (at http_version_major_start r)
      ≡ ok (
        indeterminate,
        at http_version_major
            (record r { http_version_major = r.http_version_major * 10 + c - 48 }),
      )
unfolding consume consume_major_start push_major
consume-major_start c r h n = rw (h, add_digit-eq r.http_version_major c n) refl

consume-minor :
    (c : ℕ) (r : Request)
    → is_digit c ≡ true
    → not (leb (2 ^ 31) (r.http_version_minor * 10 + c)) ≡ true
    → consume c (at http_version_minor r)
      ≡ ok (
        indeterminate,
        at http_version_minor
            (record r { http_version_minor = r.http_version_minor * 10 + c - 48 }),
      )
unfolding consume consume_minor push_minor
consume-minor c r h n =
    rw (passes-ne is_digit c 13 h digit-return, h, add_digit-eq r.http_version_minor c n) refl

pub consume-minor_start :
    (c : ℕ) (r : Request)
    → is_digit c ≡ true
    → not (leb (2 ^ 31) (r.http_version_minor * 10 + c)) ≡ true
    → consume c (at http_version_minor_start r)
      ≡ ok (
        indeterminate,
        at http_version_minor
            (record r { http_version_minor = r.http_version_minor * 10 + c - 48 }),
      )
unfolding consume consume_minor_start push_minor
consume-minor_start c r h n = rw (h, add_digit-eq r.http_version_minor c n) refl

pub major-loop :
    (w cs : List ℕ) (r : Request)
    → is_number r.http_version_major w ≡ true
    → parse (w ++ cs) (at http_version_major r)
      ≡ parse cs
          (at http_version_major (record r { http_version_major = value r.http_version_major w }))
major-loop [] cs r h = refl
major-loop (c ∷ w) cs r h =
    let k = and-left (is_digit c && not (leb (2 ^ 31) (r.http_version_major * 10 + c))) _ h in
    parse-more c (w ++ cs) _ _
      (consume-major c r (and-left (is_digit c) _ k) (and-right (is_digit c) _ k))
    ∙ major-loop w cs (record r { http_version_major = r.http_version_major * 10 + c - 48 })
        (and-right (is_digit c && not (leb (2 ^ 31) (r.http_version_major * 10 + c))) _ h)

pub minor-loop :
    (w cs : List ℕ) (r : Request)
    → is_number r.http_version_minor w ≡ true
    → parse (w ++ cs) (at http_version_minor r)
      ≡ parse cs
          (at http_version_minor (record r { http_version_minor = value r.http_version_minor w }))
minor-loop [] cs r h = refl
minor-loop (c ∷ w) cs r h =
    let k = and-left (is_digit c && not (leb (2 ^ 31) (r.http_version_minor * 10 + c))) _ h in
    parse-more c (w ++ cs) _ _
      (consume-minor c r (and-left (is_digit c) _ k) (and-right (is_digit c) _ k))
    ∙ minor-loop w cs (record r { http_version_minor = r.http_version_minor * 10 + c - 48 })
        (and-right (is_digit c && not (leb (2 ^ 31) (r.http_version_minor * 10 + c))) _ h)

consume-name :
    (c : ℕ) (r : Request) (h : Header) (hs : List Header)
    → r.headers ≡ h ∷ hs
    → is_token c ≡ true
    → consume c (at header_name r)
      ≡ ok (
        indeterminate,
        at header_name (record r { headers = record h { name = h.name ++ c ∷ [] } ∷ hs }),
      )
unfolding consume consume_header_name push_back
consume-name c r h hs e t = rw (passes-ne is_token c 58 t token-colon, t, e) refl

pub name-loop :
    (w cs : List ℕ) (r : Request) (h : Header) (hs : List Header)
    → r.headers ≡ h ∷ hs
    → all is_token w ≡ true
    → parse (w ++ cs) (at header_name r)
      ≡ parse cs (at header_name (record r { headers = record h { name = h.name ++ w } ∷ hs }))
name-loop [] cs r h hs e t =
    ap (λ l. parse cs (at header_name (record r { headers = l })))
      (e ∙ ap (λ w. record h { name = w } ∷ hs) (sym (append-nil h.name)))
name-loop (c ∷ w) cs r h hs e t =
    parse-more c (w ++ cs) _ _ (consume-name c r h hs e (and-left (is_token c) _ t))
    ∙ name-loop w cs (record r { headers = record h { name = h.name ++ c ∷ [] } ∷ hs })
        (record h { name = h.name ++ c ∷ [] }) hs refl (and-right (is_token c) _ t)
    ∙ ap (λ w. parse cs (at header_name (record r { headers = record h { name = w } ∷ hs })))
        (append_assoc h.name (c ∷ []) w)

consume-value :
    (c : ℕ) (r : Request) (h : Header) (hs : List Header)
    → r.headers ≡ h ∷ hs
    → is_text c ≡ true
    → consume c (at header_value r)
      ≡ ok (
        indeterminate,
        at header_value (record r { headers = record h { value = h.value ++ c ∷ [] } ∷ hs }),
      )
unfolding consume consume_header_value push_back
consume-value c r h hs e t = elim (Bool-cases (is_ctl c)) [
  | inl d ↦ ground (arith, d, t)
  | inr d ↦ rw (passes-ne is_text c 13 t text-return, d, e) refl
]

pub value-loop :
    (w cs : List ℕ) (r : Request) (h : Header) (hs : List Header)
    → r.headers ≡ h ∷ hs
    → all is_text w ≡ true
    → parse (w ++ cs) (at header_value r)
      ≡ parse cs (at header_value (record r { headers = record h { value = h.value ++ w } ∷ hs }))
value-loop [] cs r h hs e t =
    ap (λ l. parse cs (at header_value (record r { headers = l })))
      (e ∙ ap (λ w. record h { value = w } ∷ hs) (sym (append-nil h.value)))
value-loop (c ∷ w) cs r h hs e t =
    parse-more c (w ++ cs) _ _ (consume-value c r h hs e (and-left (is_text c) _ t))
    ∙ value-loop w cs (record r { headers = record h { value = h.value ++ c ∷ [] } ∷ hs })
        (record h { value = h.value ++ c ∷ [] }) hs refl (and-right (is_text c) _ t)
    ∙ ap (λ w. parse cs (at header_value (record r { headers = record h { value = w } ∷ hs })))
        (append_assoc h.value (c ∷ []) w)

pub consume-field_start :
    (c : ℕ) (r : Request)
    → is_token c ≡ true
    → consume c (at header_line_start r)
      ≡ ok (
        indeterminate,
        at header_name (record r { headers = record { name = c ∷ []; value = [] } ∷ r.headers }),
      )
unfolding consume consume_header_line_start
consume-field_start c r h = elim (Bool-cases (has_headers r.headers)) [
  | inl e ↦ rw (not_return, not_blank, not_tab, h, e) refl
  | inr e ↦ rw (not_return, h, e) refl
]
  where
    not_return : (c == 13) ≡ false
    not_return = passes-ne is_token c 13 h token-return

    not_blank : (c == 32) ≡ false
    not_blank = passes-ne is_token c 32 h token-blank

    not_tab : (c == 9) ≡ false
    not_tab = passes-ne is_token c 9 h token-tab
