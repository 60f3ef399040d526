-- ===== src/Http/RequestHandler/Confinement.antt =====
-- examples/http/server/request_handler.cpp: the files that an answer depends on.
use baserver.Base.{
  ℕ, ◌==◌, ◌≡◌, refl, ap, sym, ◌∙◌, Bool, true, false, not, ◌&&◌, ◌||◌, Bool-cases, inl, inr, List,
  [], ◌∷◌, ◌++◌, Option, none, some, arith,
}
use baserver.Http.{Request}
use baserver.Http.Reply.{Reply, bytes}
use baserver.Http.RequestHandler.{
  Environment, url_decode, has_dots, is_absolute, ends_in_slash, with_index, fill_out, serve,
  is_refused, answer_path, handle_request, c_str,
}

-- An absolute path without "..".
pub record Confined (path : List ℕ) : Type 0 where
  pub absolute : is_absolute path ≡ true
  pub no_dots : has_dots path ≡ false

has_dots-append :
    (c : ℕ) (xs ys : List ℕ)
    → (c == b'.') ≡ false
    → has_dots xs ≡ false
    → has_dots (c ∷ ys) ≡ false
    → has_dots (xs ++ c ∷ ys) ≡ false
unfolding has_dots
has_dots-append c [] ys e h k = k
has_dots-append c (a ∷ []) ys e h k = ground (arith, e, k)
has_dots-append c (a ∷ b ∷ xs) ys e h k = ground (
  arith,
  h,
  has_dots-append c (b ∷ xs) ys e (tail (a == b'.') (b == b'.') (has_dots (b ∷ xs)) h) k,
)
  where
    tail : (p q r : Bool) → ((p && q) || r) ≡ false → r ≡ false
    tail p q false t = refl
    tail p q true t = ground arith

is_absolute-append : (xs ys : List ℕ) → is_absolute xs ≡ true → is_absolute (xs ++ ys) ≡ true
is_absolute-append [] ys h = cc
is_absolute-append (a ∷ xs) ys h = h

not_refused : (path : List ℕ) → is_refused path ≡ false → Confined path
unfolding is_refused
not_refused path h = record {
  absolute = first (is_absolute path) (has_dots path) h;
  no_dots = second (is_absolute path) (has_dots path) h;
}
  where
    first : (p q : Bool) → (not p || q) ≡ false → p ≡ true
    first true q t = refl
    first false q t = cc

    second : (p q : Bool) → (not p || q) ≡ false → q ≡ false
    second true q t = t
    second false q t = cc

with_index-Confined : (path : List ℕ) → Confined path → Confined (with_index path)
unfolding with_index has_dots
with_index-Confined path v = elim (Bool-cases (ends_in_slash path)) [
  | inl e ↦ rw e (record {
    absolute = is_absolute-append path (bytes "index.html") v.absolute;
    no_dots = has_dots-append b'i' path (bytes "ndex.html") refl v.no_dots refl;
  })
  | inr e ↦ rw e v
]

answer_path-refused :
    (v : Environment) (doc_root path : List ℕ) (r : Reply)
    → is_refused path ≡ true
    → answer_path v doc_root (some path) r ≡ answer_path v doc_root none r
unfolding answer_path
answer_path-refused v doc_root path r e = rw e refl

answer_path-served :
    (v : Environment) (doc_root path : List ℕ) (r : Reply)
    → is_refused path ≡ false
    → answer_path v doc_root (some path) r ≡ serve v doc_root (with_index path) r
unfolding answer_path
answer_path-served v doc_root path r e = rw e refl

-- The environment but for its files.
abbrev with_files : (List ℕ → Option (List ℕ)) → Environment → Environment
with_files files v = record v { open_file = files }

answer_none :
    (v : Environment) (files : List ℕ → Option (List ℕ)) (doc_root : List ℕ) (r : Reply)
    → answer_path v doc_root none r ≡ answer_path (with_files files v) doc_root none r
unfolding answer_path
answer_none v files doc_root r = refl

serve-same :
    (v : Environment) (files : List ℕ → Option (List ℕ)) (doc_root path : List ℕ) (r : Reply)
    → v.open_file (c_str (doc_root ++ path)) ≡ files (c_str (doc_root ++ path))
    → serve v doc_root path r ≡ serve (with_files files v) doc_root path r
unfolding serve fill_out
serve-same v files doc_root path r e =
    ap (λ o. fill_out v o path r) e ∙ by_file (files (c_str (doc_root ++ path)))
  where
    by_file : (o : Option (List ℕ)) → fill_out v o path r ≡ fill_out (with_files files v) o path r
    by_file none = refl
    by_file (some file) = refl

-- The answer to a request depends on no file but those whose names are the root's followed by an
-- absolute path without "..", as `c_str` cuts them off.
pub handle_request-Confined :
    (v : Environment) (other_files : List ℕ → Option (List ℕ)) (doc_root : List ℕ) (req : Request)
    (r : Reply)
    → ((path : List ℕ)
        → Confined path
        → v.open_file (c_str (doc_root ++ path)) ≡ other_files (c_str (doc_root ++ path)))
    → handle_request v doc_root req r
      ≡ handle_request (record v { open_file = other_files }) doc_root req r
unfolding handle_request
handle_request-Confined v other_files doc_root req r same = decoded (url_decode v.read_hex req.uri)
  where
    w : Environment
    w = with_files other_files v

    decoded : (o : Option (List ℕ)) → answer_path v doc_root o r ≡ answer_path w doc_root o r
    decoded none = answer_none v other_files doc_root r
    decoded (some path) = elim (Bool-cases (is_refused path)) [
      | inl e ↦
          answer_path-refused v doc_root path r e
          ∙ answer_none v other_files doc_root r
          ∙ sym (answer_path-refused w doc_root path r e)
      | inr e ↦
          answer_path-served v doc_root path r e
          ∙ serve-same v other_files doc_root (with_index path) r
              (same (with_index path) (with_index-Confined path (not_refused path e)))
          ∙ sym (answer_path-served w doc_root path r e)
    ]
