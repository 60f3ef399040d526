-- ===== src/Http/RequestHandler.antt =====
-- examples/http/server/request_handler.cpp and mime_types.cpp: the answer to a request. The file system,
-- the stream that reads two hexadecimal digits and `boost::lexical_cast` are parameters.
pub mod Decoding
pub mod Confinement
use baserver.Base.{
  ℕ, zero, suc, ◌==◌, ltb, if◌then◌else◌, Bool, true, false, not, ◌&&◌, ◌||◌, List, [], ◌∷◌, ◌++◌,
  length, drop, Option, none, some,
}
use baserver.Http.{Request}
use baserver.Http.Reply.{Reply, bytes, ok, bad_request, not_found, two_headers, stock_reply}

abbrev pub prepend : ℕ → Option (List ℕ) → Option (List ℕ)
prepend c none = none
prepend c (some s) = some (c ∷ s)

-- The character that stands for itself, or `+` for a blank.
abbrev pub unplus : ℕ → ℕ
unplus c = if c == b'+' then 32 else c

-- What the stream has read from the two characters, as a `char`.
abbrev pub escaped : Option ℕ → Option (List ℕ) → Option (List ℕ)
escaped none rest = none
escaped (some v) rest = prepend v rest

unfoldable pub url_decode : (List ℕ → Option ℕ) → List ℕ → Option (List ℕ)
url_decode read_hex [] = some []
url_decode read_hex (c ∷ []) = if c == b'%' then none else some (unplus c ∷ [])
url_decode read_hex (c ∷ d ∷ []) = elim (c == b'%') [
  | true ↦ none
  | false ↦ prepend (unplus c) (url_decode read_hex (d ∷ []))
]
url_decode read_hex (c ∷ d ∷ e ∷ rest) = elim (c == b'%') [
  | true ↦ escaped (read_hex (d ∷ e ∷ [])) (url_decode read_hex rest)
  | false ↦ prepend (unplus c) (url_decode read_hex (d ∷ e ∷ rest))
]

-- `find("..") != npos`.
unfoldable pub has_dots : List ℕ → Bool
has_dots [] = false
has_dots (a ∷ []) = false
has_dots (a ∷ b ∷ s) = ((a == b'.') && (b == b'.')) || has_dots (b ∷ s)

abbrev pub is_absolute : List ℕ → Bool
is_absolute [] = false
is_absolute (a ∷ s) = a == b'/'

abbrev pub ends_in_slash : List ℕ → Bool
ends_in_slash [] = false
ends_in_slash (a ∷ []) = a == b'/'
ends_in_slash (a ∷ b ∷ s) = ends_in_slash (b ∷ s)

-- `find_last_of` a character.
unfoldable pub last_of : ℕ → List ℕ → Option ℕ
last_of c [] = none
last_of c (a ∷ s) = elim (last_of c s) [
  | some n ↦ some (suc n)
  | none ↦ if a == c then some 0 else none
]

-- The part after the last dot, if that is behind the last slash. Without a slash, its position is the
-- greatest number.
unfoldable pub extension_of : List ℕ → List ℕ
extension_of path = elim (last_of b'.' path) [
  | none ↦ []
  | some dot ↦ elim (last_of b'/' path) [
    | none ↦ []
    | some slash ↦ if ltb slash dot then drop (suc dot) path else []
  ]
]

unfoldable pub same : List ℕ → List ℕ → Bool
same [] [] = true
same (a ∷ s) (b ∷ t) = (a == b) && same s t
same _ _ = false

-- `mime_types::extension_to_type`.
unfoldable pub extension_to_type : List ℕ → List ℕ
extension_to_type e =
    if same (bytes "gif") e
    then bytes "image/gif"
    else if same (bytes "htm") e
    then bytes "text/html"
    else if same (bytes "html") e
    then bytes "text/html"
    else if same (bytes "jpg") e
    then bytes "image/jpeg"
    else if same (bytes "png") e
    then bytes "image/png"
    else bytes "text/plain"

-- `c_str()` ends at the first zero.
abbrev pub c_str : List ℕ → List ℕ
c_str [] = []
c_str (a ∷ s) = if a == 0 then [] else a ∷ c_str s

-- What the code relies on that is not its own: the contents of the file of a name, if it can be opened,
-- the reader of two hexadecimal digits, and the printer of sizes.
pub record Environment : Type 0 where
  pub open_file : List ℕ → Option (List ℕ)
  pub read_hex : List ℕ → Option ℕ
  pub print : ℕ → List ℕ

unfoldable pub with_index : List ℕ → List ℕ
with_index path = if ends_in_slash path then path ++ bytes "index.html" else path

-- The end of `handle_request`, from the file on. The loop reads the file to its end.
unfoldable pub fill_out : Environment → Option (List ℕ) → List ℕ → Reply → Reply
fill_out v none path r = stock_reply v.print not_found
fill_out v (some file) path r = record {
  status = ok;
  content = r.content ++ file;
  headers =
      two_headers (v.print (length (r.content ++ file))) (extension_to_type (extension_of path));
}

unfoldable pub serve : Environment → List ℕ → List ℕ → Reply → Reply
serve v doc_root path r = fill_out v (v.open_file (c_str (doc_root ++ path))) path r

-- The tests of the decoded path.
unfoldable pub is_refused : List ℕ → Bool
is_refused path = not (is_absolute path) || has_dots path

unfoldable pub answer_path : Environment → List ℕ → Option (List ℕ) → Reply → Reply
answer_path v doc_root none r = stock_reply v.print bad_request
answer_path v doc_root (some path) r =
    if is_refused path
    then stock_reply v.print bad_request
    else serve v doc_root (with_index path) r

unfoldable pub handle_request : Environment → List ℕ → Request → Reply → Reply
handle_request v doc_root req r = answer_path v doc_root (url_decode v.read_hex req.uri) r
