-- ===== src/Http/RequestHandler/Decoding.antt =====
-- examples/http/server/request_handler.cpp: `url_decode` on a text that has been encoded.
use baserver.Base.{ℕ, ◌<◌, ◌==◌, ◌≡◌, refl, ◌∙◌, false, List, [], ◌∷◌, Option, some}
use baserver.Http.RequestHandler.{url_decode, prepend, unplus}

-- A character may stand for itself, or as its two hexadecimal digits; a blank also as `+`.
pub data Form : Type 0 where
  itself : ℕ → Form
  digits : ℕ → Form
  plus : Form

abbrev pub meaning : List Form → List ℕ
meaning [] = []
meaning (itself c ∷ fs) = c ∷ meaning fs
meaning (digits c ∷ fs) = c ∷ meaning fs
meaning (plus ∷ fs) = 32 ∷ meaning fs

-- `high` and `low` are the digits.
abbrev pub encode : (ℕ → ℕ) → (ℕ → ℕ) → List Form → List ℕ
encode high low [] = []
encode high low (itself c ∷ fs) = c ∷ encode high low fs
encode high low (digits c ∷ fs) = b'%' ∷ high c ∷ low c ∷ encode high low fs
encode high low (plus ∷ fs) = b'+' ∷ encode high low fs

-- The characters that may stand for themselves do, and the others are bytes.
abbrev pub AllProper : List Form → Type 0
AllProper [] = Unit {0}
AllProper (itself c ∷ fs) = ((c == b'%') ≡ false) × ((c == b'+') ≡ false) × AllProper fs
AllProper (digits c ∷ fs) = (c < 256) × AllProper fs
AllProper (plus ∷ fs) = AllProper fs

url_decode-plain :
    (read_hex : List ℕ → Option ℕ) (c : ℕ) (cs : List ℕ)
    → (c == b'%') ≡ false
    → url_decode read_hex (c ∷ cs) ≡ prepend (unplus c) (url_decode read_hex cs)
unfolding url_decode
url_decode-plain read_hex c [] e = rw e refl
url_decode-plain read_hex c (d ∷ []) e = rw (e, url_decode) refl
url_decode-plain read_hex c (d ∷ f ∷ rest) e = rw (e, url_decode) refl

-- Where the stream reads a byte from its two digits, every text that has been encoded, in whatever
-- forms, is decoded to what it was.
pub url_decode-encode :
    (read_hex : List ℕ → Option ℕ) (high low : ℕ → ℕ)
    → ((c : ℕ) → c < 256 → read_hex (high c ∷ low c ∷ []) ≡ some c)
    → (fs : List Form) → AllProper fs
    → url_decode read_hex (encode high low fs) ≡ some (meaning fs)
unfolding url_decode
url_decode-encode read_hex high low h [] p = refl
url_decode-encode read_hex high low h (itself c ∷ fs) (e, k, p) =
    url_decode-plain read_hex c (encode high low fs) e
    ∙ rw (k, url_decode-encode read_hex high low h fs p) refl
url_decode-encode read_hex high low h (digits c ∷ fs) (b, p) =
    rw (h c b, url_decode-encode read_hex high low h fs p) refl
url_decode-encode read_hex high low h (plus ∷ fs) p =
    url_decode-plain read_hex b'+' (encode high low fs) refl
    ∙ rw (url_decode-encode read_hex high low h fs p) refl
