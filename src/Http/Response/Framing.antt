-- ===== src/Http/Response/Framing.antt =====
-- How a client takes a response apart: lines that end in CR LF up to an empty one, the number in
-- the sixth line, which is `Content-Length`, and the bytes after the empty line.
use mathlib.Core.List.{append_assoc}
use qg_server.Common.{
  ℕ, zero, suc, ◌≡◌, ◌≢◌, refl, ap, sym, ◌∙◌, Bool, true, false, Bool-cases, inl, inr, ◌&&◌, List,
  [], ◌∷◌, ◌++◌, arith, ◌==◌, is_empty, length, drop,
}
use qg_server.Common.Text.{
  Text, codes, decimal, number_of, number_of-decimal, AllDigits, decimal-AllDigits,
}
use qg_server.Http.Response.{HttpResponse, crlf, to_string, body_of, set_header}

-- The text up to the first CR LF, and the text after it.
pub read_line : Text → Text × Text
read_line [] = ([], [])
read_line (c ∷ []) = (c ∷ [], [])
read_line (c ∷ d ∷ t) = elim (c == 13 && d == 10) [
  | true ↦ ([], t)
  | false ↦ (c ∷ (read_line (d ∷ t)).0, (read_line (d ∷ t)).1)
]

-- The text after the first empty line. `fresh` says that a line begins.
unfoldable pub after_blank : Bool → Text → Text
after_blank fresh [] = []
after_blank fresh (c ∷ []) = []
after_blank fresh (c ∷ d ∷ t) = elim (c == 13 && d == 10) [
  | true ↦ elim fresh [ true ↦ t | false ↦ after_blank true t ]
  | false ↦ after_blank false (d ∷ t)
]

pub skip_lines : ℕ → Text → Text
skip_lines zero s = s
skip_lines (suc n) s = skip_lines n (read_line s).1

-- The number in the sixth line, after `Content-Length: `.
pub content_length : Text → ℕ
content_length s = number_of 0 (drop 16 (read_line (skip_lines 5 s)).0)

-- No CR stands in the text.
abbrev pub IsPlain : Text → Type 0
IsPlain [] = Unit {0}
IsPlain (c ∷ s) = (c ≢ 13) × IsPlain s

pub IsPlain-append : (s t : Text) → IsPlain s → IsPlain t → IsPlain (s ++ t)
IsPlain-append [] t h k = k
IsPlain-append (c ∷ s) t h k = (h.0, IsPlain-append s t h.1 k)

AllDigits-IsPlain : (s : Text) → AllDigits s → IsPlain s
AllDigits-IsPlain [] h = tt
AllDigits-IsPlain (c ∷ s) h = (omega arith, AllDigits-IsPlain s h.2)

read_line_end : (l rest : Text) → IsPlain l → read_line (l ++ crlf ++ rest) ≡ (l, rest)
unfolding read_line
read_line_end [] rest h = refl
read_line_end (c ∷ []) rest h = ground arith
read_line_end (c ∷ d ∷ l) rest h = ground (arith, read_line_end (d ∷ l) rest h.1)

after_blank_end :
    (l rest : Text) → IsPlain l → after_blank false (l ++ crlf ++ rest) ≡ after_blank true rest
unfolding after_blank
after_blank_end [] rest h = refl
after_blank_end (c ∷ []) rest h = ground arith
after_blank_end (c ∷ d ∷ l) rest h = ground (arith, after_blank_end (d ∷ l) rest h.1)

after_blank_line :
    (c : ℕ) (l rest : Text)
    → IsPlain (c ∷ l)
    → after_blank true ((c ∷ l) ++ crlf ++ rest) ≡ after_blank true rest
unfolding after_blank
after_blank_line c [] rest h = ground arith
after_blank_line c (d ∷ l) rest h = ground (arith, after_blank_end (d ∷ l) rest h.1)

-- A line that is not empty is passed over.
passes_line :
    (l rest : Text)
    → is_empty l ≡ false
    → IsPlain l
    → after_blank true (l ++ crlf ++ rest) ≡ after_blank true rest
passes_line [] rest e h = cc
passes_line (c ∷ l) rest e h = after_blank_line c l rest h

-- Lines, each with its CR LF, before a text.
abbrev lines_then : List Text → Text → Text
lines_then [] rest = rest
lines_then (l ∷ ls) rest = l ++ crlf ++ lines_then ls rest

abbrev AllLines : List Text → Type 0
AllLines [] = Unit {0}
AllLines (l ∷ ls) = (is_empty l ≡ false) × IsPlain l × AllLines ls

-- The text of the client's headers, in the order in which they were set.
abbrev pub header_lines : List (Text × Text) → List Text
header_lines [] = []
header_lines ((field, value) ∷ fs) = (field ++ codes ": " ++ value) ∷ header_lines fs

abbrev pub AllPlain : List (Text × Text) → Type 0
AllPlain [] = Unit {0}
AllPlain ((field, value) ∷ fs) = IsPlain field × IsPlain value × AllPlain fs

abbrev pub set_headers : List (Text × Text) → HttpResponse → HttpResponse
set_headers [] r = r
set_headers ((field, value) ∷ fs) r = set_headers fs (set_header field value r)

set_headers_text :
    (fs : List (Text × Text)) (r : HttpResponse) (rest : Text)
    → (set_headers fs r).headers ++ rest ≡ r.headers ++ lines_then (header_lines fs) rest
unfolding set_header
set_headers_text [] r rest = refl
set_headers_text ((field, value) ∷ fs) r rest =
    set_headers_text fs (set_header field value r) rest ∙ simp append_assoc

skips_lines :
    (ls : List Text) (rest : Text)
    → AllLines ls
    → after_blank true (lines_then ls (crlf ++ rest)) ≡ rest
unfolding after_blank
skips_lines [] [] h = refl
skips_lines [] (c ∷ rest) h = refl
skips_lines (l ∷ ls) rest (e, p, h) =
    passes_line l (lines_then ls (crlf ++ rest)) e p ∙ skips_lines ls rest h

not_empty : (s t : Text) (c : ℕ) (v : Text) → is_empty ((s ++ c ∷ t) ++ v) ≡ false
not_empty [] t c v = refl
not_empty (b ∷ s) t c v = refl

header_lines-AllLines : (fs : List (Text × Text)) → AllPlain fs → AllLines (header_lines fs)
header_lines-AllLines [] h = tt
header_lines-AllLines ((field, value) ∷ fs) (p, q, h) = (
  not_empty field (32 ∷ []) 58 value,
  IsPlain-append (field ++ codes ": ") value (IsPlain-append field (codes ": ") p (omega arith)) q,
  header_lines-AllLines fs h,
)

abbrev first_lines : Text → HttpResponse → List Text
first_lines date r =
    (codes "HTTP/1.1 " ++ r.status)
    ∷ codes "Server: QG Server (MacOs)"
    ∷ (codes "Date: " ++ date)
    ∷ codes "Content-Type: text/html"
    ∷ codes "Connection: keep-alive"
    ∷ (codes "Content-Length: " ++ decimal (length (body_of r)))
    ∷ []

to_string_lines :
    (date : Text) (r : HttpResponse)
    → to_string date r ≡ lines_then (first_lines date r) (r.headers ++ crlf ++ body_of r)
unfolding to_string
to_string_lines date r = elim (Bool-cases (is_empty r.content)) [
  | inl e ↦ rw e (simp append_assoc)
  | inr e ↦ rw e (simp append_assoc)
]

first_lines-AllLines :
    (date : Text) (r : HttpResponse)
    → IsPlain r.status
    → IsPlain date
    → AllLines (first_lines date r)
first_lines-AllLines date r s d =
    let digits = AllDigits-IsPlain _ (decimal-AllDigits (length (body_of r))) in
    let number : IsPlain (codes "Content-Length: " ++ decimal (length (body_of r))) =
      IsPlain-append (codes "Content-Length: ") _ (omega arith) digits in
    let dated = IsPlain-append (codes "Date: ") date (omega arith) d in
    (
      refl,
      IsPlain-append (codes "HTTP/1.1 ") r.status (omega arith) s,
      (
        refl,
        omega arith,
        (refl, dated, (refl, omega arith, (refl, omega arith, (refl, number, tt)))),
      ),
    )

skip_line :
    (n : ℕ) (l : Text) (ls : List Text) (rest : Text)
    → IsPlain l
    → skip_lines (suc n) (lines_then (l ∷ ls) rest) ≡ skip_lines n (lines_then ls rest)
unfolding skip_lines
skip_line n l ls rest p =
    ap (λ (r : Text × Text). skip_lines n r.1) (read_line_end l (lines_then ls rest) p)

sixth_line :
    (a b c d e f : Text) (ls : List Text) (rest : Text)
    → AllLines (a ∷ b ∷ c ∷ d ∷ e ∷ f ∷ ls)
    → (read_line (skip_lines 5 (lines_then (a ∷ b ∷ c ∷ d ∷ e ∷ f ∷ ls) rest))).0 ≡ f
unfolding skip_lines
sixth_line a b c d e f ls rest (_, p, (_, q, (_, r, (_, s, (_, t, (_, u, h)))))) =
    let skipped =
      skip_line 4 a (b ∷ c ∷ d ∷ e ∷ f ∷ ls) rest p
      ∙ skip_line 3 b (c ∷ d ∷ e ∷ f ∷ ls) rest q
      ∙ skip_line 2 c (d ∷ e ∷ f ∷ ls) rest r
      ∙ skip_line 1 d (e ∷ f ∷ ls) rest s
      ∙ skip_line 0 e (f ∷ ls) rest t in
    ap (λ (x : Text). (read_line x).0) skipped
    ∙ ap (λ (x : Text × Text). x.0) (read_line_end f (lines_then ls rest) u)

length_line :
    (date : Text) (r : HttpResponse) (ls : List Text) (rest : Text)
    → AllLines (first_lines date r ++ ls)
    → (read_line (skip_lines 5 (lines_then (first_lines date r ++ ls) rest))).0
      ≡ codes "Content-Length: " ++ decimal (length (body_of r))
length_line date r ls rest h =
    sixth_line (codes "HTTP/1.1 " ++ r.status) (codes "Server: QG Server (MacOs)")
      (codes "Date: " ++ date) (codes "Content-Type: text/html") (codes "Connection: keep-alive")
      (codes "Content-Length: " ++ decimal (length (body_of r))) ls rest h

lines_then-append :
    (ls ms : List Text) (rest : Text)
    → lines_then (ls ++ ms) rest ≡ lines_then ls (lines_then ms rest)
lines_then-append [] ms rest = refl
lines_then-append (l ∷ ls) ms rest =
    ap (λ (t : Text). l ++ crlf ++ t) (lines_then-append ls ms rest)

AllLines-append : (ls ms : List Text) → AllLines ls → AllLines ms → AllLines (ls ++ ms)
AllLines-append [] ms h k = k
AllLines-append (l ∷ ls) ms (e, p, h) k = (e, p, AllLines-append ls ms h k)

set_headers_rest :
    (fs : List (Text × Text)) (r : HttpResponse)
    → ((set_headers fs r).status ≡ r.status) × ((set_headers fs r).content ≡ r.content)
unfolding set_header
set_headers_rest [] r = (refl, refl)
set_headers_rest ((field, value) ∷ fs) r = set_headers_rest fs (set_header field value r)

-- The text of a response as lines, an empty line and the body.
framed_text :
    (date : Text) (fs : List (Text × Text)) (r : HttpResponse)
    → r.headers ≡ []
    → to_string date (set_headers fs r)
      ≡ lines_then
          (first_lines date (set_headers fs r) ++ header_lines fs)
          (crlf ++ body_of (set_headers fs r))
framed_text date fs r none =
    let w = set_headers fs r in
    let rest = crlf ++ body_of w in
    let tail =
      append_assoc w.headers crlf (body_of w)
      ∙ set_headers_text fs r rest
      ∙ ap (λ (t : Text). t ++ lines_then (header_lines fs) rest) none in
    to_string_lines date w
    ∙ ap (lines_then (first_lines date w)) tail
    ∙ sym (lines_then-append (first_lines date w) (header_lines fs) rest)

pub response_framed :
    (date : Text) (fs : List (Text × Text)) (r : HttpResponse)
    → r.headers ≡ []
    → IsPlain r.status
    → IsPlain date
    → AllPlain fs
    → let text = to_string date (set_headers fs r) in
      (after_blank true text ≡ body_of r) × (content_length text ≡ length (body_of r))
unfolding content_length
response_framed date fs r none s d h =
    let w = set_headers fs r in
    let (status, content) = set_headers_rest fs r in
    let same : body_of w ≡ body_of r = rw (status, content) in
    let plain : IsPlain w.status = rw status s in
    let tops = first_lines-AllLines date w plain d in
    let all =
      AllLines-append (first_lines date w) (header_lines fs) tops (header_lines-AllLines fs h) in
    let whole = framed_text date fs r none in
    (
      rw whole (skips_lines (first_lines date w ++ header_lines fs) (body_of w) all ∙ same),
      ap content_length whole
          ∙ ap (λ (l : Text). number_of 0 (drop 16 l))
              (length_line date w (header_lines fs) (crlf ++ body_of w) all)
          ∙ number_of-decimal (length (body_of w))
          ∙ ap length same,
    )
