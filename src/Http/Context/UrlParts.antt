-- ===== src/Http/Context/UrlParts.antt =====
-- The URL of a request, which the parser may report in pieces: `urlCallBack` parses what it has so
-- far at every piece, and appends the parts to those of the pieces before.
use qg_server.Common.{
  ℕ, ◌+◌, ◌≤◌, ◌≡◌, ◌≢◌, ◌<◌, refl, ap, length-append, [], ◌∷◌, ◌++◌, Option, none, some, arith,
  length,
}
use mathlib.Core.List.{append-nil}
use qg_server.Common.Results.{done, fault, Ends, ends}
use qg_server.Common.Text.{Text, sub_text}
use qg_server.Http.Request.{HttpRequest, Element, new_request}
use qg_server.Http.Context.{Url, url, append_sub, fill_url, url_cb, on_events}

-- A part that http_parser_parse_url reports lies within the URL.
abbrev pub IsWithin : Text → Option (ℕ × ℕ) → Type 0
IsWithin full none = Unit {0}
IsWithin full (some (off, len)) = off + len ≤ length full

abbrev pub part : Text → Option (ℕ × ℕ) → Text
part full none = []
part full (some (off, len)) = sub_text full off len

pub record FitsIn (full : Text) (u : Url) : Type 0 where
  pub query : IsWithin full u.query
  pub fragment : IsWithin full u.fragment
  pub path : IsWithin full u.path

append_sub-done :
    (target full : Text) (o : Option (ℕ × ℕ))
    → IsWithin full o
    → append_sub target full o ≡ done (target ++ part full o)
unfolding append_sub
append_sub-done target full none h = rw append-nil
append_sub-done target full (some (off, len)) h = ground arith

-- One piece of a URL, after others.
abbrev pub with_url : HttpRequest → ℕ → Text → Url → HttpRequest
with_url r method full u = record r {
  method = method;
  request_url = full;
  query_string = r.query_string ++ part full u.query;
  fragment = r.fragment ++ part full u.fragment;
  request_path = r.request_path ++ part full u.path;
}

fill_url-done :
    (u : Url) (r : HttpRequest)
    → FitsIn r.request_url u
    → fill_url u r ≡ done (with_url r r.method r.request_url u)
unfolding fill_url
fill_url-done u r h = rw (
  append_sub-done r.query_string r.request_url u.query h.query,
  append_sub-done r.fragment r.request_url u.fragment h.fragment,
  append_sub-done r.request_path r.request_url u.path h.path,
)

module _ (parse_url : Text → Option Url) where
  -- A piece of a URL that parses, with the pieces before it, is appended, and each of the three
  -- parts of the URL read so far is appended to what was there.
  pub url_cb_appends :
      (method : ℕ) (buf : Text) (r : HttpRequest) {u : Url}
      → parse_url (r.request_url ++ buf) ≡ some u
      → FitsIn (r.request_url ++ buf) u
      → url_cb parse_url method buf r ≡ done (with_url r method (r.request_url ++ buf) u)
  unfolding url_cb
  url_cb_appends method buf r {u} e h =
      rw (e, url_cb)
        (fill_url-done u (record r { request_url = r.request_url ++ buf; method = method }) h)

  -- The first piece that does not parse, with those before it, stops the server.
  pub url_cb_aborts :
      (method : ℕ) (buf : Text) (r : HttpRequest)
      → parse_url (r.request_url ++ buf) ≡ none
      → url_cb parse_url method buf r ≡ fault
  unfolding url_cb
  url_cb_aborts method buf r e = rw (e, url_cb)

  -- A URL that is reported whole and parses, with parts that lie within it, fills in its parts.
  pub url_whole :
      (method : ℕ) (garbage : Element) (buf : Text) {u : Url}
      → parse_url buf ≡ some u
      → FitsIn buf u
      → Ends
          (λ r.
            (r.request_url ≡ buf)
            × (r.query_string ≡ part buf u.query)
            × (r.fragment ≡ part buf u.fragment)
            × (r.request_path ≡ part buf u.path))
          (on_events parse_url (url method buf ∷ []) (new_request method garbage))
  unfolding on_events new_request
  url_whole method garbage buf e h =
      rw (url_cb_appends method buf (new_request method garbage) e h)
        (ends (refl, refl, refl, refl))

  -- A URL that is reported in two pieces, where the first and the whole parse with parts that
  -- lie within them, and the first has a path that is not empty, fills in another path than that
  -- of the URL: the path of the first piece stands before it.
  pub url_in_pieces :
      (method : ℕ) (garbage : Element) (first second : Text) {u w : Url}
      → parse_url first ≡ some u
      → parse_url (first ++ second) ≡ some w
      → FitsIn first u
      → FitsIn (first ++ second) w
      → 0 < length (part first u.path)
      → Ends
          (λ r.
            (r.request_url ≡ first ++ second)
            × (r.request_path ≡ part first u.path ++ part (first ++ second) w.path)
            × (r.request_path ≢ part (first ++ second) w.path))
          (on_events parse_url
            (url method first ∷ url method second ∷ [])
            (new_request method garbage))
  unfolding on_events new_request
  url_in_pieces method garbage first second {u} {w} e f h k long =
      let start = new_request method garbage in
      rw
        (
          url_cb_appends method first start e h,
          url_cb_appends method second (with_url start method first u) f k,
        )
        (ends (
          refl,
          refl,
          λ same.
              let size = length-append (part first u.path) (part (first ++ second) w.path) in
              omega (arith, size, ap length same),
        ))
