-- ===== src/Http/Server/Bodies.antt =====
-- Two requests with a body in one run of the parser.
use qg_server.Common.{
  ℕ, none, some, leb, Outcome, ◌≡◌, ◌≢◌, ◌⊎◌, refl, sym, ◌∙◌, inl, inr, Bool, Bool-cases, true,
  List, [], ◌∷◌, ◌++◌, Option, arith, length,
}
use qg_server.Common.Results.{done, fault}
use qg_server.Common.Text.{Text, sub_text}
use qg_server.Http.Request.{HttpRequest, field}
use qg_server.Http.Context.{
  Url, Event, body, message_begin, message_complete, headers_complete, on_events, is_body_final,
  body_cb, message_complete_cb, headers_complete_cb, url, url_cb, fill_url, append_sub,
}
use qg_server.Http.Context.HeaderLines.{Line, all_events, with_line, with_lines, lines_fed}

with_lines-final :
    (r : HttpRequest) (ls : List Line) → (with_lines r ls).body_is_final ≡ r.body_is_final
with_lines-final r [] = refl
with_lines-final r (l ∷ ls) = with_lines-final (with_line r l) ls

-- The end of the headers and of a message leave the flags that the next request meets.
ends_keep :
    (r : HttpRequest)
    → ((headers_complete_cb r).body_is_final ≡ r.body_is_final)
      × ((message_complete_cb r).body_is_final ≡ r.body_is_final)
      × ((message_complete_cb r).last_header_element ≡ r.last_header_element)
unfolding headers_complete_cb message_complete_cb
ends_keep r = ground arith

body_cb-final :
    (buf : Text) (final : Bool) (r : HttpRequest)
    → r.body_is_final ≡ true
    → body_cb buf final r ≡ fault
unfolding body_cb is_body_final
body_cb-final buf final r e = rw e

append_sub-cases :
    (target full : Text) (o : Option (ℕ × ℕ))
    → (append_sub target full o ≡ fault) ⊎ ((t : Text) × (append_sub target full o ≡ done t))
unfolding append_sub
append_sub-cases target full none = inr (target, refl)
append_sub-cases target full (some (off, len)) = elim (Bool-cases (leb off (length full))) [
  | inl inside ↦ inr (target ++ sub_text full off len, rw inside refl)
  | inr past ↦ inl (rw past refl)
]

-- The request with the flags that a body looks at as in `r`, or a fault.
abbrev IsKept : HttpRequest → Outcome HttpRequest → Type 0
IsKept r m =
    (m ≡ fault)
    ⊎ ((s : HttpRequest) × (m ≡ done s)
        × (s.body_is_final ≡ r.body_is_final)
        × (s.last_header_element ≡ r.last_header_element))

fill_url-IsKept : (u : Url) (r : HttpRequest) → IsKept r (fill_url u r)
unfolding fill_url
fill_url-IsKept u r = elim (append_sub-cases r.query_string r.request_url u.query) [
  | inl bad ↦ inl (rw bad refl)
  | inr (query, e) ↦ elim (append_sub-cases r.fragment r.request_url u.fragment) [
    | inl bad ↦ inl (rw (e, bad) refl)
    | inr (fragment, f) ↦ elim (append_sub-cases r.request_path r.request_url u.path) [
      | inl bad ↦ inl (rw (e, f, bad) refl)
      | inr (path, g) ↦ inr (
        record r { query_string = query; fragment = fragment; request_path = path },
        rw (e, f, g) refl,
        refl,
        refl,
      )
    ]
  ]
]

module _ (parse_url : Text → Option Url) (method : ℕ) where
  url_cb-IsKept : (t : Text) (r : HttpRequest) → IsKept r (url_cb parse_url method t r)
  unfolding url_cb
  url_cb-IsKept t r = by_parse (parse_url (r.request_url ++ t)) refl
    where
      by_parse :
          (o : Option Url)
          → parse_url (r.request_url ++ t) ≡ o
          → IsKept r (url_cb parse_url method t r)
      by_parse none e = inl (rw (e, url_cb) refl)
      by_parse (some u) e =
          rw (e, url_cb)
            (fill_url-IsKept u (record r { request_url = r.request_url ++ t; method = method }))

module _ (parse_url : Text → Option Url) (method : ℕ) (second : Text) (final : Bool)
    (ls : List Line) (rest : List Event) where
  abbrev lines_and_body : List Event
  lines_and_body = all_events ls ++ headers_complete ∷ body second final ∷ rest

  -- A request that the parser reports with its target in these pieces.
  abbrev pub next_request : List Text → List Event
  next_request [] = lines_and_body
  next_request (t ∷ ts) = url method t ∷ next_request ts

  lines_and_body_abort :
      (r : HttpRequest)
      → r.last_header_element ≢ field
      → r.body_is_final ≡ true
      → on_events parse_url lines_and_body r ≡ fault
  unfolding on_events
  lines_and_body_abort r between e =
      let s = with_lines r ls in
      let kept = (ends_keep s).0 ∙ with_lines-final r ls ∙ e in
      rw (lines_fed parse_url ls (headers_complete ∷ body second final ∷ rest) r (inl between))
        (rw (body_cb-final second final (headers_complete_cb s) kept))

  next_request_aborts :
      (targets : List Text) (r : HttpRequest)
      → r.last_header_element ≢ field
      → r.body_is_final ≡ true
      → on_events parse_url (next_request targets) r ≡ fault
  unfolding on_events
  next_request_aborts [] r between e = lines_and_body_abort r between e
  next_request_aborts (t ∷ ts) r between e = elim (url_cb-IsKept parse_url method t r) [
    | inl bad ↦ rw bad refl
    | inr (s, taken, final_too, element) ↦
        rw taken (next_request_aborts ts s (λ f. between (sym element ∙ f)) (final_too ∙ e))
  ]

  -- A second request with a body, after one whose body is final, in one run of the parser: whatever
  -- the parser reports of its URL, in one piece or more, and of its header lines, the server stops,
  -- at the second body at the latest, if the last header element was not a field's name at the
  -- first.
  pub second_body_aborts :
      (first target : Text) (more : List Text) (r : HttpRequest)
      → r.last_header_element ≢ field
      → on_events parse_url
          (body first true ∷ message_complete ∷ message_begin ∷ next_request (target ∷ more))
          r
        ≡ fault
  unfolding on_events is_body_final body_cb
  second_body_aborts first target more r between = elim (Bool-cases r.body_is_final) [
    | inl e ↦ rw e
    | inr e ↦
        let once = record r { body = r.body ++ first; body_is_final = true } in
        let (_, kept, same) = ends_keep once in
        rw e (
          next_request_aborts (target ∷ more) (message_complete_cb once)
            (λ f. between (sym same ∙ f)) kept)
  ]
