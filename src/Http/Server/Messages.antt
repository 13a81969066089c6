-- ===== src/Http/Server/Messages.antt =====
-- `HTTPServer::handleMessageCome`: what is written for the bytes of one event.
use qg_server.Common.{
  ◌≤◌, ◌≡◌, ◌≢◌, ◌⊎◌, refl, inl, inr, Bool-cases, true, false, List, [], ◌∷◌, ◌++◌, Option, arith,
  ◌==◌, ==_iff, length,
}
use qg_server.Common.Results.{done, fault, Ends, ends}
use qg_server.Common.Text.{Text, codes}
use qg_server.Http.Request.{HttpRequest, Element, new_request}
use qg_server.Http.Context.{Url, on_events, parse, reset}
use qg_server.Http.Response.{to_string}
use qg_server.Http.Response.Framing.{IsPlain, after_blank, content_length}
use qg_server.Http.Server.{File, Action, shutdown, write, Report, handle_message_come}
use qg_server.Http.Server.Pages.{
  page_body, page_of, stops, default_handle_request-page, default_handle_request-fault, page_framed,
}

-- One text is written, and a client that reads it finds this body and its length.
abbrev pub Writes : Text → List Action → Type 0
Writes page actions =
    (text : Text) × (actions ≡ write text ∷ [])
    × (after_blank true text ≡ page)
    × (content_length text ≡ length page)

module _ (parse_url : Text → Option Url) (stat : Text → Option File) (date : Text)
    (garbage : Element) (read_buf : Text) (report : Report) (request : HttpRequest) where
  -- The text that is written for bytes that end a request.
  pub message_answered :
      {filled : HttpRequest}
      → on_events parse_url report.events request ≡ done filled
      → report.taken ≡ length read_buf
      → report.is_ok ≡ true
      → filled.message_is_end ≡ true
      → stops (stat (codes "." ++ filled.request_path)) ≡ false
      → handle_message_come parse_url stat date garbage read_buf report request
        ≡ done (new_request 0 garbage, write (to_string date (page_of stat filled)) ∷ [])
  unfolding handle_message_come parse reset
  message_answered {filled} e all is_ok over readable =
      let whole : (report.taken == length read_buf) ≡ true = (==_iff _ _).1 all in
      rw (e, whole, is_ok, default_handle_request-page stat filled readable, over)

  -- The parser takes the bytes of an event whole, without an error, and its callbacks succeed and
  -- end a request; the date and the path have no CR. Then either the path names a file that is not
  -- too large for the server and that readFile cannot load, as one that cannot be opened, or a
  -- directory whose end is reported at 2^63 - 1, and the server stops, with what the vector of
  -- readFile throws; or it names none, and one text is written, in which a client finds the page
  -- for the path and its length, and the context has a new request.
  pub message_cases :
      {filled : HttpRequest}
      → on_events parse_url report.events request ≡ done filled
      → report.taken ≡ length read_buf
      → report.is_ok ≡ true
      → filled.message_is_end ≡ true
      → IsPlain date
      → IsPlain filled.request_path
      → let found = stat (codes "." ++ filled.request_path) in
        let handled = handle_message_come parse_url stat date garbage read_buf report request in
        ((stops found ≡ true) × (handled ≡ fault))
        ⊎ ((stops found ≡ false)
            × Ends (λ r. (r.0 ≡ new_request 0 garbage) × Writes (page_body found) r.1) handled)
  unfolding handle_message_come parse
  message_cases {filled} e all is_ok over d p =
      elim (Bool-cases (stops (stat (codes "." ++ filled.request_path)))) [
        | inl halts ↦
            let whole : (report.taken == length read_buf) ≡ true = (==_iff _ _).1 all in
            inl (halts, rw (e, whole, is_ok, default_handle_request-fault stat filled halts, over))
        | inr goes_on ↦
            let (framed, size) = page_framed stat date filled d p in
            inr (
              goes_on,
              rw (message_answered e all is_ok over goes_on)
                  (ends (refl, (to_string date (page_of stat filled), refl, framed, size))),
            )
      ]

  -- When the callbacks succeed, bytes that the parser does not take whole, or in which it finds
  -- an error, are answered by a shutdown of the connection alone, and the context keeps what the
  -- callbacks filled in.
  pub message_refused :
      {filled : HttpRequest}
      → on_events parse_url report.events request ≡ done filled
      → (report.taken ≢ length read_buf) ⊎ (report.is_ok ≡ false)
      → handle_message_come parse_url stat date garbage read_buf report request
        ≡ done (filled, shutdown ∷ [])
  unfolding handle_message_come parse
  message_refused e bad = rw e (ground arith)

  -- However many requests the bytes hold, at most one action is taken.
  pub at_most_one_action :
      {r : HttpRequest × List Action}
      → handle_message_come parse_url stat date garbage read_buf report request ≡ done r
      → length r.1 ≤ 1
  unfolding handle_message_come parse
  at_most_one_action e = ground arith
