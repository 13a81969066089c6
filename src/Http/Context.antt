-- ===== src/Http/Context.antt =====
-- src/core/http/http_context.h and http_context.cpp: the callbacks that http_parser makes, and
-- `HTTPContext::parse`. The parser stands under src/lib and is another project's library: what it
-- reports for a buffer is the list of its callbacks, the number of bytes it took and whether its
-- error number is HPE_OK, and `parse_url` is its http_parser_parse_url.
pub mod HeaderLines
pub mod UrlParts
use qg_server.Common.{
  ℕ, ◌+◌, ◌≤◌, Bool, true, false, not, ◌&&◌, List, [], ◌∷◌, ◌++◌, Option, none, some, leb, ◌==◌,
  if◌then◌else◌, is_empty, length,
}
use qg_server.Common.Results.{Outcome, done, fault, ◌>>=◌}
use qg_server.Common.Text.{Text, sub_text}
use qg_server.Http.Request.{HttpRequest, Element, nothing, field, value, emplace, new_request}

-- The fields of a parsed URL that the server reads: offset and length, where they are set.
pub record Url : Type 0 where
  pub query : Option (ℕ × ℕ)
  pub fragment : Option (ℕ × ℕ)
  pub path : Option (ℕ × ℕ)

-- The callbacks of the parser, with what they are given.
pub data Event : Type 0 where
  message_begin : Event
  url : ℕ → Text → Event
  header_field : Text → Event
  header_value : Text → Event
  headers_complete : Event
  body : Text → Bool → Event
  message_complete : Event

-- isBodyFinal, with what http_body_is_final returns.
unfoldable pub is_body_final : Bool → HttpRequest → Outcome HttpRequest
is_body_final final r = if r.body_is_final then fault else done (record r { body_is_final = final })

-- `target->append(url, off, len)`, which throws where `off` is past the end.
unfoldable pub append_sub : Text → Text → Option (ℕ × ℕ) → Outcome Text
append_sub target full none = done target
append_sub target full (some (off, len)) =
    if leb off (length full) then done (target ++ sub_text full off len) else fault

-- fillURLSubStr, for the three fields in the order of the loop that calls it.
unfoldable pub fill_url : Url → HttpRequest → Outcome HttpRequest
fill_url u r = do
  query_string ← append_sub r.query_string r.request_url u.query
  fragment ← append_sub r.fragment r.request_url u.fragment
  request_path ← append_sub r.request_path r.request_url u.path
  done (record r { query_string = query_string; fragment = fragment; request_path = request_path })

unfoldable pub header_field_cb : Text → HttpRequest → HttpRequest
header_field_cb buf r = elim r.last_header_element [
  | field ↦ record r { last_field = r.last_field ++ buf; last_header_element = field }
  | other ↦
      let kept =
        if is_empty r.last_field then r.headers else emplace r.last_field r.last_value r.headers in
      record r { headers = kept; last_field = buf; last_value = []; last_header_element = field }
]

unfoldable pub header_value_cb : Text → HttpRequest → HttpRequest
header_value_cb buf r = record r { last_value = r.last_value ++ buf; last_header_element = value }

unfoldable pub body_cb : Text → Bool → HttpRequest → Outcome HttpRequest
unfolding is_body_final
body_cb buf final r = is_body_final final (record r { body = r.body ++ buf })

-- What headerCompleteCallBack and messageCompleteCallBack do to the headers.
unfoldable pub keep_last : HttpRequest → HttpRequest
keep_last r =
    if is_empty r.last_value
    then r
    else record r { headers = emplace r.last_field r.last_value r.headers }

unfoldable pub headers_complete_cb : HttpRequest → HttpRequest
unfolding keep_last
headers_complete_cb r = keep_last r

unfoldable pub message_complete_cb : HttpRequest → HttpRequest
unfolding keep_last
message_complete_cb r = record (keep_last r) { message_is_end = true }

module _ (parse_url : Text → Option Url) where
  unfoldable pub url_cb : ℕ → Text → HttpRequest → Outcome HttpRequest
  url_cb method buf r = do
    let full = r.request_url ++ buf
    elim (parse_url full) [
      | none ↦ fault
      | some u ↦ fill_url u (record r { request_url = full; method = method })
    ]

  unfoldable pub on_event : Event → HttpRequest → Outcome HttpRequest
  unfolding body_cb
  on_event message_begin r = done r
  on_event (url method buf) r = url_cb method buf r
  on_event (header_field buf) r = done (header_field_cb buf r)
  on_event (header_value buf) r = done (header_value_cb buf r)
  on_event headers_complete r = done (headers_complete_cb r)
  on_event (body buf final) r = body_cb buf final r
  on_event message_complete r = done (message_complete_cb r)

  unfoldable pub on_events : List Event → HttpRequest → Outcome HttpRequest
  unfolding on_event
  on_events [] r = done r
  on_events (e ∷ es) r = on_event e r >>= on_events es

  -- HTTPContext::parse: `none` is -1. The callbacks act on the request in either case.
  unfoldable pub parse :
      Text → List Event → ℕ → Bool → HttpRequest → Outcome (HttpRequest × Option ℕ)
  unfolding on_events
  parse data_buf events taken is_ok r = do
    filled ← on_events events r
    done (filled, (if taken == length data_buf && is_ok then some taken else none))

-- HTTPContext::reset
unfoldable pub reset : ℕ → Element → HttpRequest
unfolding new_request
reset method garbage = new_request method garbage
