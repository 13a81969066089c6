-- ===== src/Http/Tests.antt =====
-- Requests and responses at concrete bytes.
use qg_server.Common.{
  ◌⊎◌, suc, ◌≡◌, ◌≢◌, refl, true, false, [], ◌∷◌, ◌++◌, Option, none, some, arith, length,
}
use qg_server.Common.Results.{done, fault, Ends}
use qg_server.Common.Int.{pos, negsuc}
use qg_server.Common.Text.{Text, codes}
use qg_server.Http.Request.{HttpRequest, nothing, field, lookup, new_request}
use qg_server.Http.Context.{
  Url, url, body, message_begin, message_complete, headers_complete, on_events, url_cb, fill_url,
  append_sub, message_complete_cb, headers_complete_cb,
}
use qg_server.Http.Context.HeaderLines.{
  Line, all_events, line_events, entries, kept, headers_parsed,
}
use qg_server.Http.Context.UrlParts.{part, url_in_pieces}
use qg_server.Http.Response.{HttpResponse}
use qg_server.Http.Server.{File, Report, handle_message_come}
use qg_server.Http.Server.Messages.{Writes, message_cases}
use qg_server.Http.Server.Pages.{stops, page_body}
use qg_server.Http.Server.Bodies.{next_request, second_body_aborts}

abbrev host : Line
host = record {
  name_head = codes "Ho";
  name_rest = codes "st" ∷ [];
  value_head = codes "a";
  value_rest = [];
}

abbrev accept : Line
accept = record {
  name_head = codes "Accept";
  name_rest = [];
  value_head = codes "x";
  value_rest = codes "/y" ∷ [];
}

-- A URL that is a path alone, and none that is empty.
abbrev pub path_only : Text → Option Url
path_only [] = none
path_only (c ∷ t) = some (record { query = none; fragment = none; path = some (0, suc (length t)) })

abbrev a_path : Text
a_path = 47 ∷ 97 ∷ []

headers_parsed_example :
    Ends
      (λ r.
        (r.message_is_end ≡ true)
        × ((k : Text) → lookup k r.headers ≡ lookup k (entries (host ∷ []) ++ kept accept)))
      (on_events path_only
        (all_events (host ∷ []) ++ line_events accept ++ headers_complete ∷ message_complete ∷ [])
        (new_request 1 field))
headers_parsed_example = headers_parsed path_only 1 field (host ∷ []) accept (refl, tt) refl

abbrev path_of_two : Url
path_of_two = record { query = none; fragment = none; path = some (0, 2) }

abbrev path_of_four : Url
path_of_four = record { query = none; fragment = none; path = some (0, 4) }

url_in_pieces_example :
    Ends
      (λ r.
        (r.request_url ≡ a_path ++ a_path)
        × (r.request_path ≡ part a_path (some (0, 2)) ++ part (a_path ++ a_path) (some (0, 4)))
        × (r.request_path ≢ part (a_path ++ a_path) (some (0, 4))))
      (on_events path_only (url 1 a_path ∷ url 1 a_path ∷ []) (new_request 1 nothing))
url_in_pieces_example =
    url_in_pieces path_only 1 nothing a_path a_path {u = path_of_two} {w = path_of_four} refl refl
      (record { query = tt; fragment = tt; path = omega arith })
      (record { query = tt; fragment = tt; path = omega arith }) (omega arith)

abbrev hello : HttpResponse
hello = record { status = codes "200 OK"; headers = []; file_name = []; content = codes "hello" }

abbrev pub one_file : Text → Option File
one_file [] = none
one_file (c ∷ t) = some (record { size = 5; end_position = pos 5; contents = codes "hello" })

abbrev pub asked : HttpRequest
asked = record {
  method = 1;
  request_path = a_path;
  request_url = a_path;
  fragment = [];
  query_string = [];
  body = [];
  last_header_element = nothing;
  headers = [];
  last_field = [];
  last_value = [];
  body_is_final = false;
  message_is_end = true;
}

abbrev pub now : Text
now = codes "now"

abbrev pub get_line : Report
get_line = record {
  events = message_begin ∷ url 1 a_path ∷ headers_complete ∷ message_complete ∷ [];
  taken = 3;
  is_ok = true;
}

abbrev garbled : Report
garbled = record { events = message_begin ∷ []; taken = 1; is_ok = false }

abbrev pub bytes : Text
bytes = codes "GET"

pub get_line_fills : on_events path_only get_line.events (new_request 0 nothing) ≡ done asked
unfolding on_events url_cb fill_url append_sub new_request message_complete_cb headers_complete_cb
get_line_fills = refl

-- A file that the server may not open.
abbrev closed_file : Text → Option File
closed_file t = some (record { size = 5; end_position = negsuc 0; contents = [] })

message_cases_example :
    let found = closed_file (codes "." ++ asked.request_path) in
    let handled =
      handle_message_come path_only closed_file now field bytes get_line (new_request 0 nothing) in
    ((stops found ≡ true) × (handled ≡ fault))
    ⊎ ((stops found ≡ false)
        × Ends (λ r. (r.0 ≡ new_request 0 field) × Writes (page_body found) r.1) handled)
message_cases_example =
    message_cases path_only closed_file now field bytes get_line (new_request 0 nothing)
      get_line_fills refl refl refl (omega arith) (omega arith)

garbled_fills :
    on_events path_only garbled.events (new_request 0 nothing) ≡ done (new_request 0 nothing)
unfolding on_events
garbled_fills = refl

second_body_aborts_example :
    on_events path_only
      (body (codes "a") true
        ∷ message_complete
        ∷ message_begin
        ∷ next_request path_only 3 (codes "b") true (host ∷ []) [] (a_path ∷ []))
      (new_request 3 nothing)
    ≡ fault
unfolding new_request
second_body_aborts_example =
    second_body_aborts path_only 3 (codes "b") true (host ∷ []) [] (codes "a") a_path []
      (new_request 3 nothing) (λ (e : nothing ≡ field). cc)
