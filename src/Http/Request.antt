-- ===== src/Http/Request.antt =====
-- src/core/http/http_request.h: a request as the parser's callbacks fill it in, and the map of
-- its headers. The constructor leaves `last_header_element` uninitialised: what it holds then is
-- an argument. `status_code`, `name`, `raw` and `should_keep_alive` are never read.
use qg_server.Common.{ℕ, Bool, false, List, [], ◌∷◌, Option, none, some, if◌then◌else◌}
use qg_server.Common.Text.{Text, text_eq}

pub data Element : Type 0 where
  nothing field value : Element

abbrev pub Headers : Type 0
Headers = List (Text × Text)

unfoldable pub lookup : Text → Headers → Option Text
lookup k [] = none
lookup k ((j, v) ∷ m) = if text_eq j k then some v else lookup k m

-- `std::map::emplace`: an entry that is there stays.
unfoldable pub emplace : Text → Text → Headers → Headers
emplace k v [] = (k, v) ∷ []
emplace k v ((j, w) ∷ m) = if text_eq j k then (j, w) ∷ m else (j, w) ∷ emplace k v m

pub record HttpRequest : Type 0 where
  pub method : ℕ
  pub request_path : Text
  pub request_url : Text
  pub fragment : Text
  pub query_string : Text
  pub body : Text
  pub last_header_element : Element
  pub headers : Headers
  pub last_field : Text
  pub last_value : Text
  pub body_is_final : Bool
  pub message_is_end : Bool

-- HTTPRequest::HTTPRequest()
unfoldable pub new_request : ℕ → Element → HttpRequest
new_request method garbage = record {
  method = method;
  request_path = [];
  request_url = [];
  fragment = [];
  query_string = [];
  body = [];
  last_header_element = garbage;
  headers = [];
  last_field = [];
  last_value = [];
  body_is_final = false;
  message_is_end = false;
}
