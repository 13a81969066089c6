-- ===== src/Http/Server.antt =====
-- src/core/http/http_server.h and http_server.cpp: what the server does with the bytes of a
-- connection. The parser (`execute`, `parse_url`) and the file system (`stat`, by path: the size of
-- a file, and what `readFile` meets there) are arguments. The router is filled by `route` and read by
-- `handleRequest` alone, which no code calls.
pub mod Pages
pub mod Messages
pub mod Bodies
use qg_server.Common.{
  ℕ, ◌*◌, Bool, true, false, List, [], ◌∷◌, ◌++◌, Option, none, some, ltb, ◌==◌, if◌then◌else◌,
}
use qg_server.Common.Results.{Outcome, done, ◌>>=◌}
use qg_server.Common.Int.{ℤ}
use qg_server.Common.Text.{Text, codes, text_eq}
use qg_server.ReadWrite.{read_file}
use qg_server.Http.Request.{HttpRequest, Element}
use qg_server.Http.Context.{Url, Event, parse, reset}
use qg_server.Http.Response.{
  HttpResponse, new_response, set_status, set_header, set_content, to_string,
}

abbrev pub max_file_size : ℕ
max_file_size = 100 * 1024 * 1024

pub record File : Type 0 where
  pub size : ℕ
  pub end_position : ℤ
  pub contents : Text

-- HTTPServer::defaultHandleRequest
unfoldable pub default_handle_request :
    (Text → Option File) → HttpRequest → HttpResponse → Outcome HttpResponse
default_handle_request stat request response =
    let file_path = codes "." ++ request.request_path in
    let named = set_header (codes "FilePath") file_path response in
    elim (stat file_path) [
      | none ↦ done (set_status 404 named)
      | some file ↦
          if ltb max_file_size file.size
          then done (set_content (codes "file size up to server bound") (set_status 401 named))
          else read_file file.end_position file.contents >>= λ t.
              done (set_content t (set_status 200 named))
    ]

-- The methods of http_parser that the router knows.
pub data Method : Type 0 where
  get put delete post : Method

abbrev pub Route : Type 0
Route = HttpRequest → HttpResponse → HttpResponse

-- router_: the routes of each method.
abbrev pub Router : Type 0
Router = Method → List (Text × Route)

method_eq : Method → Method → Bool
method_eq get get = true
method_eq put put = true
method_eq delete delete = true
method_eq post post = true
method_eq _ _ = false

find_route : Text → List (Text × Route) → Option Route
find_route path [] = none
find_route path ((p, cb) ∷ rs) = if text_eq p path then some cb else find_route path rs

-- `emplace` keeps the route that is there.
add_route : Text → Route → List (Text × Route) → List (Text × Route)
add_route path cb [] = (path, cb) ∷ []
add_route path cb ((p, c) ∷ rs) =
    if text_eq p path then (p, c) ∷ rs else (p, c) ∷ add_route path cb rs

-- HTTPServer::route
pub route : Text → Method → Route → Router → Router
unfolding method_eq add_route
route path method cb router m =
    if method_eq m method then add_route path cb (router m) else router m

-- The codes of http_parser's methods.
method_of : ℕ → Option Method
method_of code =
    if code == 0
    then some delete
    else if code == 1
    then some get
    else if code == 3
    then some post
    else if code == 4
    then some put
    else none

-- HTTPServer::handleRequest
pub handle_request :
    (Text → Option File) → Router → HttpRequest → HttpResponse → Outcome HttpResponse
unfolding method_of find_route
handle_request stat router request response = elim (method_of request.method) [
  | none ↦ done (set_status 405 response)
  | some m ↦ elim (find_route request.request_path (router m)) [
    | some cb ↦ done (cb request response)
    | none ↦ default_handle_request stat request response
  ]
]

-- What a handler does to its connection.
pub data Action : Type 0 where
  shutdown : Action
  write : Text → Action

-- What the parser reports for a buffer: its callbacks, how many bytes it took, and whether its
-- error number is HPE_OK.
pub record Report : Type 0 where
  pub events : List Event
  pub taken : ℕ
  pub is_ok : Bool

-- HTTPServer::handleMessageCome. The request of the context is read before the callbacks act on
-- it; it is replaced after the response. `garbage` is what the new request's
-- `last_header_element` holds.
module _ (parse_url : Text → Option Url) (stat : Text → Option File) (date : Text)
    (garbage : Element) where
  pub handle_message_come : Text → Report → HttpRequest → Outcome (HttpRequest × List Action)
  handle_message_come read_buf report request = do
    (filled, nparse) ← parse parse_url read_buf report.events report.taken report.is_ok request
    elim nparse [
      | none ↦ done (filled, shutdown ∷ [])
      | some n ↦
          if filled.message_is_end
          then (default_handle_request stat filled new_response >>= λ response.
              done (reset 0 garbage, write (to_string date response) ∷ []))
          else done (filled, [])
    ]

-- HTTPServer::handleWriteComplete, with what http_should_keep_alive returns.
unfoldable pub handle_write_complete : Bool → List Action
handle_write_complete should_keep_alive = if should_keep_alive then [] else shutdown ∷ []
