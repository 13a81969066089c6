-- ===== src/Http/Server/Pages.antt =====
-- `HTTPServer::defaultHandleRequest`: the page for a path.
use qg_server.Common.{
  Bool, take, replicate, ◌≡◌, ◌-◌, ◌^◌, false, leb, done, fault, refl, ap, ◌∙◌, true, Bool-cases,
  inl, inr, List, [], ◌∷◌, ◌++◌, Option, none, some, arith, ltb, if◌then◌else◌, is_empty, length,
}
use qg_server.Common.Text.{Text, codes}
use qg_server.Http.Request.{HttpRequest}
use qg_server.Http.Response.{
  HttpResponse, new_response, set_status, set_header, set_content, to_string, body_of,
}
use qg_server.Http.Response.Framing.{
  IsPlain, IsPlain-append, set_headers, after_blank, content_length, response_framed,
}
use qg_server.Http.Server.{File, max_file_size, default_handle_request}
use qg_server.ReadWrite.{read_file}
use qg_server.Common.Int.{ℤ, pos, negsuc}

-- An end of a file that readFile cannot make a vector for: the -1 of a file that was not opened, or
-- 2^63 - 1, as for a directory.
abbrev pub is_unloadable : ℤ → Bool
is_unloadable (negsuc n) = true
is_unloadable (pos n) = leb (2 ^ 63 - 1) n

-- The bytes up to the end that was reported, with zeros for those that are missing.
abbrev pub load : ℤ → Text → Text
load (negsuc n) contents = []
load (pos n) contents = take n contents ++ replicate (n - length contents) 0

-- Whether a request for what `stat` finds stops the server.
abbrev pub stops : Option File → Bool
stops none = false
stops (some file) = if ltb max_file_size file.size then false else is_unloadable file.end_position

-- The body of the page for what `stat` finds. The body of an empty file is the status.
abbrev pub page_body : Option File → Text
page_body none = codes "404 Not Found"
page_body (some file) =
    if ltb max_file_size file.size
    then codes "file size up to server bound"
    else if is_empty (load file.end_position file.contents)
    then codes "200 OK"
    else load file.end_position file.contents

-- The same response with its one header taken apart.
abbrev bare_page : Option File → HttpResponse
bare_page none = record new_response { status = codes "404 Not Found" }
bare_page (some file) =
    if ltb max_file_size file.size
    then record new_response {
      status = codes "500 Internal Server Error";
      content = codes "file size up to server bound";
    }
    else record new_response {
      status = codes "200 OK";
      content = load file.end_position file.contents;
    }

abbrev page_headers : Text → List (Text × Text)
page_headers path = (codes "FilePath", codes "." ++ path) ∷ []

-- The response for a path, where there is one.
abbrev pub page_of : (Text → Option File) → HttpRequest → HttpResponse
page_of stat request =
    set_headers (page_headers request.request_path)
      (bare_page (stat (codes "." ++ request.request_path)))

read_file-load :
    (end_position : ℤ) (contents : Text)
    → is_unloadable end_position ≡ false
    → read_file end_position contents ≡ done (load end_position contents)
unfolding read_file
read_file-load (negsuc n) contents h = cc
read_file-load (pos n) contents h = rw h refl

read_file-unloadable :
    (end_position : ℤ) (contents : Text)
    → is_unloadable end_position ≡ true
    → read_file end_position contents ≡ fault
unfolding read_file
read_file-unloadable (negsuc n) contents h = refl
read_file-unloadable (pos n) contents h = rw h refl

module _ (stat : Text → Option File) (request : HttpRequest) where
  pub default_handle_request-page :
      stops (stat (codes "." ++ request.request_path)) ≡ false
      → default_handle_request stat request new_response ≡ done (page_of stat request)
  unfolding default_handle_request set_header set_status set_content
  default_handle_request-page = by_file (stat (codes "." ++ request.request_path)) refl
    where
      by_file :
          (o : Option File)
          → stat (codes "." ++ request.request_path) ≡ o
          → stops o ≡ false
          → default_handle_request stat request new_response
            ≡ done (set_headers (page_headers request.request_path) (bare_page o))
      by_file none e goes_on = rw (e, default_handle_request)
      by_file (some file) e goes_on = elim (Bool-cases (ltb max_file_size file.size)) [
        | inl big ↦ rw (e, default_handle_request) (rw big)
        | inr fits ↦
            let loads = read_file-load file.end_position file.contents (rw fits at goes_on) in
            rw (e, default_handle_request) (rw (fits, loads))
      ]

  pub default_handle_request-fault :
      stops (stat (codes "." ++ request.request_path)) ≡ true
      → default_handle_request stat request new_response ≡ fault
  unfolding default_handle_request
  default_handle_request-fault = by_file (stat (codes "." ++ request.request_path)) refl
    where
      by_file :
          (o : Option File)
          → stat (codes "." ++ request.request_path) ≡ o
          → stops o ≡ true
          → default_handle_request stat request new_response ≡ fault
      by_file none e halts = cc
      by_file (some file) e halts = elim (Bool-cases (ltb max_file_size file.size)) [
        | inl big ↦ absurd (ground (arith, big, halts))
        | inr fits ↦
            let fails = read_file-unloadable file.end_position file.contents (rw fits at halts) in
            rw (e, default_handle_request) (rw (fits, fails))
      ]

bare_page-body : (o : Option File) → body_of (bare_page o) ≡ page_body o
bare_page-body none = refl
bare_page-body (some file) = elim (Bool-cases (ltb max_file_size file.size)) [
  | inl big ↦ rw big
  | inr fits ↦ rw fits
]

bare_page-IsPlain : (o : Option File) → (bare_page o).headers ≡ [] × IsPlain (bare_page o).status
bare_page-IsPlain none = (refl, omega arith)
bare_page-IsPlain (some file) = elim (Bool-cases (ltb max_file_size file.size)) [
  | inl big ↦ rw big (refl, omega arith)
  | inr fits ↦ rw fits (refl, omega arith)
]

-- The client that reads the page for a path, with no CR in the path and the date, finds the body
-- that belongs to what `stat` finds under the path after a dot, and its length in the header:
-- the bytes that readFile loads, a notice where the file is too large, and the status where there is no
-- file or the file is empty.
pub page_framed :
    (stat : Text → Option File) (date : Text) (request : HttpRequest)
    → IsPlain date
    → IsPlain request.request_path
    → let text = to_string date (page_of stat request) in
      let body = page_body (stat (codes "." ++ request.request_path)) in
      (after_blank true text ≡ body) × (content_length text ≡ length body)
page_framed stat date request d p =
    let found = stat (codes "." ++ request.request_path) in
    let (none_set, plain) = bare_page-IsPlain found in
    let framed =
      response_framed date (page_headers request.request_path) (bare_page found) none_set plain d
        (omega arith, IsPlain-append (codes ".") request.request_path (omega arith) p, tt) in
    let same = bare_page-body found in (framed.0 ∙ same, framed.1 ∙ ap length same)
