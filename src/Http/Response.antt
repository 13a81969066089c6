-- ===== src/Http/Response.antt =====
-- src/core/http/http_response.h and http_response.cpp, and src/core/http/error.cpp: a response
-- and its text. `date` is what `TimeStamp::getTimeOfDay` returns.
pub mod Framing
use qg_server.Common.{ℕ, Bool, List, [], ◌∷◌, ◌++◌, ◌==◌, if◌then◌else◌, is_empty, length}
use qg_server.Common.Text.{Text, codes, decimal}

pub record HttpResponse : Type 0 where
  pub status : Text
  pub headers : Text
  pub file_name : Text
  pub content : Text

-- HTTPResponse::HTTPResponse()
abbrev pub new_response : HttpResponse
new_response = record { status = []; headers = []; file_name = []; content = [] }

abbrev pub crlf : Text
crlf = 13 ∷ 10 ∷ []

unfoldable pub status_text : ℕ → Text
status_text code =
    if code == 200
    then codes "200 OK"
    else if code == 404
    then codes "404 Not Found"
    else if code == 400
    then codes "400 Bad Request"
    else if code == 405
    then codes "405 Method is not allowed"
    else if code == 413
    then codes "413 Payload Too Large"
    else if code == 505
    then codes "505 Version Not Supported"
    else codes "500 Internal Server Error"

unfoldable pub set_status : ℕ → HttpResponse → HttpResponse
unfolding status_text
set_status code r = record r { status = status_text code }

unfoldable pub set_header : Text → Text → HttpResponse → HttpResponse
set_header field value r = record r {
  headers = (r.headers ++ (field ++ codes ": ")) ++ (value ++ crlf);
}

unfoldable pub set_content : Text → HttpResponse → HttpResponse
set_content content r = record r { content = content }

-- The text that follows the headers.
abbrev pub body_of : HttpResponse → Text
body_of r = if is_empty r.content then r.status else r.content

-- HTTPResponse::toString
unfoldable pub to_string : Text → HttpResponse → Text
to_string date r =
    let content_len = if is_empty r.content then length r.status else length r.content in
    codes "HTTP/1.1 "
    ++ r.status
    ++ crlf
    ++ codes "Server: QG Server (MacOs)"
    ++ crlf
    ++ codes "Date: "
    ++ date
    ++ crlf
    ++ codes "Content-Type: text/html"
    ++ crlf
    ++ codes "Connection: keep-alive"
    ++ crlf
    ++ codes "Content-Length: "
    ++ decimal content_len
    ++ crlf
    ++ r.headers
    ++ crlf
    ++ (if is_empty r.content then r.status else r.content)

unfoldable pub error_status : ℕ → Text
error_status error_code =
    if error_code == 404
    then codes "404 Not Found"
    else if error_code == 400
    then codes "400 Bad Request"
    else if error_code == 413
    then codes "413 Payload Too Large"
    else if error_code == 505
    then codes "505 Version Not Supported"
    else codes "500 Internal Server Error"

-- sendError: the text that it writes to the connection.
unfoldable pub send_error : Text → ℕ → Text
unfolding error_status
send_error date error_code =
    let status = error_status error_code in
    codes "HTTP/1.1 "
    ++ status
    ++ crlf
    ++ codes "Server: Httpd (Ubuntu)"
    ++ crlf
    ++ codes "Date: "
    ++ date
    ++ crlf
    ++ codes "Content-Type: text/html"
    ++ crlf
    ++ codes "Content-Length: "
    ++ decimal (length status)
    ++ crlf
    ++ codes "Connection: keep-alive"
    ++ crlf
    ++ crlf
    ++ status
