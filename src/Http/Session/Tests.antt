-- ===== src/Http/Session/Tests.antt =====
-- A connection on which one request comes.
use qg_server.Common.{
  ℕ, ◌+◌, ltb, fault, ◌≡◌, ◌≤◌, length, refl, true, false, [], ◌∷◌, ◌>>=◌, arith, Ends,
}
use qg_server.Common.Text.{decimal}
use qg_server.ReadWrite.{got, eagain}
use qg_server.Http.Request.{nothing, new_request}
use qg_server.Http.Tests.{path_only, one_file, asked, now, get_line, bytes, get_line_fills}
use qg_server.Http.Session.{Session, Site, open_session, read_event, run_first, write_events}
use qg_server.Http.Session.Sending.{takes_once}
use qg_server.Http.Session.Answered.{
  IsIdle, Exchange, reads, IsRequest, IsFramed, answer, Answered, read_event-Answered,
}
use qg_server.Http.Session.Exchanging.{exchange}
use qg_server.Http.Session.Conversation.{broken, life_answers, second_request_faults}
use qg_server.Http.Response.{to_string, set_header, set_status, status_text, set_content}

-- A parser whose states count the calls.
abbrev site : Site ℕ
site = record {
  init = 0;
  execute = λ t p. (p + 1, get_line);
  should_keep_alive = λ p. ltb 0 p;
  parse_url = path_only;
  stat = one_file;
  date = now;
  garbage = nothing;
}

-- The socket takes 10 bytes, then 20, then 400.
abbrev hello : Exchange
hello = record {
  full = [];
  last = bytes;
  failed = eagain;
  first = 10;
  later = 20 ∷ 400 ∷ [];
  filled = asked;
}

abbrev fresh : Session ℕ
fresh = record {
  connection = record {
    reading = true;
    writing = false;
    disconnected = false;
    read_buf = [];
    write_buf = [];
    has_close_call_back = true;
  };
  request = new_request 0 nothing;
  parser = 0;
  pending = [];
  client = [];
  is_shut = false;
  is_closed = false;
}

fresh-IsIdle : IsIdle fresh
fresh-IsIdle = record {
  read_buf = refl;
  write_buf = refl;
  writing = refl;
  connected = refl;
  pending = refl;
}

hello-IsRequest : IsRequest site 0 (new_request 0 nothing) hello
hello-IsRequest = record {
  call = (tt, omega arith, omega arith);
  fills = get_line_fills;
  all = refl;
  is_ok = refl;
  over = refl;
  goes_on = refl;
  plain = omega arith;
}

read_event-Answered_example : Ends (Answered site hello fresh) (
    read_event site (reads hello) fresh
    >>= run_first site (takes_once 10)
    >>= write_events site (takes_once 20 ∷ takes_once 400 ∷ []))
read_event-Answered_example =
    read_event-Answered site hello fresh (omega arith) fresh-IsIdle hello-IsRequest

hello_enough : length (answer site asked) ≤ 430
unfolding decimal to_string set_header set_status status_text set_content
hello_enough = omega arith

life_answers_example :
    Ends
      (λ r.
        IsFramed site asked
        × (r.client ≡ answer site asked)
        × (r.is_shut ≡ true)
        × (r.is_closed ≡ true)
        × (r.connection.reading ≡ false))
      (open_session site >>= exchange site hello >>= read_event site (got [] ∷ []))
life_answers_example = life_answers site hello (omega arith) hello-IsRequest hello_enough

second_request_faults_example :
    Ends
      (λ r.
        (r.is_shut ≡ true)
        × (r.connection.reading ≡ true)
        × ((read_event site (reads hello) r >>= run_first site broken) ≡ fault))
      (open_session site >>= exchange site hello)
second_request_faults_example =
    second_request_faults site hello (omega arith) hello-IsRequest hello_enough hello refl
      hello-IsRequest
