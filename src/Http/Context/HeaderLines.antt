-- ===== src/Http/Context/HeaderLines.antt =====
-- The header lines of a request, which the parser may report in pieces of any size: what the
-- callbacks of http_context.cpp make of them.
use qg_server.Common.{
  ℕ, ◌≡◌, ◌≢◌, ◌⊎◌, refl, sym, ap, ◌∙◌, true, false, Bool-cases, inl, inr, List, [], ◌∷◌, ◌++◌, map,
  Option, none, some, arith, is_empty, if◌then◌else◌,
}
use mathlib.Core.List.{append-nil, append_assoc}
use qg_server.Common.Results.{Ends, ends}
use qg_server.Common.Text.{Text, text_eq, text_eq_sound, text_eq_refl}
use qg_server.Http.Request.{
  HttpRequest, Element, field, value, Headers, lookup, emplace, new_request,
}
use qg_server.Http.Context.{
  Event, Url, header_field, header_value, headers_complete, message_complete, header_field_cb,
  header_value_cb, headers_complete_cb, message_complete_cb, on_events,
}

-- A header line in the pieces that the parser reports: at least one of the name and one of the
-- value.
pub record Line : Type 0 where
  pub name_head : Text
  pub name_rest : List Text
  pub value_head : Text
  pub value_rest : List Text

abbrev pub join : List Text → Text
join [] = []
join (t ∷ ts) = t ++ join ts

abbrev pub name_of : Line → Text
name_of l = l.name_head ++ join l.name_rest

abbrev pub value_of : Line → Text
value_of l = l.value_head ++ join l.value_rest

abbrev pub line_events : Line → List Event
line_events l =
    header_field l.name_head ∷ map header_field l.name_rest
    ++ header_value l.value_head ∷ map header_value l.value_rest

abbrev pub all_events : List Line → List Event
all_events [] = []
all_events (l ∷ ls) = line_events l ++ all_events ls

abbrev pub entries : List Line → Headers
entries = map (λ l. (name_of l, value_of l))

-- Every line has a name.
abbrev pub AllNamed : List Line → Type 0
AllNamed [] = Unit {0}
AllNamed (l ∷ ls) = (is_empty (name_of l) ≡ false) × AllNamed ls

-- The map once the line that is being read is counted in.
abbrev pub flush : HttpRequest → Headers
flush r = if is_empty r.last_field then r.headers else emplace r.last_field r.last_value r.headers

abbrev collect : Headers → Headers → Headers
collect m [] = m
collect m ((k, v) ∷ ps) = collect (emplace k v m) ps

-- The request after a line.
abbrev pub with_line : HttpRequest → Line → HttpRequest
with_line r l = record r {
  headers = flush r;
  last_field = name_of l;
  last_value = value_of l;
  last_header_element = value;
}

-- No line is being read, or nothing was read of it.
abbrev pub IsBetween : HttpRequest → Type 0
IsBetween r = (r.last_header_element ≢ field) ⊎ ((r.last_field ≡ []) × (r.last_value ≡ []))

field_starts :
    (buf : Text) (r : HttpRequest)
    → IsBetween r
    → header_field_cb buf r ≡ record r {
      headers = flush r;
      last_field = buf;
      last_value = [];
      last_header_element = field;
    }
unfolding header_field_cb
field_starts buf r h = ground arith

abbrev pub with_lines : HttpRequest → List Line → HttpRequest
with_lines r [] = r
with_lines r (l ∷ ls) = with_lines (with_line r l) ls

module _ (parse_url : Text → Option Url) where
  fields_fed :
      (cs : List Text) (es : List Event) (r : HttpRequest) (f : Text)
      → on_events parse_url
          (map header_field cs ++ es)
          (record r { last_field = f; last_header_element = field })
        ≡ on_events parse_url es
            (record r { last_field = f ++ join cs; last_header_element = field })
  unfolding on_events header_field_cb
  fields_fed [] es r f = rw append-nil
  fields_fed (c ∷ cs) es r f = rw (fields_fed cs es r (f ++ c), append_assoc)

  values_fed :
      (cs : List Text) (es : List Event) (r : HttpRequest) (v : Text)
      → on_events parse_url
          (map header_value cs ++ es)
          (record r { last_value = v; last_header_element = value })
        ≡ on_events parse_url es
            (record r { last_value = v ++ join cs; last_header_element = value })
  unfolding on_events header_value_cb
  values_fed [] es r v = rw append-nil
  values_fed (c ∷ cs) es r v = rw (values_fed cs es r (v ++ c), append_assoc)

  -- A line after another, or the first.
  line_fed :
      (l : Line) (es : List Event) (r : HttpRequest)
      → IsBetween r
      → on_events parse_url (line_events l ++ es) r ≡ on_events parse_url es (with_line r l)
  unfolding on_events header_value_cb
  line_fed l es r h =
      let values = header_value l.value_head ∷ map header_value l.value_rest ++ es in
      let named = record r { headers = flush r; last_value = [] } in
      let valued = record r { headers = flush r; last_field = name_of l } in
      rw (append_assoc, field_starts l.name_head r h)
        (fields_fed l.name_rest values named l.name_head
          ∙ values_fed l.value_rest es valued l.value_head)

  pub lines_fed :
      (ls : List Line) (es : List Event) (r : HttpRequest)
      → IsBetween r
      → on_events parse_url (all_events ls ++ es) r ≡ on_events parse_url es (with_lines r ls)
  lines_fed [] es r h = refl
  lines_fed (l ∷ ls) es r h =
      rw append_assoc
        (line_fed l (all_events ls ++ es) r h ∙ lines_fed ls es (with_line r l) (inl (λ e. cc)))

with_lines-IsBetween :
    (r : HttpRequest) (ls : List Line) → IsBetween r → IsBetween (with_lines r ls)
with_lines-IsBetween r [] h = h
with_lines-IsBetween r (l ∷ ls) h = with_lines-IsBetween (with_line r l) ls (inl (λ e. cc))

flush-with_lines :
    (r : HttpRequest) (ls : List Line)
    → AllNamed ls
    → flush (with_lines r ls) ≡ collect (flush r) (entries ls)
flush-with_lines r [] named = refl
flush-with_lines r (l ∷ ls) named =
    flush-with_lines (with_line r l) ls named.1
    ∙ ap (λ (m : Headers). collect m (entries ls)) (rw named.0)

-- The value of the first entry of a name, in one map or else in another.
abbrev or_else : Option Text → Option Text → Option Text
or_else none o = o
or_else (some v) o = some v

or_else_assoc : (a b c : Option Text) → or_else (or_else a b) c ≡ or_else a (or_else b c)
or_else_assoc none b c = refl
or_else_assoc (some v) b c = refl

lookup-emplace :
    (k j v : Text) (m : Headers)
    → lookup k (emplace j v m) ≡ or_else (lookup k m) (if text_eq j k then some v else none)
unfolding lookup emplace
lookup-emplace k j v [] = ground arith
lookup-emplace k j v ((i, w) ∷ m) =
    ground (arith, text_eq_sound i j, text_eq_sound i k, text_eq_refl i, lookup-emplace k j v m)

lookup-collect :
    (k : Text) (m ps : Headers) → lookup k (collect m ps) ≡ or_else (lookup k m) (lookup k ps)
unfolding lookup
lookup-collect k m [] = ground arith
lookup-collect k m ((j, v) ∷ ps) =
    ground (arith, lookup-collect k (emplace j v m) ps, lookup-emplace k j v m)

lookup-append :
    (k : Text) (ps qs : Headers) → lookup k (ps ++ qs) ≡ or_else (lookup k ps) (lookup k qs)
unfolding lookup
lookup-append k [] qs = refl
lookup-append k ((j, v) ∷ ps) qs = ground (arith, lookup-append k ps qs)

lookup_collected :
    (k : Text) (ps qs : Headers) → lookup k (collect (collect [] ps) qs) ≡ lookup k (ps ++ qs)
unfolding lookup
lookup_collected k ps qs =
    lookup-collect k (collect [] ps) qs
    ∙ ap (λ (o : Option Text). or_else o (lookup k qs)) (lookup-collect k [] ps)
    ∙ sym (lookup-append k ps qs)

emplace_twice : (j v : Text) (m : Headers) → emplace j v (emplace j v m) ≡ emplace j v m
unfolding emplace
emplace_twice j v [] = ground (arith, text_eq_refl j)
emplace_twice j v ((i, w) ∷ m) = ground (arith, emplace_twice j v m)

-- What the end of the headers keeps of the last line.
abbrev pub kept : Line → Headers
kept l = if is_empty (value_of l) then [] else (name_of l, value_of l) ∷ []

-- The request after the last line, the end of the headers and the end of the message.
completed_headers :
    (r : HttpRequest) (l : Line)
    → is_empty (name_of l) ≡ false
    → (message_complete_cb (headers_complete_cb (with_line r l))).headers
      ≡ collect (flush r) (kept l)
unfolding message_complete_cb headers_complete_cb
completed_headers r l named = elim (Bool-cases (is_empty (value_of l))) [
  | inl e ↦ rw (e, e)
  | inr e ↦ rw (e, e) (emplace_twice (name_of l) (value_of l) (flush r))
]

-- The parser reports a request's header lines, in pieces of any size, then the end of the headers
-- and of the message. The call ends. If every line has a name, the value that the map has under a
-- name is that of the first line with this name, whatever `last_header_element` held at first;
-- the last line counts only if its value is not empty.
pub headers_parsed :
    (parse_url : Text → Option Url) (method : ℕ) (garbage : Element) (ls : List Line) (l : Line)
    → AllNamed ls
    → is_empty (name_of l) ≡ false
    → Ends
        (λ r.
          (r.message_is_end ≡ true)
          × ((k : Text) → lookup k r.headers ≡ lookup k (entries ls ++ kept l)))
        (on_events parse_url
          (all_events ls ++ line_events l ++ headers_complete ∷ message_complete ∷ [])
          (new_request method garbage))
unfolding on_events new_request message_complete_cb
headers_parsed parse_url method garbage ls l named last_named =
    let start = new_request method garbage in
    let before = with_lines-IsBetween start ls (inr (refl, refl)) in
    let tail = headers_complete ∷ message_complete ∷ [] in
    rw
      (
        append_assoc,
        lines_fed parse_url ls (line_events l ++ tail) start (inr (refl, refl)),
        line_fed parse_url l tail (with_lines start ls) before,
      )
      (ends (
        refl,
        λ k.
            ap (lookup k) (completed_headers (with_lines start ls) l last_named)
            ∙ ap (λ (m : Headers). lookup k (collect m (kept l))) (flush-with_lines start ls named)
            ∙ lookup_collected k (entries ls) (kept l),
      ))
