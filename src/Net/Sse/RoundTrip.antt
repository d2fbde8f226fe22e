-- ===== src/Net/Sse/RoundTrip.antt =====
-- What the client is handed for what the server sent.
use cpp_essence.Prelude.{
  ◌≡◌, refl, sym, ap, ◌∙◌, false, ◌||◌, List, [], ◌∷◌, ◌++◌, map, ◌==◌, Bytes, All, All-append,
  append_assoc, append-nil,
}
use cpp_essence.Net.Sse.{
  SseMessage, SseEvent, sends, ticks, comment_prefix, data_prefix, last_event_id_prefix, put_data,
  put_empty_data, put_last_event_id, send_message, tick, parse_line, empty_message, parse_lines,
  serve,
}

-- No character that ends a line.
abbrev pub IsLine : Bytes → Type 0
IsLine = All (λ c. (c == b'\n' || c == b'\r') ≡ false)

-- What is relied on of the library's `read_line`: a line ends at its line feed.
pub record LineReader : Type 0 where
  pub read_lines : Bytes → List Bytes
  pub read_nothing : read_lines [] ≡ []
  pub read_line :
      (line rest : Bytes) → IsLine line → read_lines (line ++ b'\n' ∷ rest) ≡ line ∷ read_lines rest

-- No blank in front. (The client's code speaks of trimming those; whether it does is left open.)
abbrev pub StartsPlain : Bytes → Type 0
StartsPlain [] = Unit {0}
StartsPlain (c ∷ rest) = (c == b' ' || c == b'\t') ≡ false

pub record IsSendable (message : SseMessage) : Type 0 where
  pub data_is : All IsLine message.data_lines
  pub data_plain : All StartsPlain message.data_lines
  pub id_is : IsLine message.last_event_id
  pub id_plain : StartsPlain message.last_event_id

abbrev pub AreSendable : List SseEvent → Type 0
AreSendable [] = Unit {0}
AreSendable (sends message ∷ rest) = IsSendable message × AreSendable rest
AreSendable (ticks ∷ rest) = AreSendable rest

-- A message without data arrives with one empty line of data, and a tick as an empty message.
abbrev pub or_empty_line : List Bytes → List Bytes
or_empty_line [] = [] ∷ []
or_empty_line (item ∷ rest) = item ∷ rest

abbrev pub received : SseEvent → SseMessage
received (sends message) = record message { data_lines = or_empty_line message.data_lines }
received ticks = empty_message

-- The lines of an event.
abbrev data_lines_of : List Bytes → List Bytes
data_lines_of = map (λ item. data_prefix ++ item)

abbrev id_lines_of : Bytes → List Bytes
id_lines_of [] = []
id_lines_of (c ∷ id) = (last_event_id_prefix ++ (c ∷ id)) ∷ []

abbrev lines_of : SseEvent → List Bytes
lines_of (sends message) =
    data_lines_of (or_empty_line message.data_lines)
    ++ (id_lines_of message.last_event_id ++ [] ∷ [])
lines_of ticks = comment_prefix ∷ [] ∷ []

-- Lines with their ends.
abbrev terminated : List Bytes → Bytes
terminated [] = []
terminated (line ∷ rest) = line ++ (b'\n' ∷ terminated rest)

terminated-append : (xs ys : List Bytes) → terminated (xs ++ ys) ≡ terminated xs ++ terminated ys
terminated-append [] ys = refl
terminated-append (x ∷ xs) ys = rw (terminated-append xs ys) (sym (append_assoc x _ _))

put_data-terminated :
    (body : Bytes) (items : List Bytes)
    → put_data body items ≡ body ++ terminated (data_lines_of items)
unfolding put_data
put_data-terminated body [] = sym (append-nil body)
put_data-terminated body (item ∷ rest) = put_data-terminated _ rest ∙ simp append_assoc

put_last_event_id-terminated :
    (body id : Bytes) → put_last_event_id body id ≡ body ++ terminated (id_lines_of id)
unfolding put_last_event_id
put_last_event_id-terminated body [] = sym (append-nil body)
put_last_event_id-terminated body (c ∷ id) = simp append_assoc

put_empty_data-terminated :
    (body : Bytes) (items : List Bytes)
    → put_empty_data (put_data body items) items
      ≡ body ++ terminated (data_lines_of (or_empty_line items))
unfolding put_empty_data
put_empty_data-terminated body [] = unfold put_data in append_assoc body data_prefix (b'\n' ∷ [])
put_empty_data-terminated body (item ∷ rest) = put_data-terminated body (item ∷ rest)

send_message-terminated :
    (body : Bytes) (message : SseMessage)
    → send_message body message ≡ body ++ terminated (lines_of (sends message))
unfolding send_message
send_message-terminated body message =
    rw
      (
        put_last_event_id-terminated,
        put_empty_data-terminated,
        terminated-append (data_lines_of (or_empty_line message.data_lines)),
        terminated-append (id_lines_of message.last_event_id),
      )
      (simp append_assoc)

tick-terminated : (body : Bytes) → tick body ≡ body ++ terminated (lines_of ticks)
unfolding tick
tick-terminated body = simp append_assoc

abbrev all_lines : List SseEvent → List Bytes
all_lines [] = []
all_lines (e ∷ rest) = lines_of e ++ all_lines rest

serve-terminated :
    (events : List SseEvent) (body : Bytes)
    → serve body events ≡ body ++ terminated (all_lines events)
unfolding serve
serve-terminated [] body = sym (append-nil body)
serve-terminated (sends message ∷ rest) body =
    serve-terminated rest (send_message body message)
    ∙ rw (send_message-terminated, terminated-append (lines_of (sends message)))
        (append_assoc body _ _)
serve-terminated (ticks ∷ rest) body =
    serve-terminated rest (tick body)
    ∙ rw (tick-terminated, terminated-append (lines_of ticks)) (append_assoc body _ _)

data_lines_of-IsLine : (items : List Bytes) → All IsLine items → All IsLine (data_lines_of items)
data_lines_of-IsLine [] h = tt
data_lines_of-IsLine (item ∷ rest) (h, k) =
    ((refl, (refl, (refl, (refl, (refl, h))))), data_lines_of-IsLine rest k)

or_empty_line-IsLine : (items : List Bytes) → All IsLine items → All IsLine (or_empty_line items)
or_empty_line-IsLine [] h = (tt, tt)
or_empty_line-IsLine (item ∷ rest) h = h

id_lines_of-IsLine : (id : Bytes) → IsLine id → All IsLine (id_lines_of id)
id_lines_of-IsLine [] h = tt
id_lines_of-IsLine (c ∷ id) h = ((refl, (refl, (refl, h))), tt)

all_lines-IsLine : (events : List SseEvent) → AreSendable events → All IsLine (all_lines events)
all_lines-IsLine [] h = tt
all_lines-IsLine (sends message ∷ rest) (v, h) =
    All-append IsLine (lines_of (sends message)) (all_lines rest)
      (All-append IsLine (data_lines_of (or_empty_line message.data_lines)) _
        (data_lines_of-IsLine (or_empty_line message.data_lines)
          (or_empty_line-IsLine message.data_lines v.data_is))
        (All-append IsLine (id_lines_of message.last_event_id) ([] ∷ [])
          (id_lines_of-IsLine message.last_event_id v.id_is) (tt, tt)))
      (all_lines-IsLine rest h)
all_lines-IsLine (ticks ∷ rest) h = ((refl, tt), (tt, all_lines-IsLine rest h))

parse_data_lines :
    (items : List Bytes) (m : SseMessage) (rest : List Bytes)
    → parse_lines m (data_lines_of items ++ rest)
      ≡ parse_lines (record m { data_lines = m.data_lines ++ items }) rest
unfolding parse_lines parse_line
parse_data_lines [] m rest = rw append-nil refl
parse_data_lines (item ∷ items) m rest = parse_data_lines items _ rest ∙ rw append_assoc refl

parse_id_lines :
    (id : Bytes) (m : SseMessage) (rest : List Bytes)
    → m.last_event_id ≡ []
    → parse_lines m (id_lines_of id ++ rest) ≡ parse_lines (record m { last_event_id = id }) rest
unfolding parse_lines parse_line
parse_id_lines [] m rest e = ap (λ x. parse_lines (record m { last_event_id = x }) rest) e
parse_id_lines (c ∷ id) m rest e = refl

parse_all_lines :
    (events : List SseEvent) → parse_lines empty_message (all_lines events) ≡ map received events
unfolding parse_lines parse_line
parse_all_lines [] = refl
parse_all_lines (sends message ∷ rest) = simp append_assoc (
    parse_data_lines (or_empty_line message.data_lines) empty_message _
    ∙ parse_id_lines message.last_event_id _ _ refl
    ∙ ap (◌∷◌ (received (sends message))) (parse_all_lines rest))
parse_all_lines (ticks ∷ rest) = ap (◌∷◌ empty_message) (parse_all_lines rest)

module _ (reader : LineReader) where
  open reader use {read_lines, read_nothing, read_line}

  read_terminated : (lines : List Bytes) → All IsLine lines → read_lines (terminated lines) ≡ lines
  read_terminated [] h = read_nothing
  read_terminated (line ∷ rest) (h, k) =
      read_line line (terminated rest) h ∙ ap (◌∷◌ line) (read_terminated rest k)

  -- Whatever messages the server sends, whose data and ids have no line breaks and do not start with
  -- a blank, and however often it keeps the connection alive in between, the client is handed the same messages in the same order, an empty
  -- message for each keep-alive, and one empty line of data for a message that has none.
  pub parse-serve :
      (events : List SseEvent)
      → AreSendable events
      → parse_lines empty_message (read_lines (serve [] events)) ≡ map received events
  parse-serve events h =
      ap (λ body. parse_lines empty_message (read_lines body)) (serve-terminated events [])
      ∙ ap (parse_lines empty_message)
          (read_terminated (all_lines events) (all_lines-IsLine events h))
      ∙ parse_all_lines events
