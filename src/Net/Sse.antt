-- ===== src/Net/Sse.antt =====
-- The event stream: src/net/sse_types.hpp, `sse_connection_impl` of src/net/sse_server.cpp and
-- `parse_line` and `parse_stream` of src/net/sse_client.cpp. How a stream is cut into lines is the
-- business of the HTTP library, and stands here as a parameter.
pub mod RoundTrip
use cpp_essence.Prelude.{
  ℕ, Bool, ◌&&◌, true, false, List, [], ◌∷◌, ◌++◌, Option, none, some, ◌==◌, if◌then◌else◌, length,
  drop, Bytes, codes, starts_with,
}

pub record SseMessage : Type 0 where
  pub data_lines : List Bytes
  pub last_event_id : Bytes

abbrev pub comment_prefix : Bytes
comment_prefix = codes ":"

abbrev pub data_prefix : Bytes
data_prefix = codes "data:"

abbrev pub last_event_id_prefix : Bytes
last_event_id_prefix = codes "id:"

-- `putn_nocopy` and `putc` append to the body of the response.
abbrev put_new_line : Bytes → Bytes
put_new_line body = body ++ b'\n' ∷ []

put_data : Bytes → List Bytes → Bytes
put_data body [] = body
put_data body (item ∷ rest) = put_data (put_new_line (body ++ data_prefix ++ item)) rest

put_empty_data : Bytes → List Bytes → Bytes
put_empty_data body [] = put_new_line (body ++ data_prefix)
put_empty_data body (item ∷ rest) = body

put_last_event_id : Bytes → Bytes → Bytes
put_last_event_id body [] = body
put_last_event_id body (c ∷ id) = put_new_line (body ++ last_event_id_prefix ++ (c ∷ id))

-- `send_message`.
unfoldable pub send_message : Bytes → SseMessage → Bytes
unfolding put_data put_empty_data put_last_event_id
send_message body message = put_new_line (
    put_last_event_id (put_empty_data (put_data body message.data_lines) message.data_lines)
      message.last_event_id)

-- `tick`.
unfoldable pub tick : Bytes → Bytes
tick body = put_new_line (put_new_line (body ++ comment_prefix))

-- `parse_line`: the first prefix that matches is removed, and the rest is taken as it is. (The lambda
-- also trims a copy of the rest, which the caller does not read.)
unfoldable pub parse_line : Bytes → SseMessage → SseMessage
unfolding starts_with
parse_line content message =
    if starts_with content comment_prefix
    then message
    else if starts_with content data_prefix
    then record message {
      data_lines = message.data_lines ++ drop (length data_prefix) content ∷ [];
    }
    else if starts_with content last_event_id_prefix
    then record message { last_event_id = drop (length last_event_id_prefix) content }
    else message

abbrev pub empty_message : SseMessage
empty_message = record { data_lines = []; last_event_id = [] }

-- What the loop of `parse_stream` hands to `on_message`, for the lines that it reads before it is
-- cancelled.
unfoldable pub parse_lines : SseMessage → List Bytes → List SseMessage
parse_lines message [] = []
parse_lines message ([] ∷ rest) = message ∷ parse_lines empty_message rest
parse_lines message ((c ∷ line) ∷ rest) = parse_lines (parse_line (c ∷ line) message) rest

-- What one side does on the connection.
pub data SseEvent : Type 0 where
  sends : SseMessage → SseEvent
  ticks : SseEvent

unfoldable pub serve : Bytes → List SseEvent → Bytes
unfolding send_message tick
serve body [] = body
serve body (sends message ∷ rest) = serve (send_message body message) rest
serve body (ticks ∷ rest) = serve (tick body) rest
