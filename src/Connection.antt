-- ===== src/Connection.antt =====
-- Connection (include/Connection.hpp, src/Connection.cpp, src/ConnectionLimits.hpp): the buffers of
-- one socket. What `recv` and `send` return is an argument: the results of the calls in their
-- order, after which the socket has nothing more and reports EAGAIN.
pub mod Outgoing
pub mod Incoming
pub mod Descriptor
use irc_relay_server.Prelude.{
  ℕ, zero, suc, ◌+◌, ◌-◌, ◌%◌, ◌^◌, Bool, true, false, ◌&&◌, ◌||◌, List, [], ◌∷◌, ◌++◌,
  if◌then◌else◌, length, drop, ltb, leb, ◌==◌, not,
}
use irc_relay_server.Text.{Str, text, has_byte, before, after}
use irc_relay_server.Message.{trim_frame, crlf}

-- `a - b` on std::size_t.
abbrev pub sub64 : ℕ → ℕ → ℕ
sub64 a b = (a + 2 ^ 64 - b) % 2 ^ 64

abbrev pub can_append : ℕ → ℕ → ℕ → Bool
can_append pending byte_count limit = leb pending limit && leb byte_count (sub64 limit pending)

-- `errno` after a call that returned -1, with the text of `strerror`.
pub data Errno : Type 0 where
  eintr : Errno
  again : Errno
  other : Str → Errno

pub data Recv : Type 0 where
  received : Str → Recv
  recv_failed : Errno → Recv

pub data Sent : Type 0 where
  sent : ℕ → Sent
  send_failed : Errno → Sent

pub record ReadResult : Type 0 where
  pub lines : List Str
  pub would_block : Bool
  pub peer_closed : Bool
  pub has_error : Bool
  pub error : Str

abbrev pub read_result : ReadResult
read_result = record {
  lines = [];
  would_block = false;
  peer_closed = false;
  has_error = false;
  error = [];
}

pub record WriteResult : Type 0 where
  pub finished : Bool
  pub would_block : Bool
  pub has_error : Bool
  pub error : Str

abbrev pub write_result : WriteResult
write_result = record { finished = true; would_block = false; has_error = false; error = [] }

pub record Connection : Type 0 where
  pub fd : ℕ
  pub peer_address : Str
  pub read_buffer : Str
  pub write_buffer : Str
  pub write_offset : ℕ
  pub max_line_length : ℕ
  pub max_pending_bytes : ℕ
  pub peer_closed : Bool
  pub close_requested : Bool
  pub close_reason : Str

-- The constructor; a limit of 0 stands for the default.
unfoldable pub connection : ℕ → Str → ℕ → ℕ → Connection
connection fd peer_address max_line_length max_pending_bytes = record {
  fd = fd;
  peer_address = peer_address;
  read_buffer = [];
  write_buffer = [];
  write_offset = 0;
  max_line_length = if max_line_length == 0 then 512 else max_line_length;
  max_pending_bytes = if max_pending_bytes == 0 then 1048576 else max_pending_bytes;
  peer_closed = false;
  close_requested = false;
  close_reason = [];
}

unfoldable pub wants_write : Connection → Bool
wants_write c = ltb c.write_offset (length c.write_buffer)

unfoldable pub pending_bytes : Connection → ℕ
pending_bytes c = sub64 (length c.write_buffer) c.write_offset

unfoldable pub request_close : Str → Connection → Connection
request_close reason c = record c { close_requested = true; close_reason = reason }

unfoldable pub strip_cr : Str → Str
strip_cr [] = []
strip_cr (c ∷ []) = if c == 13 then [] else c ∷ []
strip_cr (c ∷ d ∷ s) = c ∷ strip_cr (d ∷ s)

abbrev pub too_long : Str
too_long = text "incoming line exceeds maximum length"

-- Both refusals of `extractLines`.
unfoldable pub refuse_line : Connection → ReadResult → Connection × ReadResult × Bool
refuse_line c r = (
  record (request_close too_long c) { read_buffer = [] },
  record r { has_error = true; error = too_long },
  false,
)

-- `extractLines`, a round for each line.
unfoldable pub extract_from : ℕ → Connection → ReadResult → Connection × ReadResult × Bool
extract_from zero c r = (c, r, true)
extract_from (suc fuel) c r =
    let buffer = c.read_buffer in
    let rest =
      extract_from fuel (record c { read_buffer = after 10 buffer })
        (record r { lines = r.lines ++ strip_cr (before 10 buffer) ∷ [] }) in
    if not (has_byte 10 buffer)
    then (if ltb c.max_line_length (length buffer) then refuse_line c r else (c, r, true))
    else if ltb c.max_line_length (length (before 10 buffer) + 1)
    then refuse_line c r
    else rest

unfoldable pub extract_lines : Connection → ReadResult → Connection × ReadResult × Bool
extract_lines c r = extract_from (suc (length c.read_buffer)) c r

-- The loop of `readAvailable`. A received string of no bytes is the end of the stream.
unfoldable pub read_loop : List Recv → Connection → ReadResult → Connection × ReadResult
read_loop [] c r = (c, record r { would_block = true })
read_loop (received [] ∷ script) c r = (
  request_close (text "peer closed connection") (record c { peer_closed = true }),
  record r { peer_closed = true },
)
read_loop (received (b ∷ bytes) ∷ script) c r =
    let (c', r', more) = extract_lines (record c { read_buffer = c.read_buffer ++ b ∷ bytes }) r in
    let rest = read_loop script c' r' in if more then rest else (c', r')
read_loop (recv_failed eintr ∷ script) c r = read_loop script c r
read_loop (recv_failed again ∷ script) c r = (c, record r { would_block = true })
read_loop (recv_failed (other e) ∷ script) c r =
    let message = text "recv: " ++ e in
    (request_close message c, record r { has_error = true; error = message })

unfoldable pub read_available : List Recv → Connection → Connection × ReadResult
read_available script c = read_loop script c read_result

-- The loop of `flushPending`; a round is made while there is something to send. The second component
-- is what the calls of `send` were handed, `data` of length `size`, one for each call. Where no
-- result is left, the call would block.
unfoldable pub send_loop :
    List Sent → Connection → WriteResult → (Connection × WriteResult) × List Str
send_loop [] c r =
    let bytes = drop c.write_offset c.write_buffer in
    if wants_write c then ((c, record r { would_block = true }), bytes ∷ []) else ((c, r), [])
send_loop (sent count ∷ script) c r =
    let bytes = drop c.write_offset c.write_buffer in
    let size = sub64 (length c.write_buffer) c.write_offset in
    let rest = send_loop script (record c { write_offset = c.write_offset + count }) r in
    let message = text "send returned more bytes than requested" in
    if not (wants_write c)
    then ((c, r), [])
    else if count == 0
    then ((c, record r { would_block = true }), bytes ∷ [])
    else if ltb size count
    then ((request_close message c, record r { has_error = true; error = message }), bytes ∷ [])
    else (rest.0, bytes ∷ rest.1)
send_loop (send_failed eintr ∷ script) c r =
    let bytes = drop c.write_offset c.write_buffer in
    let rest = send_loop script c r in
    if wants_write c then (rest.0, bytes ∷ rest.1) else ((c, r), [])
send_loop (send_failed again ∷ script) c r =
    let bytes = drop c.write_offset c.write_buffer in
    if wants_write c then ((c, record r { would_block = true }), bytes ∷ []) else ((c, r), [])
send_loop (send_failed (other e) ∷ script) c r =
    let bytes = drop c.write_offset c.write_buffer in
    let message = text "send: " ++ e in
    if wants_write c
    then ((request_close message c, record r { has_error = true; error = message }), bytes ∷ [])
    else ((c, r), [])

abbrev pub compaction_limit : ℕ
compaction_limit = 16384

-- Behind the loop: the buffer is emptied, or its sent part is dropped once it is large.
unfoldable pub compact : Connection × WriteResult → Connection × WriteResult
compact (c, r) =
    if not (wants_write c)
    then (record c { write_buffer = []; write_offset = 0 }, record r { finished = true })
    else if ltb compaction_limit c.write_offset
    then (
      record c { write_buffer = drop c.write_offset c.write_buffer; write_offset = 0 },
      record r { finished = false },
    )
    else (c, record r { finished = false })

unfoldable pub flush_pending : List Sent → Connection → (Connection × WriteResult) × List Str
flush_pending script c = let (r, handed) = send_loop script c write_result in (compact r, handed)

abbrev pub queue_limit : Str
queue_limit = text "outbound queue limit exceeded"

unfoldable pub queue_raw : Str → Connection → Connection × Bool
queue_raw bytes c =
    if not (can_append (pending_bytes c) (length bytes) c.max_pending_bytes)
    then (request_close queue_limit c, false)
    else (record c { write_buffer = c.write_buffer ++ bytes }, true)

-- The line ends that the caller wrote are replaced by one CRLF.
unfoldable pub queue_line : Str → Connection → Connection × Bool
queue_line line c =
    let body = trim_frame line in
    let pending = pending_bytes c in
    if not (can_append pending (length body) c.max_pending_bytes)
      || not (can_append ((pending + length body) % 2 ^ 64) 2 c.max_pending_bytes)
    then (request_close queue_limit c, false)
    else (record c { write_buffer = c.write_buffer ++ (body ++ crlf) }, true)
