-- ===== src/Tests/Buffers.antt =====
-- The buffers of a connection and the numbers of the command line, at small examples.
use irc_relay_server.Prelude.{◌≡◌, refl, ◌≤◌, ◌↔◌, true, false, [], ◌∷◌, ◌++◌, arith, is_empty}
use irc_relay_server.Text.{text, before, after}
use irc_relay_server.Message.{trim_frame, crlf}
use irc_relay_server.Connection.{
  Connection, connection, sent, received, queue_line, flush_pending, send_loop, wants_write,
  compact, extract_lines, extract_from, read_result, read_available, refuse_line, strip_cr,
}
use irc_relay_server.Connection.Outgoing.{unsent, IsBounded, queue_line-append}
use irc_relay_server.Connection.Outgoing.Sending.{taken, wire}
use irc_relay_server.Connection.Outgoing.Flush.{flush_pending-unsent}
use irc_relay_server.Connection.Incoming.{
  IsCut, IsShort, extract_lines-IsCut, read_available-IsShort,
}
use irc_relay_server.RuntimeConfig.{ok, err, parse_port, parse_unsigned_decimal}
use irc_relay_server.RuntimeConfig.Numbers.{
  value_from, all_digits, parse_unsigned_decimal-value, parse_port_iff,
}

-- Six bytes are queued, two of which have been sent; ten may be pending.
abbrev half_sent : Connection
half_sent = record (connection 5 [] 512 10) { write_buffer = text "abcdef"; write_offset = 2 }

half_sent-IsBounded : IsBounded half_sent
unfolding connection text
half_sent-IsBounded = record {
  offset_inside = omega arith;
  offset_small = omega arith;
  pending_small = omega arith;
  limit_fits = omega arith;
}

queue_line-append_example :
    ((queue_line (text "xy") half_sent).1 ≡ true)
    × (unsent (queue_line (text "xy") half_sent).0 ≡ text "cdef" ++ (text "xy" ++ crlf))
    × IsBounded (queue_line (text "xy") half_sent).0
unfolding connection text trim_frame
queue_line-append_example =
    queue_line-append half_sent half_sent-IsBounded (text "xy") (omega arith)

flush_pending-unsent_example :
    (wire (sent 3 ∷ []) (text "cdef" ∷ text "f" ∷ [])
        ++ unsent (flush_pending (sent 3 ∷ []) half_sent).0.0
      ≡ text "cdef")
    × (unsent (flush_pending (sent 3 ∷ []) half_sent).0.0 ≡ text "f")
    × IsBounded (flush_pending (sent 3 ∷ []) half_sent).0.0
unfolding connection text taken flush_pending send_loop wants_write compact
flush_pending-unsent_example =
    flush_pending-unsent (sent 3 ∷ []) half_sent half_sent-IsBounded (omega arith)

-- One line and the beginning of the next have arrived.
abbrev two_lines : Connection
two_lines = record (connection 5 [] 512 10) { read_buffer = text "hi" ++ 13 ∷ 10 ∷ text "wo" }

extract_lines-IsCut_example :
    IsCut 512 (text "hi" ++ 13 ∷ 10 ∷ text "wo") [] (text "wo") (text "hi" ∷ [])
unfolding connection text extract_lines extract_from refuse_line strip_cr before after
extract_lines-IsCut_example = extract_lines-IsCut two_lines read_result refl

read_available-IsShort_example :
    IsShort (read_available (received (text "abc") ∷ []) (connection 5 [] 512 10)).0
unfolding connection text
read_available-IsShort_example =
    read_available-IsShort (received (text "abc") ∷ []) (connection 5 [] 512 10) (omega arith)

parse_unsigned_decimal-value_example :
    parse_unsigned_decimal 256 255 (text "bad") (text "256") ≡ err (text "bad")
unfolding text value_from all_digits
parse_unsigned_decimal-value_example =
    parse_unsigned_decimal-value 256 255 (text "bad") (text "256") (omega arith) (omega arith)

parse_port-iff_example : (parse_port (text "6667") ≡ ok 6667) ↔ (
    (is_empty (text "6667") ≡ false)
    × (all_digits (text "6667") ≡ true)
    × (value_from 0 (text "6667") ≡ 6667)
    × (1 ≤ 6667)
    × (6667 ≤ 65535))
parse_port-iff_example = parse_port_iff (text "6667") 6667
