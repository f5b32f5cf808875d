-- ===== src/Connection/Descriptor.antt =====
-- The operations of a connection keep its descriptor.
use irc_relay_server.Prelude.{ℕ, zero, suc, ◌≡◌, refl, ◌∙◌, List, [], ◌∷◌, ◌++◌, ◌+◌, length, arith}
use irc_relay_server.Text.{Str, before, after}
use irc_relay_server.Connection.{
  Connection, Recv, received, recv_failed, eintr, again, other, ReadResult, WriteResult, strip_cr,
  extract_from, extract_lines, refuse_line, request_close, read_loop, read_available, read_result,
  Sent, sent, send_failed, send_loop, compact, flush_pending, write_result, queue_line,
}

fd-extract_from : (fuel : ℕ) (c : Connection) (r : ReadResult) → (extract_from fuel c r).0.fd ≡ c.fd
unfolding extract_from refuse_line request_close
fd-extract_from zero c r = refl
fd-extract_from (suc fuel) c r = ground (
  arith,
  fd-extract_from fuel (record c { read_buffer = after 10 c.read_buffer })
      (record r { lines = r.lines ++ strip_cr (before 10 c.read_buffer) ∷ [] }),
)

fd-read_loop :
    (script : List Recv) (c : Connection) (r : ReadResult) → (read_loop script c r).0.fd ≡ c.fd
unfolding read_loop extract_lines request_close
fd-read_loop [] c r = refl
fd-read_loop (received [] ∷ script) c r = refl
fd-read_loop (received (b ∷ bytes) ∷ script) c r =
    let longer = record c { read_buffer = c.read_buffer ++ b ∷ bytes } in
    let e = extract_lines longer r in
    ground (
      arith,
      fd-extract_from (suc (length longer.read_buffer)) longer r,
      fd-read_loop script e.0 e.1,
    )
fd-read_loop (recv_failed eintr ∷ script) c r = fd-read_loop script c r
fd-read_loop (recv_failed again ∷ script) c r = refl
fd-read_loop (recv_failed (other e) ∷ script) c r = refl

pub fd-read_available :
    (script : List Recv) (c : Connection) → (read_available script c).0.fd ≡ c.fd
unfolding read_available
fd-read_available script c = fd-read_loop script c read_result

fd-send_loop :
    (script : List Sent) (c : Connection) (r : WriteResult) → (send_loop script c r).0.0.fd ≡ c.fd
unfolding send_loop request_close
fd-send_loop [] c r = ground arith
fd-send_loop (sent count ∷ script) c r =
    ground (arith, fd-send_loop script (record c { write_offset = c.write_offset + count }) r)
fd-send_loop (send_failed eintr ∷ script) c r = ground (arith, fd-send_loop script c r)
fd-send_loop (send_failed again ∷ script) c r = ground arith
fd-send_loop (send_failed (other e) ∷ script) c r = ground arith

fd-compact : (r : Connection × WriteResult) → (compact r).0.fd ≡ r.0.fd
unfolding compact
fd-compact (c, r) = ground arith

pub fd-flush_pending :
    (script : List Sent) (c : Connection) → (flush_pending script c).0.0.fd ≡ c.fd
unfolding flush_pending
fd-flush_pending script c =
    fd-compact (send_loop script c write_result).0 ∙ fd-send_loop script c write_result

pub fd-queue_line : (line : Str) (c : Connection) → (queue_line line c).0.fd ≡ c.fd
unfolding queue_line request_close
fd-queue_line line c = ground arith
