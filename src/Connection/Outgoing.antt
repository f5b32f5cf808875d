-- ===== src/Connection/Outgoing.antt =====
-- The write buffer: what is queued leaves in its order, whole and once, and the buffer is bounded.
pub mod Sending
pub mod Flush
use irc_relay_server.Prelude.{
  ℕ, zero, suc, ◌+◌, ◌-◌, ◌%◌, ◌^◌, ◌≡◌, refl, sym, ap, ◌∙◌, ◌<◌, ◌≤◌, Bool, true, false, ◌&&◌,
  ◌||◌, List, [], ◌∷◌, ◌++◌, if◌then◌else◌, length, drop, ltb, leb, ◌==◌, not, arith, Bool-cases,
  inl, inr, length-append, leb→le, length-drop, drop-append-le, drop-drop, drop-all,
}
use irc_relay_server.Text.{Str}
use irc_relay_server.Message.{trim_frame, crlf}
use irc_relay_server.Connection.{
  Connection, WriteResult, write_result, Sent, Errno, sent, send_failed, eintr, again, other, sub64,
  can_append, wants_write, pending_bytes, request_close, send_loop, compact, flush_pending,
  queue_raw, queue_line, queue_limit, compaction_limit,
}

-- The bytes that are queued and not sent.
abbrev pub unsent : Connection → Str
unsent c = drop c.write_offset c.write_buffer

-- Between two calls: the offset lies in the buffer, and less is pending than the limit.
pub record IsBounded (c : Connection) : Type 0 where
  pub offset_inside : c.write_offset ≤ length c.write_buffer
  pub offset_small : c.write_offset ≤ compaction_limit
  pub pending_small : length (unsent c) ≤ c.max_pending_bytes
  pub limit_fits : c.max_pending_bytes < 2 ^ 64

-- The comparison by subtraction is the comparison of the sum, which itself could overflow.
pub can_append-sum :
    (pending byte_count limit : ℕ)
    → pending < 2 ^ 64
    → byte_count < 2 ^ 64
    → limit < 2 ^ 64
    → can_append pending byte_count limit ≡ leb (pending + byte_count) limit
can_append-sum pending byte_count limit p b l = ground (arith, p, b, l)

pub pending_bytes-length : (c : Connection) → IsBounded c → pending_bytes c ≡ length (unsent c)
unfolding pending_bytes
pending_bytes-length c h = omega (
  arith,
  h.offset_inside,
  h.pending_small,
  h.limit_fits,
  length-drop c.write_offset c.write_buffer,
)

module _ (c : Connection) (h : IsBounded c) where
  queue_raw-test :
      (bytes : Str)
      → length bytes < 2 ^ 64
      → can_append (pending_bytes c) (length bytes) c.max_pending_bytes
        ≡ leb (length (unsent c) + length bytes) c.max_pending_bytes
  queue_raw-test bytes b = rw (pending_bytes-length c h) (
      can_append-sum (length (unsent c)) (length bytes) c.max_pending_bytes
        (omega (arith, h.pending_small, h.limit_fits)) b h.limit_fits)

  appended :
      (bytes : Str)
      → length (unsent c) + length bytes ≤ c.max_pending_bytes
      → (unsent (record c { write_buffer = c.write_buffer ++ bytes }) ≡ unsent c ++ bytes)
        × IsBounded (record c { write_buffer = c.write_buffer ++ bytes })
  appended bytes b =
      let e = drop-append-le c.write_offset c.write_buffer bytes h.offset_inside in
      (
        e,
        record {
          offset_inside = omega (arith, h.offset_inside, length-append c.write_buffer bytes);
          offset_small = h.offset_small;
          pending_small = rw e (omega (arith, b, length-append (unsent c) bytes));
          limit_fits = h.limit_fits;
        },
      )

  -- A refusal touches neither buffer.
  refused : IsBounded (request_close queue_limit c)
  unfolding request_close
  refused = record {
    offset_inside = h.offset_inside;
    offset_small = h.offset_small;
    pending_small = h.pending_small;
    limit_fits = h.limit_fits;
  }

  -- `queueRaw` accepts the bytes exactly where they fit into the limit with what is pending, and
  -- then puts them behind it, whole; otherwise what is pending stays. The buffer stays bounded.
  pub queue_raw-append :
      (bytes : Str)
      → length bytes < 2 ^ 64
      → ((queue_raw bytes c).1 ≡ leb (length (unsent c) + length bytes) c.max_pending_bytes)
        × (unsent (queue_raw bytes c).0 ≡ (
            if leb (length (unsent c) + length bytes) c.max_pending_bytes
            then unsent c ++ bytes
            else unsent c))
        × IsBounded (queue_raw bytes c).0
  unfolding queue_raw
  queue_raw-append bytes b =
      elim (Bool-cases (leb (length (unsent c) + length bytes) c.max_pending_bytes)) [
        | inl fits ↦
            let a = appended bytes (leb→le _ _ fits) in
            rw (queue_raw-test bytes b, fits) (refl, a.0, a.1)
        | inr over ↦ rw (queue_raw-test bytes b, over) (refl, unfold request_close in refl, refused)
      ]

  -- The two tests of `queueLine`, whose sum cannot overflow behind the first.
  queue_line-test :
      (body : Str)
      → length body < 2 ^ 64
      → (not (can_append (pending_bytes c) (length body) c.max_pending_bytes)
          || not (can_append ((pending_bytes c + length body) % 2 ^ 64) 2 c.max_pending_bytes))
        ≡ not (leb (length (unsent c) + length body + 2) c.max_pending_bytes)
  queue_line-test body b =
      rw (queue_raw-test body b, pending_bytes-length c h)
        (ground (arith, b, h.pending_small, h.limit_fits))

  -- `queueLine` accepts a line exactly where the line, its own line ends dropped, and a CRLF fit into
  -- the limit with what is pending, and then puts both behind it; otherwise what is pending stays.
  -- The buffer stays bounded.
  pub queue_line-append :
      (line : Str)
      → length (trim_frame line) < 2 ^ 64
      → ((queue_line line c).1
          ≡ leb (length (unsent c) + length (trim_frame line) + 2) c.max_pending_bytes)
        × (unsent (queue_line line c).0 ≡ (
            if leb (length (unsent c) + length (trim_frame line) + 2) c.max_pending_bytes
            then unsent c ++ (trim_frame line ++ crlf)
            else unsent c))
        × IsBounded (queue_line line c).0
  unfolding queue_line
  queue_line-append line b =
      let body = trim_frame line in
      elim (Bool-cases (leb (length (unsent c) + length body + 2) c.max_pending_bytes)) [
        | inl fits ↦
            let a =
              appended (body ++ crlf) (omega (arith, leb→le _ _ fits, length-append body crlf)) in
            rw (queue_line-test body b, fits) (refl, a.0, a.1)
        | inr over ↦ rw (queue_line-test body b, over) (refl, unfold request_close in refl, refused)
      ]
