-- ===== src/Connection/Outgoing/Flush.antt =====
-- `flushPending`: what the socket takes, and what stays.
use irc_relay_server.Prelude.{
  ◌-◌, ◌^◌, ◌≡◌, refl, sym, ◌∙◌, ◌<◌, ◌≤◌, List, length, drop, ltb, ◌++◌, arith, Bool-cases, inl,
  inr, length-drop, drop-drop, drop-all,
}
use irc_relay_server.Text.{Str}
use irc_relay_server.Connection.{
  Connection, WriteResult, write_result, Sent, wants_write, send_loop, compact, flush_pending,
  compaction_limit,
}
use irc_relay_server.Connection.Outgoing.{unsent, IsBounded}
use irc_relay_server.Connection.Outgoing.Sending.{taken, taken-le, wire, IsSent, send_loop-IsSent}

-- The loop's result may have any offset; what follows it drops no pending byte.
compact-unsent :
    (d : Connection) (r : WriteResult)
    → d.write_offset ≤ length d.write_buffer
    → length (unsent d) ≤ d.max_pending_bytes
    → d.max_pending_bytes < 2 ^ 64
    → (unsent (compact (d, r)).0 ≡ unsent d) × IsBounded (compact (d, r)).0
unfolding compact wants_write
compact-unsent d r i p l = elim (Bool-cases (ltb d.write_offset (length d.write_buffer))) [
  | inr f ↦
      let none_left = drop-all d.write_offset d.write_buffer (ground (arith, f)) in
      rw f (
        sym none_left,
        record {
          offset_inside = omega arith;
          offset_small = omega arith;
          pending_small = omega arith;
          limit_fits = l;
        },
      )
  | inl t ↦ elim (Bool-cases (ltb compaction_limit d.write_offset)) [
    | inl large ↦
        rw (t, large)
          (
            refl,
            record {
              offset_inside = omega arith;
              offset_small = omega arith;
              pending_small = p;
              limit_fits = l;
            },
          )
    | inr small ↦
        rw (t, small)
          (
            refl,
            record {
              offset_inside = i;
              offset_small = ground (arith, small);
              pending_small = p;
              limit_fits = l;
            },
          )
  ]
]

module _ (script : List Sent) (c : Connection) where
  sent-unsent :
      (r : (Connection × WriteResult) × List Str)
      → c.write_offset ≤ length c.write_buffer
      → IsSent script c r
      → (r.0.0.write_offset ≤ length r.0.0.write_buffer)
        × (unsent r.0.0 ≡ drop (taken script (length (unsent c))) (unsent c))
  sent-unsent r i s =
      let n = taken script (length c.write_buffer - c.write_offset) in
      (
        rw (s.same_buffer, s.moved)
            (omega (arith, i, taken-le script (length c.write_buffer - c.write_offset))),
        rw (s.same_buffer, s.moved, length-drop c.write_offset c.write_buffer)
            (sym (drop-drop c.write_offset n c.write_buffer)),
      )

  -- What the calls of `send` in `flushPending` take of the bytes that they are handed, one after the
  -- other, and then what is still pending, are the bytes that were pending before. What is still
  -- pending is all but as many bytes as the calls take, up to the first one that takes nothing, fails
  -- or claims too much; the buffer stays bounded.
  pub flush_pending-unsent :
      IsBounded c
      → length c.write_buffer < 2 ^ 64
      → (wire script (flush_pending script c).1 ++ unsent (flush_pending script c).0.0 ≡ unsent c)
        × (unsent (flush_pending script c).0.0 ≡ drop (taken script (length (unsent c))) (unsent c))
        × IsBounded (flush_pending script c).0.0
  unfolding flush_pending
  flush_pending-unsent h l =
      let s = send_loop-IsSent write_result script c h.offset_inside l in
      let r = send_loop script c write_result in
      let u = sent-unsent r h.offset_inside s in
      let v =
        compact-unsent r.0.0 r.0.1 u.0
          (rw (u.1, s.same_limit)
            (omega
              (arith, h.pending_small, length-drop (taken script (length (unsent c))) (unsent c))))
          (rw s.same_limit h.limit_fits) in
      (rw v.0 s.on_wire, v.0 ∙ u.1, v.1)
