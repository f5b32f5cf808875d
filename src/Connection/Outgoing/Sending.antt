-- ===== src/Connection/Outgoing/Sending.antt =====
-- The loop of `flushPending` (src/Connection.cpp): what its calls of `send` are handed and take.
use irc_relay_server.Prelude.{
  ℕ, ◌+◌, ◌-◌, ◌^◌, ◌≡◌, refl, ◌∙◌, ◌<◌, ◌≤◌, true, false, ◌||◌, List, [], ◌∷◌, if◌then◌else◌,
  length, take, ltb, ◌++◌, ◌⊎◌, ==_iff, ◌==◌, arith, Bool-cases, inl, inr, length-drop, drop-drop,
  append_assoc, take-append-drop,
}
use irc_relay_server.Text.{Str}
use irc_relay_server.Connection.{
  Errno, Connection, WriteResult, Sent, sent, send_failed, eintr, again, other, sub64, wants_write,
  request_close, send_loop,
}
use irc_relay_server.Connection.Outgoing.{unsent}

-- How many bytes a script of `send` results takes of `pending` bytes: the loop stops at a call that
-- takes nothing, fails, or claims more than it was given.
unfoldable pub taken : List Sent → ℕ → ℕ
taken [] pending = 0
taken (sent count ∷ script) pending =
    let rest = taken script (pending - count) in
    if pending == 0 || count == 0 || ltb pending count then 0 else count + rest
taken (send_failed eintr ∷ script) pending = if pending == 0 then 0 else taken script pending
taken (send_failed again ∷ script) pending = 0
taken (send_failed (other e) ∷ script) pending = 0

pub taken-le : (script : List Sent) (pending : ℕ) → taken script pending ≤ pending
unfolding taken
taken-le [] pending = omega arith
taken-le (sent count ∷ script) pending = ground (arith, taken-le script (pending - count))
taken-le (send_failed eintr ∷ script) pending = ground (arith, taken-le script pending)
taken-le (send_failed again ∷ script) pending = omega arith
taken-le (send_failed (other e) ∷ script) pending = omega arith

-- What the peer is sent by calls with these results that were handed these bytes: of each, the first
-- `count`; a call that fails, or claims more than it was handed, sends nothing.
unfoldable pub wire : List Sent → List Str → Str
wire (sent count ∷ script) (bytes ∷ handed) =
    let rest = wire script handed in
    if ltb (length bytes) count then rest else take count bytes ++ rest
wire (send_failed e ∷ script) (bytes ∷ handed) = wire script handed
wire [] handed = []
wire script [] = []

-- What the loop does: the offset goes forward by the bytes that were taken, and these are the bytes
-- that were sent.
pub record IsSent (script : List Sent) (c : Connection) (r : (Connection × WriteResult) × List Str)
    : Type 0 where
  pub same_buffer : r.0.0.write_buffer ≡ c.write_buffer
  pub same_limit : r.0.0.max_pending_bytes ≡ c.max_pending_bytes
  pub moved :
      r.0.0.write_offset ≡ c.write_offset + taken script (length c.write_buffer - c.write_offset)
  pub on_wire : wire script r.1 ++ unsent r.0.0 ≡ unsent c

wire-nil : (script : List Sent) → wire script [] ≡ []
unfolding wire
wire-nil [] = refl
wire-nil (sent count ∷ script) = refl
wire-nil (send_failed e ∷ script) = refl

-- A call that takes nothing sends nothing.
wire-idle :
    (count : ℕ) (script : List Sent) (bytes : Str)
    → (count ≡ 0) ⊎ (ltb (length bytes) count ≡ true)
    → wire (sent count ∷ script) (bytes ∷ []) ≡ []
unfolding wire
wire-idle count script bytes (inl z) = rw (z, wire-nil script) (ground arith)
wire-idle count script bytes (inr over) = rw over (wire-nil script)

sub64_small : (a b : ℕ) → a < 2 ^ 64 → b ≤ a → sub64 a b ≡ a - b
sub64_small a b l i = omega (arith, l, i)

next_offset :
    (count : ℕ) (script : List Sent) (c : Connection)
    → ltb c.write_offset (length c.write_buffer) ≡ true
    → (count == 0) ≡ false
    → ltb (length c.write_buffer - c.write_offset) count ≡ false
    → c.write_offset + count + taken script (length c.write_buffer - (c.write_offset + count))
      ≡ c.write_offset + taken (sent count ∷ script) (length c.write_buffer - c.write_offset)
unfolding taken
next_offset count script c t n f =
    let e : length c.write_buffer - (c.write_offset + count)
        ≡ length c.write_buffer - c.write_offset - count =
      omega arith in
    rw e (ground (arith, t, n, f))

-- The loop that ends without taking anything more.
stays-IsSent :
    (script : List Sent) (c : Connection) (r : (Connection × WriteResult) × List Str)
    → r.0.0.write_buffer ≡ c.write_buffer
    → r.0.0.max_pending_bytes ≡ c.max_pending_bytes
    → r.0.0.write_offset ≡ c.write_offset
    → taken script (length c.write_buffer - c.write_offset) ≡ 0
    → wire script r.1 ≡ []
    → IsSent script c r
stays-IsSent script c r b l o t w = record {
  same_buffer = b;
  same_limit = l;
  moved = rw (o, t) (omega arith);
  on_wire = rw (w, b, o) refl;
}

-- A round that takes `count` bytes, before the rest of the loop.
advances-IsSent :
    (count : ℕ) (script : List Sent) (c : Connection) (r : (Connection × WriteResult) × List Str)
    → ltb c.write_offset (length c.write_buffer) ≡ true
    → (count == 0) ≡ false
    → ltb (length c.write_buffer - c.write_offset) count ≡ false
    → IsSent script (record c { write_offset = c.write_offset + count }) r
    → IsSent (sent count ∷ script) c (r.0, unsent c ∷ r.1)
unfolding wire
advances-IsSent count script c r t some_taken fits s = record {
  same_buffer = s.same_buffer;
  same_limit = s.same_limit;
  moved = s.moved ∙ next_offset count script c t some_taken fits;
  on_wire =
      rw (length-drop c.write_offset c.write_buffer, fits)
        (append_assoc (take count (unsent c)) (wire script r.1) (unsent r.0.0)
          ∙ rw (s.on_wire, ← drop-drop c.write_offset count c.write_buffer)
              (take-append-drop count (unsent c)));
}

-- A call that fails for good ends the loop.
failed-IsSent :
    (e : Errno) (script : List Sent) (c : Connection) (r' : (Connection × WriteResult) × List Str)
    → r'.0.0.write_buffer ≡ c.write_buffer
    → r'.0.0.max_pending_bytes ≡ c.max_pending_bytes
    → r'.0.0.write_offset ≡ c.write_offset
    → taken (send_failed e ∷ script) (length c.write_buffer - c.write_offset) ≡ 0
    → (r'.1 ≡ []) ⊎ (r'.1 ≡ unsent c ∷ [])
    → IsSent (send_failed e ∷ script) c r'
unfolding wire
failed-IsSent e script c r' b l o t (inl h) =
    stays-IsSent (send_failed e ∷ script) c r' b l o t (rw h (wire-nil (send_failed e ∷ script)))
failed-IsSent e script c r' b l o t (inr h) =
    stays-IsSent (send_failed e ∷ script) c r' b l o t (rw h (wire-nil script))

module _ (r : WriteResult) where
  sent-IsSent :
      (count : ℕ) (script : List Sent) (c : Connection)
      → c.write_offset ≤ length c.write_buffer
      → length c.write_buffer < 2 ^ 64
      → (c.write_offset + count ≤ length c.write_buffer
          → IsSent script
              (record c { write_offset = c.write_offset + count })
              (send_loop script (record c { write_offset = c.write_offset + count }) r))
      → IsSent (sent count ∷ script) c (send_loop (sent count ∷ script) c r)
  unfolding send_loop wants_write request_close
  sent-IsSent count script c i l rest =
      let left = length-drop c.write_offset c.write_buffer in
      rw (sub64_small (length c.write_buffer) c.write_offset l i)
        (elim (Bool-cases (ltb c.write_offset (length c.write_buffer))) [
          | inr f ↦ rw f (
              stays-IsSent (sent count ∷ script) c _ refl refl refl
                (unfold taken in ground (arith, f, i)) (wire-nil (sent count ∷ script)))
          | inl t ↦ elim (Bool-cases (count == 0)) [
            | inl z ↦
                rw (t, z)
                  (stays-IsSent (sent count ∷ script) c _ refl refl refl
                    (unfold taken in ground (arith, z))
                    (wire-idle count script (unsent c) (inl ((==_iff count 0).0 z))))
            | inr some_taken ↦
                elim (Bool-cases (ltb (length c.write_buffer - c.write_offset) count)) [
                  | inl over ↦
                      rw (t, some_taken, over)
                        (stays-IsSent (sent count ∷ script) c _ refl refl refl
                          (unfold taken in ground (arith, over))
                          (wire-idle count script (unsent c) (inr (rw left over))))
                  | inr fits ↦
                      rw (t, some_taken, fits)
                        (advances-IsSent count script c _ t some_taken fits
                          (rest (ground (arith, fits, i))))
                ]
          ]
        ])

  pub send_loop-IsSent :
      (script : List Sent) (c : Connection)
      → c.write_offset ≤ length c.write_buffer
      → length c.write_buffer < 2 ^ 64
      → IsSent script c (send_loop script c r)
  unfolding send_loop taken wire wants_write request_close
  send_loop-IsSent [] c i l = elim (Bool-cases (ltb c.write_offset (length c.write_buffer))) [
    | inl t ↦ rw t (stays-IsSent [] c _ refl refl refl refl refl)
    | inr f ↦ rw f (stays-IsSent [] c _ refl refl refl refl refl)
  ]
  send_loop-IsSent (sent count ∷ script) c i l =
      sent-IsSent count script c i l (λ b. send_loop-IsSent script _ b l)
  send_loop-IsSent (send_failed eintr ∷ script) c i l =
      elim (Bool-cases (ltb c.write_offset (length c.write_buffer))) [
        | inl t ↦
            let s = send_loop-IsSent script c i l in
            rw t (record {
              same_buffer = s.same_buffer;
              same_limit = s.same_limit;
              moved = s.moved ∙ unfold taken in ground (arith, t);
              on_wire = s.on_wire;
            })
        | inr f ↦ rw f (
            failed-IsSent eintr script c _ refl refl refl (unfold taken in ground (arith, f, i))
              (inl refl))
      ]
  send_loop-IsSent (send_failed again ∷ script) c i l =
      elim (Bool-cases (ltb c.write_offset (length c.write_buffer))) [
        | inl t ↦ rw t (failed-IsSent again script c _ refl refl refl refl (inr refl))
        | inr f ↦ rw f (failed-IsSent again script c _ refl refl refl refl (inl refl))
      ]
  send_loop-IsSent (send_failed (other e) ∷ script) c i l =
      elim (Bool-cases (ltb c.write_offset (length c.write_buffer))) [
        | inl t ↦ rw t (failed-IsSent (other e) script c _ refl refl refl refl (inr refl))
        | inr f ↦ rw f (failed-IsSent (other e) script c _ refl refl refl refl (inl refl))
      ]
