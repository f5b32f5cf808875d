-- ===== src/Message/Buffer.antt =====
-- `consumeBuffer`: each complete frame is parsed once, and one that is refused costs no other.
use irc_relay_server.Prelude.{
  ℕ, zero, suc, ◌≡◌, refl, ◌<◌, ◌≤◌, false, List, [], ◌∷◌, ◌++◌, length, ltb, if◌then◌else◌, arith,
  All, length-append, append_assoc, Bool-cases, inl, inr,
}
use irc_relay_server.Text.{Str, has_byte}
use irc_relay_server.Text.Scan.{glue, before-append, after-append, has_byte-middle}
use irc_relay_server.Message.{
  IrcMessage, Parsed, parsed, rejected, parse_line, Consumed, take_message, consume_from,
  consume_buffer, max_partial,
}

-- The messages of frames, in their order, without those that the parser refuses.
abbrev pub add_message : Parsed → List IrcMessage → List IrcMessage
add_message (parsed m) ms = m ∷ ms
add_message (rejected e) ms = ms

abbrev pub messages_of : List Str → List IrcMessage
messages_of [] = []
messages_of (f ∷ fs) = add_message (parse_line (f ++ 10 ∷ [])) (messages_of fs)

abbrev pub IsUnbroken : Str → Type 0
IsUnbroken f = has_byte 10 f ≡ false

-- What is left of the bytes behind the last line feed.
abbrev pub kept : Str → Str
kept rest = if ltb max_partial (length rest) then [] else rest

pub record IsConsumed (fs : List Str) (rest : Str) (c : Consumed) : Type 0 where
  pub messages : c.messages ≡ messages_of fs
  pub buffer : c.buffer ≡ kept rest

take_message-IsConsumed :
    (f : Str) (fs : List Str) (rest : Str) (p : Parsed) (c : Consumed)
    → p ≡ parse_line (f ++ 10 ∷ [])
    → IsConsumed fs rest c
    → IsConsumed (f ∷ fs) rest (take_message p c)
unfolding take_message
take_message-IsConsumed f fs rest (parsed m) c e h = record {
  messages = rw (← e, h.messages) refl;
  buffer = h.buffer;
}
take_message-IsConsumed f fs rest (rejected r) c e h = record {
  messages = rw (← e, h.messages) refl;
  buffer = h.buffer;
}

consume_from-IsConsumed :
    (fuel : ℕ) (fs : List Str) (rest : Str)
    → All IsUnbroken fs
    → IsUnbroken rest
    → length fs < fuel
    → IsConsumed fs rest (consume_from fuel (glue fs ++ rest))
unfolding consume_from
consume_from-IsConsumed zero fs rest a u b = absurd (omega (arith, b))
consume_from-IsConsumed (suc fuel) [] rest a u b =
    elim (Bool-cases (ltb max_partial (length rest))) [
      | inl large ↦ rw (u, large) (record { messages = refl; buffer = rw large refl })
      | inr small ↦ rw (u, small) (record { messages = refl; buffer = rw small refl })
    ]
consume_from-IsConsumed (suc fuel) (f ∷ fs) rest a u b =
    rw
      (
        append_assoc f (10 ∷ glue fs) rest,
        has_byte-middle 10 f (glue fs ++ rest),
        before-append 10 f (glue fs ++ rest) a.0,
        after-append 10 f (glue fs ++ rest) a.0,
      )
      (take_message-IsConsumed f fs rest (parse_line (f ++ 10 ∷ [])) _ refl
        (consume_from-IsConsumed fuel fs rest a.1 u (omega (arith, b))))

length-glue : (fs : List Str) (rest : Str) → length fs ≤ length (glue fs ++ rest)
length-glue [] rest = omega arith
length-glue (f ∷ fs) rest =
    rw (append_assoc f (10 ∷ glue fs) rest)
      (omega (arith, length-append f (10 ∷ (glue fs ++ rest)), length-glue fs rest))

-- Of a buffer of frames and a rest without a line feed, `consumeBuffer` returns the messages of all
-- frames that the parser accepts, in their order, and keeps the rest, or nothing of it where it is
-- longer than 4096 bytes.
pub consume_buffer-IsConsumed :
    (fs : List Str) (rest : Str)
    → All IsUnbroken fs
    → IsUnbroken rest
    → IsConsumed fs rest (consume_buffer (glue fs ++ rest))
unfolding consume_buffer
consume_buffer-IsConsumed fs rest a u =
    consume_from-IsConsumed (suc (length (glue fs ++ rest))) fs rest a u
      (omega (arith, length-glue fs rest))
