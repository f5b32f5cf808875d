-- ===== src/Connection/Incoming.antt =====
-- The read buffer: each line that ended is delivered once, in its order, and what stays is short.
use irc_relay_server.Prelude.{
  ℕ, zero, suc, ◌+◌, ◌≡◌, refl, sym, ap, ◌∙◌, ◌<◌, ◌≤◌, true, false, List, [], ◌∷◌, ◌++◌, map,
  length, ltb, arith, Bool-cases, inl, inr, All, append_nil, append_assoc, snoc-append,
}
use irc_relay_server.Text.{Str, has_byte, before, after}
use irc_relay_server.Text.Scan.{glue, before-byte-after, has_byte-before, length-after-lt}
use irc_relay_server.Connection.{
  Connection, ReadResult, read_result, Recv, received, recv_failed, eintr, again, other, strip_cr,
  refuse_line, extract_from, extract_lines, request_close, read_loop, read_available,
}

-- A frame holds no line feed and is, with its own, no longer than the limit.
abbrev pub IsFrame : ℕ → Str → Type 0
IsFrame limit f = (has_byte 10 f ≡ false) × (length f + 1 ≤ limit)

-- How a buffer was cut: the frames and what is left make up the buffer, and each frame has become a
-- line.
pub record IsCut (limit : ℕ) (buffer : Str) (lines : List Str) (rest : Str) (lines' : List Str)
    : Type 0 where
  pub frames : List Str
  pub frames_ok : All (IsFrame limit) frames
  pub whole : buffer ≡ glue frames ++ rest
  pub delivered : lines' ≡ lines ++ map strip_cr frames
  pub no_frame_left : has_byte 10 rest ≡ false
  pub short : length rest ≤ limit

-- One more frame in front.
IsCut-frame :
    (limit : ℕ) (buffer : Str) (lines : List Str) (rest : Str) (lines' : List Str)
    → has_byte 10 buffer ≡ true
    → ltb limit (length (before 10 buffer) + 1) ≡ false
    → IsCut limit (after 10 buffer) (lines ++ strip_cr (before 10 buffer) ∷ []) rest lines'
    → IsCut limit buffer lines rest lines'
IsCut-frame limit buffer lines rest lines' has fits cut = record {
  frames = before 10 buffer ∷ cut.frames;
  frames_ok = ((has_byte-before 10 buffer, ground (arith, fits)), cut.frames_ok);
  whole =
      sym (before-byte-after 10 buffer has)
      ∙ ap (λ s. before 10 buffer ++ 10 ∷ s) cut.whole
      ∙ sym (append_assoc (before 10 buffer) (10 ∷ glue cut.frames) rest);
  delivered =
      cut.delivered ∙ snoc-append lines (strip_cr (before 10 buffer)) (map strip_cr cut.frames);
  no_frame_left = cut.no_frame_left;
  short = cut.short;
}

extract_from-IsCut :
    (fuel : ℕ) (c : Connection) (r : ReadResult)
    → length c.read_buffer < fuel
    → (extract_from fuel c r).2 ≡ true
    → IsCut c.max_line_length c.read_buffer r.lines
        (extract_from fuel c r).0.read_buffer
        (extract_from fuel c r).1.lines
unfolding extract_from refuse_line
extract_from-IsCut zero c r b t = absurd (omega (arith, b))
extract_from-IsCut (suc fuel) c r b t = elim (Bool-cases (has_byte 10 c.read_buffer)) [
  | inr unended ↦ elim (Bool-cases (ltb c.max_line_length (length c.read_buffer))) [
    | inl over ↦ absurd (cc (unended, over, t))
    | inr fits ↦
        rw (unended, fits)
          (record {
            frames = [];
            frames_ok = tt;
            whole = refl;
            delivered = sym (append_nil r.lines);
            no_frame_left = unended;
            short = ground (arith, fits);
          })
  ]
  | inl ended ↦ elim (Bool-cases (ltb c.max_line_length (length (before 10 c.read_buffer) + 1))) [
    | inl over ↦ absurd (cc (ended, over, t))
    | inr fits ↦
        let t' = rw (ended, fits) at t in
        rw (ended, fits)
          (IsCut-frame c.max_line_length c.read_buffer r.lines _ _ ended fits (
            extract_from-IsCut fuel (record c { read_buffer = after 10 c.read_buffer })
              (record r { lines = r.lines ++ strip_cr (before 10 c.read_buffer) ∷ [] })
              (omega (arith, b, length-after-lt 10 c.read_buffer ended)) t'))
  ]
]

-- `extractLines` that goes on has cut the buffer into its frames, all of them, each within the limit,
-- delivered one line for each in their order, and left a rest that is within the limit too.
pub extract_lines-IsCut :
    (c : Connection) (r : ReadResult)
    → (extract_lines c r).2 ≡ true
    → IsCut c.max_line_length c.read_buffer r.lines
        (extract_lines c r).0.read_buffer
        (extract_lines c r).1.lines
unfolding extract_lines
extract_lines-IsCut c r t = extract_from-IsCut (suc (length c.read_buffer)) c r (omega arith) t

-- A refusal empties the buffer, and the limit never changes.
extract_from-limit :
    (fuel : ℕ) (c : Connection) (r : ReadResult)
    → ((extract_from fuel c r).0.max_line_length ≡ c.max_line_length)
      × ((extract_from fuel c r).2 ≡ false → (extract_from fuel c r).0.read_buffer ≡ [])
unfolding extract_from refuse_line request_close
extract_from-limit zero c r = (refl, λ f. cc)
extract_from-limit (suc fuel) c r = elim (Bool-cases (has_byte 10 c.read_buffer)) [
  | inr unended ↦ elim (Bool-cases (ltb c.max_line_length (length c.read_buffer))) [
    | inl over ↦ rw (unended, over) (refl, λ f. refl)
    | inr fits ↦ rw (unended, fits) (refl, λ f. cc)
  ]
  | inl ended ↦ elim (Bool-cases (ltb c.max_line_length (length (before 10 c.read_buffer) + 1))) [
    | inl over ↦ rw (ended, over) (refl, λ f. refl)
    | inr fits ↦
        rw (ended, fits)
          (extract_from-limit fuel (record c { read_buffer = after 10 c.read_buffer })
            (record r { lines = r.lines ++ strip_cr (before 10 c.read_buffer) ∷ [] }))
  ]
]

-- The read buffer is within the limit.
abbrev pub IsShort : Connection → Type 0
IsShort c = length c.read_buffer ≤ c.max_line_length

extract_lines-IsShort : (c : Connection) (r : ReadResult) → IsShort (extract_lines c r).0
unfolding extract_lines
extract_lines-IsShort c r =
    let fuel = suc (length c.read_buffer) in
    let l = extract_from-limit fuel c r in
    elim (Bool-cases (extract_from fuel c r).2) [
      | inl t ↦ rw l.0 (extract_from-IsCut fuel c r (omega arith) t).short
      | inr f ↦ rw (l.1 f) (omega arith)
    ]

read_loop-IsShort :
    (script : List Recv) (c : Connection) (r : ReadResult)
    → IsShort c
    → IsShort (read_loop script c r).0
unfolding read_loop request_close
read_loop-IsShort [] c r h = h
read_loop-IsShort (received [] ∷ script) c r h = h
read_loop-IsShort (received (b ∷ bytes) ∷ script) c r h =
    let c' = record c { read_buffer = c.read_buffer ++ b ∷ bytes } in
    let s = extract_lines-IsShort c' r in
    elim (Bool-cases (extract_lines c' r).2) [
      | inl t ↦ rw t (read_loop-IsShort script (extract_lines c' r).0 (extract_lines c' r).1 s)
      | inr f ↦ rw f s
    ]
read_loop-IsShort (recv_failed eintr ∷ script) c r h = read_loop-IsShort script c r h
read_loop-IsShort (recv_failed again ∷ script) c r h = h
read_loop-IsShort (recv_failed (other e) ∷ script) c r h = h

-- However much a client sends, and however it is cut into pieces, `readAvailable` leaves no more than
-- the maximum line length in the read buffer.
pub read_available-IsShort :
    (script : List Recv) (c : Connection) → IsShort c → IsShort (read_available script c).0
unfolding read_available
read_available-IsShort script c h = read_loop-IsShort script c read_result h
