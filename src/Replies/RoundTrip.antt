-- ===== src/Replies/RoundTrip.antt =====
-- What the server writes, its parser reads back.
use irc_relay_server.Prelude.{
  ℕ, zero, suc, ◌≡◌, refl, sym, ap, ◌∙◌, ◌≤◌, false, List, [], ◌∷◌, ◌++◌, is_empty, length, arith,
  Bool-cases, inl, inr, length-append, append_nil, append_assoc, snoc-append,
}
use irc_relay_server.Text.{Str, has_byte}
use irc_relay_server.Text.Scan.{has_byte-middle, before-append, after-append}
use irc_relay_server.Message.{
  IrcMessage, parsed, space, colon, crlf, trim_frame, needs_trailing_marker, prefix_text,
  parse_params, parse_command, parse_prefix, parse_trimmed, parse_line, upper,
}
use irc_relay_server.Message.Words.{
  IsWord, IsTail, word-no_colon, trim_frame-crlf, skip_spaces-word, before-word, rest_of-word,
  IsWord-no_space, parse_params-word, parse_params-trailing, parse_params-end,
}
use irc_relay_server.Replies.{reply_params, format_message}

-- All parameters but the last are words.
abbrev pub AreParams : List Str → Type 0
AreParams [] = Unit
AreParams (p ∷ []) = Unit
AreParams (p ∷ q ∷ ps) = IsWord p × AreParams (q ∷ ps)

reply_params-IsTail : (ps : List Str) → IsTail (reply_params ps)
unfolding reply_params
reply_params-IsTail [] = tt
reply_params-IsTail (p ∷ []) = refl
reply_params-IsTail (p ∷ q ∷ ps) = refl

last_param : (fuel : ℕ) (p : Str) → 1 ≤ fuel → parse_params fuel (reply_params (p ∷ [])) ≡ p ∷ []
unfolding reply_params
last_param zero p b = absurd (omega (arith, b))
last_param (suc fuel) p b = elim (Bool-cases (needs_trailing_marker p)) [
  | inl marked ↦ rw marked (parse_params-trailing fuel p)
  | inr word ↦ rw word (
      ap (λ s. parse_params (suc fuel) (space ∷ s)) (sym (append_nil p))
      ∙ parse_params-word fuel p [] word tt
      ∙ ap (λ q. p ∷ q) (parse_params-end fuel))
]

parse_params-reply :
    (fuel : ℕ) (ps : List Str)
    → AreParams ps
    → length ps ≤ fuel
    → parse_params fuel (reply_params ps) ≡ ps
unfolding reply_params
parse_params-reply fuel [] ok b = parse_params-end fuel
parse_params-reply fuel (p ∷ []) ok b = unfold reply_params in last_param fuel p (omega (arith, b))
parse_params-reply zero (p ∷ q ∷ ps) ok b = absurd (omega (arith, b))
parse_params-reply (suc fuel) (p ∷ q ∷ ps) ok b =
    parse_params-word fuel p (reply_params (q ∷ ps)) ok.0 (reply_params-IsTail (q ∷ ps))
    ∙ ap (λ r. p ∷ r) (parse_params-reply fuel (q ∷ ps) ok.1 (omega (arith, b)))

length-reply_params : (ps : List Str) → length ps ≤ length (reply_params ps)
unfolding reply_params
length-reply_params [] = omega arith
length-reply_params (p ∷ []) = omega arith
length-reply_params (p ∷ q ∷ ps) =
    omega (arith, length-reply_params (q ∷ ps), length-append p (reply_params (q ∷ ps)))

IsWord-full : (s : Str) → IsWord s → is_empty s ≡ false
unfolding needs_trailing_marker
IsWord-full s w = ground (arith, w)

-- The first byte of the line decides whether there is a prefix.
parse_trimmed-word :
    (w t : Str)
    → IsWord w
    → length (w ++ t) ≤ 510
    → parse_trimmed (w ++ t) ≡ parse_command (w ++ t) [] (w ++ t)
unfolding parse_trimmed
parse_trimmed-word [] t w b = absurd (unfold needs_trailing_marker in cc w)
parse_trimmed-word (c ∷ s) t w b = ground (arith, b, word-no_colon c s w)

parse_trimmed-colon :
    (s : Str) → length (colon ∷ s) ≤ 510 → parse_trimmed (colon ∷ s) ≡ parse_prefix (colon ∷ s) s
unfolding parse_trimmed
parse_trimmed-colon s b = ground (arith, b)

parse_prefix-clean :
    (raw : Str) (c : ℕ) (s t : Str)
    → has_byte space (c ∷ s) ≡ false
    → parse_prefix raw (c ∷ s ++ space ∷ t) ≡ parse_command raw (c ∷ s) t
unfolding parse_prefix
parse_prefix-clean raw c s t clean =
    rw (before-append space (c ∷ s) t clean, after-append space (c ∷ s) t clean)
      (ground (arith, clean, has_byte-middle space (c ∷ s) t))

-- The message that a command and its parameters make up.
abbrev pub read_back : Str → Str → List Str → Str → IrcMessage
read_back prefix command params raw = record {
  prefix = prefix;
  command = command;
  params = params;
  raw = raw;
}

module _ (command : Str) (params : List Str) (word : IsWord command)
    (capital : upper command ≡ command) (ok : AreParams params) where
  parse_command-reply :
      (raw prefix : Str)
      → length (reply_params params) ≤ length raw
      → parse_command raw prefix (command ++ reply_params params)
        ≡ parsed (read_back prefix command params raw)
  unfolding parse_command
  parse_command-reply raw prefix b =
      rw
        (
          skip_spaces-word command (reply_params params) word,
          before-word command (reply_params params) (IsWord-no_space command word)
              (reply_params-IsTail params),
          rest_of-word command (reply_params params) (IsWord-no_space command word)
              (reply_params-IsTail params),
        )
        (rw
          (
            IsWord-full command word,
            capital,
            parse_params-reply (length raw) params ok
                (omega (arith, b, length-reply_params params)),
          )
          refl)

  -- The line without its end.
  abbrev body : Str → Str
  body prefix = prefix_text prefix ++ (command ++ reply_params params)

  parse_trimmed-plain :
      length (body []) ≤ 510
      → parse_trimmed (body []) ≡ parsed (read_back [] command params (body []))
  unfolding prefix_text
  parse_trimmed-plain b =
      parse_trimmed-word command (reply_params params) word b
      ∙ parse_command-reply (body []) []
          (omega (arith, length-append command (reply_params params)))

  parse_trimmed-prefix :
      (c : ℕ) (prefix : Str)
      → has_byte space (c ∷ prefix) ≡ false
      → length (body (c ∷ prefix)) ≤ 510
      → parse_trimmed (body (c ∷ prefix))
        ≡ parsed (read_back (c ∷ prefix) command params (body (c ∷ prefix)))
  unfolding prefix_text
  parse_trimmed-prefix c prefix clean b =
      let text' = command ++ reply_params params in
      let e : (c ∷ prefix ++ space ∷ []) ++ text' ≡ c ∷ prefix ++ space ∷ text' =
        snoc-append (c ∷ prefix) space text' in
      parse_trimmed-colon ((c ∷ prefix ++ space ∷ []) ++ text') b
      ∙ ap (parse_prefix (body (c ∷ prefix))) e
      ∙ parse_prefix-clean (body (c ∷ prefix)) c prefix text' clean
      ∙ parse_command-reply (body (c ∷ prefix)) (c ∷ prefix) (
          omega (
            arith,
            length-append (c ∷ prefix ++ space ∷ []) text',
            length-append command (reply_params params),
          ))

  parse_trimmed-body :
      (prefix : Str)
      → has_byte space prefix ≡ false
      → length (body prefix) ≤ 510
      → parse_trimmed (body prefix) ≡ parsed (read_back prefix command params (body prefix))
  parse_trimmed-body [] clean b = parse_trimmed-plain b
  parse_trimmed-body (c ∷ prefix) clean b = parse_trimmed-prefix c prefix clean b

  framed : (prefix : Str) → format_message prefix command params ≡ body prefix ++ crlf
  unfolding format_message
  framed prefix = simp append_assoc

  -- A line that `formatMessage` writes is read back by `parseLine` as what it was made of, where the
  -- command and all parameters but the last are words, the command in capitals, the prefix without a
  -- space, and the line without its end no longer than 510 bytes and not itself ended by CR or LF.
  pub parse_line-format_message :
      (prefix : Str)
      → has_byte space prefix ≡ false
      → length (body prefix) ≤ 510
      → trim_frame (body prefix) ≡ body prefix
      → parse_line (format_message prefix command params)
        ≡ parsed (read_back prefix command params (body prefix))
  unfolding parse_line
  parse_line-format_message prefix clean b ended =
      ap parse_trimmed (ap trim_frame (framed prefix) ∙ trim_frame-crlf (body prefix) ∙ ended)
      ∙ parse_trimmed-body prefix clean b
