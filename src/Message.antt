-- ===== src/Message.antt =====
-- IrcMessage (include/IrcMessage.hpp, src/IrcMessage.cpp): one protocol line, its parser and its
-- printer. A position in the string is the suffix that starts there.
pub mod Words
pub mod Buffer
use irc_relay_server.Prelude.{
  ℕ, zero, suc, Bool, true, false, ◌||◌, List, [], ◌∷◌, ◌++◌, map, ltb, if◌then◌else◌, is_empty,
  length, get_or, or_default, ◌==◌, not, Option, none, some,
}
use irc_relay_server.Text.{Str, text, to_upper, has_byte, starts_with_byte, before, after, str_eq}

abbrev pub space : ℕ
space = 32

abbrev pub colon : ℕ
colon = 58

abbrev pub is_crlf : ℕ → Bool
is_crlf c = c == 13 || c == 10

abbrev pub crlf : Str
crlf = 13 ∷ 10 ∷ []

pub record IrcMessage : Type 0 where
  pub prefix : Str
  pub command : Str
  pub params : List Str
  pub raw : Str

-- What `parseLine` returns: true with `out`, or false with `*error`.
pub data Parsed : Type 0 where
  parsed : IrcMessage → Parsed
  rejected : Str → Parsed

unfoldable pub upper : Str → Str
upper value = map to_upper value

-- The constructor with three arguments leaves `raw` empty.
unfoldable pub message : Str → Str → List Str → IrcMessage
message prefix command params = record {
  prefix = prefix;
  command = upper command;
  params = params;
  raw = [];
}

unfoldable pub is_command : IrcMessage → Str → Bool
is_command m name = str_eq m.command (upper name)

unfoldable pub param : IrcMessage → ℕ → Str → Str
param m index fallback = get_or m.params index fallback

-- Drops the line ends behind the last other byte.
unfoldable pub trim_frame : Str → Str
trim_frame [] = []
trim_frame (c ∷ s) = elim (trim_frame s) [
  | [] ↦ if is_crlf c then [] else c ∷ []
  | d ∷ t ↦ c ∷ d ∷ t
]

-- A value that only the last parameter may hold, behind ':'.
unfoldable pub needs_trailing_marker : Str → Bool
needs_trailing_marker value = is_empty value || has_byte space value || starts_with_byte colon value

unfoldable pub param_text : Str → Str
param_text value = if needs_trailing_marker value then colon ∷ value else value

unfoldable pub params_text : List Str → Str
params_text [] = []
params_text (p ∷ ps) = space ∷ param_text p ++ params_text ps

unfoldable pub prefix_text : Str → Str
prefix_text prefix = if is_empty prefix then [] else colon ∷ prefix ++ space ∷ []

unfoldable pub to_line : IrcMessage → Str
to_line m = prefix_text m.prefix ++ m.command ++ params_text m.params ++ crlf

unfoldable pub skip_spaces : Str → Str
skip_spaces [] = []
skip_spaces (c ∷ s) = elim (c == space) [ true ↦ skip_spaces s | false ↦ c ∷ s ]

-- The suffix from the first space on: what follows the token `before space s`.
unfoldable pub rest_of : Str → Str
rest_of [] = []
rest_of (c ∷ s) = elim (c == space) [ true ↦ c ∷ s | false ↦ rest_of s ]

-- One round of the loop over the parameters, behind the spaces that it skips.
unfoldable pub param_round : (Str → List Str) → Str → List Str
param_round next [] = []
param_round next (c ∷ s) =
    let rest = next (rest_of (c ∷ s)) in if c == colon then s ∷ [] else before space (c ∷ s) ∷ rest

-- Each round consumes a byte, so a fuel of the string's length is enough.
unfoldable pub parse_params : ℕ → Str → List Str
parse_params zero s = []
parse_params (suc fuel) s = param_round (parse_params fuel) (skip_spaces s)

-- From the command on. `raw` is the trimmed line.
unfoldable pub parse_command : Str → Str → Str → Parsed
parse_command raw prefix s =
    let start = skip_spaces s in
    if is_empty (before space start)
    then rejected (text "IRC command is missing")
    else parsed (record {
      prefix = prefix;
      command = upper (before space start);
      params = parse_params (length raw) (rest_of start);
      raw = raw;
    })

-- Behind a leading ':', with `s` the rest of the trimmed line `raw`.
unfoldable pub parse_prefix : Str → Str → Parsed
parse_prefix raw s =
    if not (has_byte space s) || starts_with_byte space s
    then rejected (text "message prefix is missing a command")
    else parse_command raw (before space s) (after space s)

abbrev pub max_frame : ℕ
max_frame = 510

unfoldable pub parse_trimmed : Str → Parsed
parse_trimmed [] = rejected (text "empty IRC frame")
parse_trimmed (c ∷ s) =
    if ltb max_frame (length (c ∷ s))
    then rejected (text "IRC frame exceeds 510 octets before CRLF")
    else if c == colon
    then parse_prefix (c ∷ s) s
    else parse_command (c ∷ s) [] (c ∷ s)

unfoldable pub parse_line : Str → Parsed
parse_line line = parse_trimmed (trim_frame line)

-- `consumeBuffer`: the messages, what stays in the buffer, and the last error.
pub record Consumed : Type 0 where
  pub messages : List IrcMessage
  pub buffer : Str
  pub error : Option Str

abbrev pub max_partial : ℕ
max_partial = 4096

unfoldable pub take_message : Parsed → Consumed → Consumed
take_message (parsed m) c = record c { messages = m ∷ c.messages }
take_message (rejected e) c = record c { error = some (or_default e c.error) }

-- A round for each '\n'. `error` is the error of the last frame that was refused.
unfoldable pub consume_from : ℕ → Str → Consumed
consume_from zero buffer = record { messages = []; buffer = buffer; error = none }
consume_from (suc fuel) buffer =
    let rest =
      take_message (parse_line (before 10 buffer ++ 10 ∷ []))
        (consume_from fuel (after 10 buffer)) in
    if has_byte 10 buffer
    then rest
    else if ltb max_partial (length buffer)
    then record {
      messages = [];
      buffer = [];
      error = some (text "discarded oversized partial IRC frame");
    }
    else record { messages = []; buffer = buffer; error = none }

unfoldable pub consume_buffer : Str → Consumed
consume_buffer buffer = consume_from (suc (length buffer)) buffer
