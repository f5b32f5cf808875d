-- ===== src/RuntimeConfig.antt =====
-- RuntimeConfig (src/RuntimeConfig.hpp, src/RuntimeConfig.cpp): the command line. An exception is
-- its message; `none` is success.
pub mod Numbers
pub mod Ranges
use irc_relay_server.Prelude.{
  ℕ, ◌+◌, ◌-◌, ◌*◌, ◌/◌, ◌%◌, ◌^◌, ◌≡◌, refl, Bool, ◌&&◌, ◌||◌, List, [], ◌∷◌, ◌++◌, ltb, ◌==◌,
  if◌then◌else◌, not, length, drop, take, is_empty,
}
use irc_relay_server.Text.{Str, text, str_eq, is_digit, has_byte, before, after}

pub data Result {ℓ} (A : Type ℓ) : Type ℓ where
  ok : A → Result A
  err : Str → Result A

infixl 5 ◌>>=◌
abbrev pub ◌>>=◌ {ℓ κ} : {A : Type ℓ} {B : Type κ} → Result A → (A → Result B) → Result B
ok a >>= f = f a
err e >>= f = err e

-- The loop of `parseUnsignedDecimal` at a type of `modulus` values.
unfoldable pub parse_digits : ℕ → ℕ → Str → ℕ → Str → Result ℕ
parse_digits modulus maximum message parsed [] = ok parsed
parse_digits modulus maximum message parsed (c ∷ s) =
    let digit = (c - b'0') % modulus in
    let rest = parse_digits modulus maximum message ((parsed * 10 + digit) % modulus) s in
    if not (is_digit c)
    then err message
    else if ltb (maximum / 10) parsed || (parsed == maximum / 10 && ltb (maximum % 10) digit)
    then err message
    else rest

unfoldable pub parse_unsigned_decimal : ℕ → ℕ → Str → Str → Result ℕ
parse_unsigned_decimal modulus maximum message value =
    if is_empty value then err message else parse_digits modulus maximum message 0 value

pub record RuntimeConfig : Type 0 where
  pub rate_limit_count : ℕ
  pub rate_limit_window_seconds : ℕ
  pub idle_timeout_seconds : ℕ
  pub ping_timeout_seconds : ℕ
  pub registration_timeout_seconds : ℕ

abbrev pub runtime_config : RuntimeConfig
runtime_config = record {
  rate_limit_count = 24;
  rate_limit_window_seconds = 3;
  idle_timeout_seconds = 120;
  ping_timeout_seconds = 30;
  registration_timeout_seconds = 30;
}

-- `Server::Config`; the backlog is only passed on to `listen`.
pub record ServerConfig : Type 0 where
  pub bind_address : Str
  pub port : ℕ
  pub event_timeout_ms : ℕ
  pub max_line_length : ℕ
  pub max_pending_bytes : ℕ
  pub max_connections : ℕ

abbrev pub server_config : ServerConfig
server_config = record {
  bind_address = text "0.0.0.0";
  port = 6667;
  event_timeout_ms = 1000;
  max_line_length = 512;
  max_pending_bytes = 1048576;
  max_connections = 256;
}

unfoldable pub parse_port : Str → Result ℕ
parse_port value = do
  let message = text "port must be an integer from 1 to 65535"
  port ← parse_unsigned_decimal (2 ^ 16) 65535 message value
  if port == 0 then err message else ok port

unfoldable pub parse_size : Str → Str → Result ℕ
parse_size value name =
    parse_unsigned_decimal (2 ^ 64) (2 ^ 64 - 1) (name ++ text " must be an unsigned integer") value

unfoldable pub parse_positive_int : Str → Str → Result ℕ
parse_positive_int value name = do
  let message = name ++ text " must be a positive integer"
  parsed ← parse_unsigned_decimal (2 ^ 32) 86400 message value
  if parsed == 0 then err message else ok parsed

unfoldable pub starts_with : Str → Str → Bool
starts_with value prefix =
    not (ltb (length value) (length prefix)) && str_eq (take (length prefix) value) prefix

-- Both configurations, as the options leave them.
pub record Options : Type 0 where
  pub runtime : RuntimeConfig
  pub server : ServerConfig

unfoldable pub parse_rate_limit : Str → Options → Result Options
parse_rate_limit value o =
    if not (has_byte b':' value) then err (text "rate limit must use COUNT:SECONDS") else do
      count ← parse_size (before b':' value) (text "rate limit count")
      seconds ← parse_positive_int (after b':' value) (text "rate limit window")
      ok (record o {
        runtime = record o.runtime {
          rate_limit_count = count;
          rate_limit_window_seconds = seconds;
        };
      })

unfoldable pub parse_option : Str → Options → Result Options
parse_option arg o =
    if starts_with arg (text "--idle-timeout=")
    then (do
      n ← parse_positive_int (drop 15 arg) (text "idle timeout")
      ok (record o { runtime = record o.runtime { idle_timeout_seconds = n } }))
    else if starts_with arg (text "--ping-timeout=")
    then (do
      n ← parse_positive_int (drop 15 arg) (text "ping timeout")
      ok (record o { runtime = record o.runtime { ping_timeout_seconds = n } }))
    else if starts_with arg (text "--registration-timeout=")
    then (do
      n ← parse_positive_int (drop 23 arg) (text "registration timeout")
      ok (record o { runtime = record o.runtime { registration_timeout_seconds = n } }))
    else if starts_with arg (text "--rate-limit=")
    then parse_rate_limit (drop 13 arg) o
    else if starts_with arg (text "--max-pending-bytes=")
    then (do
      n ← parse_size (drop 20 arg) (text "max pending bytes")
      ok (record o { server = record o.server { max_pending_bytes = n } }))
    else if starts_with arg (text "--max-connections=")
    then (do
      n ← parse_size (drop 18 arg) (text "max connections")
      ok (record o { server = record o.server { max_connections = n } }))
    else err (text "unknown option: " ++ arg)

-- The arguments behind the port and the password.
unfoldable pub parse_options : List Str → Options → Result Options
parse_options [] o = ok o
parse_options (arg ∷ args) o = do o' ← parse_option arg o; parse_options args o'
