-- ===== src/Tests/Runs.antt =====
-- Runs of the model at fixed inputs.
use irc_relay_server.Prelude.{◌≡◌, refl, true, false, [], ◌++◌}
use irc_relay_server.Text.{text, decimal, decimal_from}
use irc_relay_server.Message.{crlf, prefix_text, needs_trailing_marker}
use irc_relay_server.Replies.{numeric, hostmask, format_message, code, reply_params}
use irc_relay_server.Channel.{is_valid_name}
use irc_relay_server.RuntimeConfig.{ok, parse_port, parse_unsigned_decimal, parse_digits}

decimal_439 : decimal 439 ≡ text "439"
unfolding decimal text decimal_from
decimal_439 = refl

numeric_welcome : numeric (text "srv") [] 1 [] (text "hi all") ≡ text ":srv 001 * :hi all" ++ crlf
unfolding numeric text format_message prefix_text code decimal decimal_from reply_params
    needs_trailing_marker
numeric_welcome = refl

hostmask_defaults : hostmask (text "al") [] [] ≡ text "al!unknown@localhost"
unfolding hostmask text
hostmask_defaults = refl

valid_names :
    (is_valid_name (text "#dev") ≡ true)
    × (is_valid_name (text "#a b") ≡ false)
    × (is_valid_name (text "#") ≡ false)
unfolding is_valid_name text
valid_names = (refl, refl, refl)

parse_port_runs : parse_port (text "6667") ≡ ok 6667
unfolding parse_port parse_unsigned_decimal text parse_digits
parse_port_runs = refl
