-- ===== src/Tests/Lines.antt =====
-- Lines, buffers of lines, invitations and windows.
use irc_relay_server.Prelude.{All, ◌≤◌, true, false, ◌++◌}
use irc_relay_server.Text.Scan.{glue}
use irc_relay_server.Message.{consume_buffer}
use irc_relay_server.Message.Buffer.{IsConsumed, consume_buffer-IsConsumed}
use irc_relay_server.Channel.{channel, invite, is_invited, clear_invite}
use irc_relay_server.Channel.Invitations.{same_nick, is_invited-invite}
use irc_relay_server.App.Dispatch.{next_window}
use irc_relay_server.App.Dispatch.RateLimit.{IsAscending, next_window-IsAscending}
use irc_relay_server.Prelude.{◌≡◌, refl, [], ◌∷◌, arith}
use irc_relay_server.Text.{text, to_upper}
use irc_relay_server.Message.{
  parsed, parse_line, upper, trim_frame, needs_trailing_marker, prefix_text,
}
use irc_relay_server.Replies.{format_message, reply_params}
use irc_relay_server.Replies.RoundTrip.{read_back, parse_line-format_message}

parse_line-format_message_example :
    parse_line (format_message (text "al!a@h") (text "PRIVMSG") (text "#dev" ∷ text "hi all" ∷ []))
    ≡ parsed (
        read_back
          (text "al!a@h")
          (text "PRIVMSG")
          (text "#dev" ∷ text "hi all" ∷ [])
          (text ":al!a@h PRIVMSG #dev :hi all"))
unfolding text upper to_upper needs_trailing_marker reply_params prefix_text trim_frame
parse_line-format_message_example =
    parse_line-format_message (text "PRIVMSG") (text "#dev" ∷ text "hi all" ∷ []) refl refl
      (refl, tt) (text "al!a@h") refl (omega arith) refl

consume_buffer-IsConsumed_example :
    IsConsumed
      (text "PING a" ∷ [] ∷ [])
      (text "PI")
      (consume_buffer (glue (text "PING a" ∷ [] ∷ []) ++ text "PI"))
unfolding text
consume_buffer-IsConsumed_example =
    consume_buffer-IsConsumed (text "PING a" ∷ [] ∷ []) (text "PI") (refl, (refl, tt)) refl

is_invited-invite_example :
    (is_invited (invite (text "Al") (channel (text "#c"))) (text "AL") ≡ true)
    × (is_invited (clear_invite (text "Al") (channel (text "#c"))) (text "AL") ≡ false)
unfolding text same_nick
is_invited-invite_example = is_invited-invite (channel (text "#c")) (text "Al") (text "AL")

next_window-IsAscending_example :
    IsAscending (next_window 3 4_000_000_000 (500_000_000 ∷ 2_000_000_000 ∷ []))
    × All (λ u. u ≤ 4_000_000_000) (next_window 3 4_000_000_000 (500_000_000 ∷ 2_000_000_000 ∷ []))
next_window-IsAscending_example =
    next_window-IsAscending 3 4_000_000_000 (500_000_000 ∷ 2_000_000_000 ∷ [])
      ((omega arith, tt), (tt, tt)) (omega arith, (omega arith, tt))
