-- ===== src/Replies.antt =====
-- Replies (include/Replies.hpp, src/Replies.cpp): the lines that the server sends.
pub mod RoundTrip
use irc_relay_server.Prelude.{ℕ, ◌≡◌, refl, List, [], ◌∷◌, ◌++◌, if◌then◌else◌, is_empty, ltb}
use irc_relay_server.Text.{Str, text, decimal, decimal_from}
use irc_relay_server.Message.{space, colon, crlf, needs_trailing_marker, prefix_text}

-- `setfill('0') << setw(3)`: zeros in front, up to three places.
unfoldable pub code : ℕ → Str
code numeric =
    if ltb numeric 10
    then b'0' ∷ b'0' ∷ decimal numeric
    else if ltb numeric 100
    then b'0' ∷ decimal numeric
    else decimal numeric

-- The parameters, of which only the last may take the marker.
unfoldable pub reply_params : List Str → Str
reply_params [] = []
reply_params (p ∷ []) = space ∷ (if needs_trailing_marker p then colon ∷ p else p)
reply_params (p ∷ q ∷ ps) = space ∷ p ++ reply_params (q ∷ ps)

unfoldable pub format_message : Str → Str → List Str → Str
format_message prefix command params = prefix_text prefix ++ command ++ reply_params params ++ crlf

unfoldable pub numeric : Str → Str → ℕ → List Str → Str → Str
numeric server_name target numeric_code params trailing =
    format_message server_name (code numeric_code)
      ((if is_empty target then b'*' ∷ [] else target) ∷ params ++ trailing ∷ [])

unfoldable pub error : Str → Str
error message = format_message [] (text "ERROR") (message ∷ [])

unfoldable pub hostmask : Str → Str → Str → Str
hostmask nick user host =
    nick
    ++ b'!' ∷ (if is_empty user then text "unknown" else user)
    ++ b'@' ∷ (if is_empty host then text "localhost" else host)
