-- ===== src/Message/Words.antt =====
-- How the parser cuts a line into words.
use irc_relay_server.Prelude.{ℕ, zero, suc, ◌≡◌, refl, false, [], ◌∷◌, ◌++◌, arith, ◌==◌}
use irc_relay_server.Text.{Str, has_byte, before}
use irc_relay_server.Message.{
  space, colon, crlf, trim_frame, needs_trailing_marker, skip_spaces, rest_of, param_round,
  parse_params,
}

-- What may stand in the middle of a line: it is not empty, holds no space and starts with no ':'.
abbrev pub IsWord : Str → Type 0
IsWord s = needs_trailing_marker s ≡ false

-- What may stand behind a word: nothing, or a space and more.
abbrev pub IsTail : Str → Type 0
IsTail [] = Unit
IsTail (c ∷ s) = c ≡ space

-- The frame's own line end is dropped, and nothing else.
pub trim_frame-crlf : (s : Str) → trim_frame (s ++ crlf) ≡ trim_frame s
unfolding trim_frame
trim_frame-crlf [] = refl
trim_frame-crlf (c ∷ s) = rw (trim_frame-crlf s) refl

pub IsWord-no_space : (s : Str) → IsWord s → has_byte space s ≡ false
unfolding needs_trailing_marker
IsWord-no_space s w = ground (arith, w)

pub skip_spaces-word : (s t : Str) → IsWord s → skip_spaces (s ++ t) ≡ s ++ t
unfolding skip_spaces needs_trailing_marker
skip_spaces-word [] t w = cc
skip_spaces-word (c ∷ s) t w = ground (arith, w)

pub before-word : (s t : Str) → has_byte space s ≡ false → IsTail t → before space (s ++ t) ≡ s
unfolding before
before-word [] [] w i = refl
before-word [] (c ∷ t) w i = ground (arith, i)
before-word (c ∷ s) t w i = ground (arith, w, before-word s t)

pub rest_of-word : (s t : Str) → has_byte space s ≡ false → IsTail t → rest_of (s ++ t) ≡ t
unfolding rest_of
rest_of-word [] [] w i = refl
rest_of-word [] (c ∷ t) w i = ground (arith, i)
rest_of-word (c ∷ s) t w i = ground (arith, w, rest_of-word s t)

-- The first byte of a word is no ':'.
pub word-no_colon : (c : ℕ) (s : Str) → IsWord (c ∷ s) → (c == colon) ≡ false
unfolding needs_trailing_marker
word-no_colon c s w = ground (arith, w)

skip_spaces-space : (s : Str) → skip_spaces (space ∷ s) ≡ skip_spaces s
unfolding skip_spaces
skip_spaces-space s = refl

-- A word is a parameter, and the parser goes on behind it.
pub parse_params-word :
    (fuel : ℕ) (s t : Str)
    → IsWord s
    → IsTail t
    → parse_params (suc fuel) (space ∷ s ++ t) ≡ s ∷ parse_params fuel t
unfolding parse_params param_round
parse_params-word fuel [] t w i = absurd (unfold needs_trailing_marker in cc w)
parse_params-word fuel (c ∷ s) t w i =
    rw
      (
        skip_spaces-space (c ∷ s ++ t),
        skip_spaces-word (c ∷ s) t w,
        word-no_colon c s w,
        before-word (c ∷ s) t (IsWord-no_space (c ∷ s) w) i,
        rest_of-word (c ∷ s) t (IsWord-no_space (c ∷ s) w) i,
      )
      refl

-- Behind ':' everything is one parameter, the last.
pub parse_params-trailing :
    (fuel : ℕ) (s : Str) → parse_params (suc fuel) (space ∷ colon ∷ s) ≡ s ∷ []
unfolding parse_params param_round skip_spaces
parse_params-trailing fuel s = refl

pub parse_params-end : (fuel : ℕ) → parse_params fuel [] ≡ []
unfolding parse_params param_round skip_spaces
parse_params-end zero = refl
parse_params-end (suc fuel) = refl
