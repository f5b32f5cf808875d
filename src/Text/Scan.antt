-- ===== src/Text/Scan.antt =====
-- What lies before and behind the first occurrence of a byte.
use irc_relay_server.Prelude.{ℕ, ◌≡◌, refl, ◌<◌, true, false, List, [], ◌∷◌, ◌++◌, length, arith}
use irc_relay_server.Text.{Str, has_byte, before, after}

-- The bytes of frames, a line feed behind each.
abbrev pub glue : List Str → Str
glue [] = []
glue (f ∷ fs) = f ++ 10 ∷ glue fs

module _ (c : ℕ) where
  pub before-byte-after : (s : Str) → has_byte c s ≡ true → before c s ++ c ∷ after c s ≡ s
  unfolding before after
  before-byte-after [] h = cc
  before-byte-after (x ∷ s) h = ground (arith, h, before-byte-after s)

  pub has_byte-before : (s : Str) → has_byte c (before c s) ≡ false
  unfolding before
  has_byte-before [] = refl
  has_byte-before (x ∷ s) = ground (arith, has_byte-before s)

  pub length-after-lt : (s : Str) → has_byte c s ≡ true → length (after c s) < length s
  unfolding after
  length-after-lt [] h = cc
  length-after-lt (x ∷ s) h = ground (arith, h, length-after-lt s)

  pub before-none : (s : Str) → has_byte c s ≡ false → before c s ≡ s
  unfolding before
  before-none [] h = refl
  before-none (x ∷ s) h = ground (arith, h, before-none s)

  pub has_byte-append : (s t : Str) → has_byte c (s ++ t) ≡ false → has_byte c s ≡ false
  has_byte-append [] t h = refl
  has_byte-append (x ∷ s) t h = ground (arith, h, has_byte-append s t)

  -- Behind a text without the byte, the byte comes first.
  pub before-append : (s t : Str) → has_byte c s ≡ false → before c (s ++ c ∷ t) ≡ s
  unfolding before
  before-append [] t h = ground arith
  before-append (x ∷ s) t h = ground (arith, h, before-append s t)

  pub after-append : (s t : Str) → has_byte c s ≡ false → after c (s ++ c ∷ t) ≡ t
  unfolding after
  after-append [] t h = ground arith
  after-append (x ∷ s) t h = ground (arith, h, after-append s t)

pub has_byte-middle : (c : ℕ) (s t : Str) → has_byte c (s ++ c ∷ t) ≡ true
has_byte-middle c [] t = ground arith
has_byte-middle c (x ∷ s) t = ground (arith, has_byte-middle c s t)
