-- ===== src/Channel/Invitations.antt =====
-- Invitations, which hold whatever the case of the letters (src/Channel.cpp).
use irc_relay_server.Prelude.{
  ℕ, ◌≡◌, refl, Bool, true, false, ◌&&◌, ◌||◌, [], ◌∷◌, ◌+◌, leb, ◌==◌, if◌then◌else◌, arith,
}
use irc_relay_server.Prelude.Map.{member-set_insert, member-set_erase}
use irc_relay_server.Text.{Str, str_key, str_eq, to_lower}
use irc_relay_server.Channel.{Channel, canonical_nick, invite, is_invited, clear_invite}

-- A capital of the ASCII letters; the small letter is 32 above it.
abbrev pub is_capital : ℕ → Bool
is_capital c = leb 65 c && leb c 90

abbrev pub same_letter : ℕ → ℕ → Bool
same_letter a b = a == b || (is_capital a && b == a + 32) || (is_capital b && a == b + 32)

-- The same bytes but for the case of the ASCII letters.
unfoldable pub same_nick : Str → Str → Bool
same_nick [] [] = true
same_nick [] (b ∷ t) = false
same_nick (a ∷ s) [] = false
same_nick (a ∷ s) (b ∷ t) = same_letter a b && same_nick s t

to_lower-same_letter : (a b : ℕ) → (to_lower a == to_lower b) ≡ same_letter a b
unfolding to_lower
to_lower-same_letter a b = ground arith

pub canonical_nick-same_nick :
    (s t : Str) → str_eq (canonical_nick s) (canonical_nick t) ≡ same_nick s t
unfolding canonical_nick str_eq same_nick
canonical_nick-same_nick [] [] = refl
canonical_nick-same_nick [] (b ∷ t) = refl
canonical_nick-same_nick (a ∷ s) [] = refl
canonical_nick-same_nick (a ∷ s) (b ∷ t) =
    rw (to_lower-same_letter a b, canonical_nick-same_nick s t) refl

-- After `invite`, the nicknames that are invited are those equal to the one given, up to the case of
-- their letters, and those that were; after `clearInvite`, those that were and are not equal to
-- it up to case.
pub is_invited-invite :
    (c : Channel) (nickname other : Str)
    → (is_invited (invite nickname c) other
        ≡ (if same_nick nickname other then true else is_invited c other))
      × (is_invited (clear_invite nickname c) other
          ≡ (if same_nick nickname other then false else is_invited c other))
unfolding is_invited invite clear_invite
is_invited-invite c nickname other =
    let folded = canonical_nick-same_nick nickname other in
    (
      rw (← folded) (member-set_insert (canonical_nick nickname) (canonical_nick other) c.invited),
      rw (← folded) (member-set_erase (canonical_nick nickname) (canonical_nick other) c.invited),
    )
