-- ===== src/Text.antt =====
-- Bytes and strings: a `std::string` is the list of its bytes. The functions of <cctype> are those
-- of the "C" locale, which the program never changes.
pub mod Scan
use Prim.Native.Char.{code}
use irc_relay_server.Prelude.{
  ℕ, ◌+◌, ◌-◌, ◌/◌, ◌%◌, ◌≡◌, refl, ◌↔◌, Bool, true, false, ◌&&◌, ◌||◌, List, [], ◌∷◌, ◌++◌, arith,
  ltb, leb, if◌then◌else◌, String, any, zero, suc,
}
use irc_relay_server.Prelude.{◌==◌ as nat_beq}
use irc_relay_server.Prelude.Map.{Key}

abbrev pub Str : Type 0
Str = List ℕ

-- The bytes of a literal, all of which are ASCII.
unfoldable pub text : String → Str
text String.[] = []
text (String.◌∷◌ c s) = code c ∷ text s

-- `operator==` on strings.
unfoldable pub str_eq : Str → Str → Bool
str_eq [] [] = true
str_eq [] (b ∷ t) = false
str_eq (a ∷ s) [] = false
str_eq (a ∷ s) (b ∷ t) = nat_beq a b && str_eq s t

-- `std::less`: lexicographic order on bytes.
unfoldable pub str_less : Str → Str → Bool
str_less [] [] = false
str_less [] (b ∷ t) = true
str_less (a ∷ s) [] = false
str_less (a ∷ s) (b ∷ t) = if ltb a b then true else nat_beq a b && str_less s t

pub str_eq_iff : (s t : Str) → (str_eq s t ≡ true) ↔ (s ≡ t)
unfolding str_eq
str_eq_iff [] [] = (λ h. refl, λ h. refl)
str_eq_iff [] (b ∷ t) = (λ h. cc, λ h. cc)
str_eq_iff (a ∷ s) [] = (λ h. cc, λ h. cc)
str_eq_iff (a ∷ s) (b ∷ t) =
    (λ h. ground (arith, str_eq_iff s t), λ h. ground (arith, str_eq_iff s t))

pub str_eq_refl : (s : Str) → str_eq s s ≡ true
str_eq_refl s = (str_eq_iff s s).1 refl

instance abbrev pub str_key : Key Str
str_key = record { beq = str_eq; less = str_less; beq_iff = str_eq_iff }

-- `std::isdigit`, `std::isspace`, `std::toupper`, `std::tolower` at an `unsigned char`.
abbrev pub is_digit : ℕ → Bool
is_digit c = leb b'0' c && leb c b'9'

abbrev pub is_space : ℕ → Bool
is_space c = nat_beq c 32 || (leb 9 c && leb c 13)

unfoldable pub to_upper : ℕ → ℕ
to_upper c = if leb b'a' c && leb c b'z' then c - 32 else c

unfoldable pub to_lower : ℕ → ℕ
to_lower c = if leb b'A' c && leb c b'Z' then c + 32 else c

pub to_lower_idem : (c : ℕ) → to_lower (to_lower c) ≡ to_lower c
unfolding to_lower
to_lower_idem c = ground arith

pub to_upper_idem : (c : ℕ) → to_upper (to_upper c) ≡ to_upper c
unfolding to_upper
to_upper_idem c = ground arith

-- `s.find(c) != npos`.
abbrev pub has_byte : ℕ → Str → Bool
has_byte c = any (λ x. nat_beq x c)

-- `s[0] == c` at a string that may be empty.
abbrev pub starts_with_byte : ℕ → Str → Bool
starts_with_byte c [] = false
starts_with_byte c (x ∷ s) = nat_beq x c

-- The position of the first `c`, and what lies before and behind it.
unfoldable pub before : ℕ → Str → Str
before c [] = []
before c (x ∷ s) = elim (nat_beq x c) [ true ↦ [] | false ↦ x ∷ before c s ]

unfoldable pub after : ℕ → Str → Str
after c [] = []
after c (x ∷ s) = elim (nat_beq x c) [ true ↦ s | false ↦ after c s ]

-- Decimal digits, as `operator<<` and `std::to_string` write them. `fuel` bounds their number.
unfoldable pub decimal_from : ℕ → ℕ → Str → Str
decimal_from zero n acc = acc
decimal_from (suc fuel) n acc =
    let rest = decimal_from fuel (n / 10) ((b'0' + n % 10) ∷ acc) in
    if ltb n 10 then (b'0' + n) ∷ acc else rest

unfoldable pub decimal : ℕ → Str
decimal n = decimal_from (suc n) n []

abbrev pub cat : List Str → Str
cat [] = []
cat (s ∷ ss) = s ++ cat ss
