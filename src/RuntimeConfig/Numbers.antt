-- ===== src/RuntimeConfig/Numbers.antt =====
-- What `parseUnsignedDecimal` accepts, and with it the options that take a number.
use irc_relay_server.Prelude.{
  ℕ, ◌+◌, ◌-◌, ◌*◌, ◌/◌, ◌%◌, ◌^◌, ◌≡◌, refl, ◌↔◌, ◌<◌, ◌≤◌, Bool, true, false, ◌&&◌, ◌||◌, [], ◌∷◌,
  ltb, leb, ◌==◌, if◌then◌else◌, not, is_empty, arith, Bool-cases, inl, inr,
}
use native.Mathlib.Nat.{mod-eq_of_lt}
use irc_relay_server.Text.{Str, text, is_digit}
use irc_relay_server.RuntimeConfig.{ok, err, parse_digits, parse_unsigned_decimal, parse_port}

-- The number that digits behind `parsed` stand for, without any bound.
unfoldable pub value_from : ℕ → Str → ℕ
value_from parsed [] = parsed
value_from parsed (c ∷ s) = value_from (parsed * 10 + (c - b'0')) s

unfoldable pub all_digits : Str → Bool
all_digits [] = true
all_digits (c ∷ s) = is_digit c && all_digits s

value_from-grows : (parsed : ℕ) (s : Str) → parsed ≤ value_from parsed s
unfolding value_from
value_from-grows parsed [] = omega arith
value_from-grows parsed (c ∷ s) = omega (arith, value_from-grows (parsed * 10 + (c - b'0')) s)

-- Where the test before the multiplication passes, nothing wraps around.
small_digit : (c : ℕ) → is_digit c ≡ true → c - b'0' ≤ 9
small_digit c digit = ground (arith, digit)

-- The test before the multiplication is exact.
fits_test :
    (maximum parsed d : ℕ)
    → d ≤ 9
    → (ltb (maximum / 10) parsed || (parsed == maximum / 10 && ltb (maximum % 10) d))
      ≡ ltb maximum (parsed * 10 + d)
fits_test maximum parsed d b = ground (arith, b)

parse_digits-value :
    (modulus maximum parsed : ℕ) (message s : Str)
    → maximum < modulus
    → 10 ≤ modulus
    → parsed ≤ maximum
    → parse_digits modulus maximum message parsed s ≡ (
        if all_digits s && leb (value_from parsed s) maximum
        then ok (value_from parsed s)
        else err message)
unfolding parse_digits all_digits value_from
parse_digits-value modulus maximum parsed message [] fits ten small = ground (arith, small)
parse_digits-value modulus maximum parsed message (c ∷ s) fits ten small =
    elim (Bool-cases (is_digit c)) [
      | inr no_digit ↦ rw no_digit refl
      | inl digit ↦
          let d : c - b'0' ≤ 9 = small_digit c digit in
          rw
            (
              digit,
              mod-eq_of_lt {n = c - b'0'} {m = modulus} (omega (arith, d)),
              fits_test maximum parsed (c - b'0') d,
            )
            (elim (Bool-cases (ltb maximum (parsed * 10 + (c - b'0')))) [
              | inl over ↦ ground (arith, over, value_from-grows (parsed * 10 + (c - b'0')) s)
              | inr under ↦
                  let bound : parsed * 10 + (c - b'0') ≤ maximum = ground (arith, under) in
                  rw
                    (
                      under,
                      mod-eq_of_lt {n = parsed * 10 + (c - b'0')} {m = modulus}
                          (omega (arith, bound)),
                    )
                    (parse_digits-value modulus maximum (parsed * 10 + (c - b'0')) message s fits
                      ten bound)
            ])
    ]

-- At a type of `modulus` values, of which `maximum` is one, `parseUnsignedDecimal` returns the number
-- that a string of digits stands for where that is at most `maximum`, and reports an error for every
-- other string: nothing wraps around.
pub parse_unsigned_decimal-value :
    (modulus maximum : ℕ) (message s : Str)
    → maximum < modulus
    → 10 ≤ modulus
    → parse_unsigned_decimal modulus maximum message s ≡ (
        if not (is_empty s) && all_digits s && leb (value_from 0 s) maximum
        then ok (value_from 0 s)
        else err message)
unfolding parse_unsigned_decimal
parse_unsigned_decimal-value modulus maximum message s fits ten =
    ground (arith, parse_digits-value modulus maximum 0 message s fits ten (omega arith))

parse_port-value :
    (s : Str)
    → parse_port s ≡ (
        if not (is_empty s)
          && all_digits s
          && leb (value_from 0 s) 65535
          && not (value_from 0 s == 0)
        then ok (value_from 0 s)
        else err (text "port must be an integer from 1 to 65535"))
unfolding parse_port
parse_port-value s =
    rw
      (parse_unsigned_decimal-value (2 ^ 16) 65535 (text "port must be an integer from 1 to 65535")
        s (omega arith) (omega arith))
      (ground arith)

-- `parsePort` accepts exactly the digits of a number from 1 to 65535, and returns that number.
pub parse_port_iff :
    (s : Str) (n : ℕ)
    → (parse_port s ≡ ok n) ↔ (
        (is_empty s ≡ false) × (all_digits s ≡ true) × (value_from 0 s ≡ n) × (1 ≤ n) × (n ≤ 65535))
parse_port_iff s n =
    (λ h. ground (arith, h, parse_port-value s), λ h. ground (arith, h, parse_port-value s))
