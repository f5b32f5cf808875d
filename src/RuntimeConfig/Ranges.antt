-- ===== src/RuntimeConfig/Ranges.antt =====
-- Which command lines `parseOptions` accepts, and what it leaves in the configuration.
use irc_relay_server.Prelude.{
  ℕ, ◌-◌, ◌^◌, ◌≤◌, ◌≡◌, refl, Bool, true, false, ◌&&◌, List, [], ◌∷◌, ◌++◌, leb, ◌<◌,
  if◌then◌else◌, not, is_empty, drop, arith, Bool-cases, inl, inr,
}
use irc_relay_server.Text.{Str, text, has_byte, before, after}
use irc_relay_server.RuntimeConfig.{
  Result, ok, err, ◌>>=◌, Options, parse_size, parse_positive_int, starts_with, parse_rate_limit,
  parse_option, parse_options,
}
use irc_relay_server.RuntimeConfig.Numbers.{value_from, all_digits, parse_unsigned_decimal-value}

-- The digits of a number from `low` to `high`.
unfoldable pub is_number : ℕ → ℕ → Str → Bool
is_number low high s =
    (not (is_empty s) && all_digits s) && (leb low (value_from 0 s) && leb (value_from 0 s) high)

abbrev pub is_count : Str → Bool
is_count = is_number 0 (2 ^ 64 - 1)

abbrev pub is_seconds : Str → Bool
is_seconds = is_number 1 86400

-- A known option with a value that it can have.
unfoldable pub is_option : Str → Bool
is_option arg =
    if starts_with arg (text "--idle-timeout=")
    then is_seconds (drop 15 arg)
    else if starts_with arg (text "--ping-timeout=")
    then is_seconds (drop 15 arg)
    else if starts_with arg (text "--registration-timeout=")
    then is_seconds (drop 23 arg)
    else if starts_with arg (text "--rate-limit=")
    then has_byte b':' (drop 13 arg)
      && (is_count (before b':' (drop 13 arg)) && is_seconds (after b':' (drop 13 arg)))
    else if starts_with arg (text "--max-pending-bytes=")
    then is_count (drop 20 arg)
    else if starts_with arg (text "--max-connections=")
    then is_count (drop 18 arg)
    else false

abbrev pub are_options : List Str → Bool
are_options [] = true
are_options (arg ∷ args) = is_option arg && are_options args

-- Every time is from 1 to 86400 seconds, and every count is one of std::size_t.
pub record IsRanged (o : Options) : Type 0 where
  pub count : o.runtime.rate_limit_count < 2 ^ 64
  pub window :
      (1 ≤ o.runtime.rate_limit_window_seconds) × (o.runtime.rate_limit_window_seconds ≤ 86400)
  pub idle : (1 ≤ o.runtime.idle_timeout_seconds) × (o.runtime.idle_timeout_seconds ≤ 86400)
  pub ping : (1 ≤ o.runtime.ping_timeout_seconds) × (o.runtime.ping_timeout_seconds ≤ 86400)
  pub registration :
      (1 ≤ o.runtime.registration_timeout_seconds)
      × (o.runtime.registration_timeout_seconds ≤ 86400)
  pub pending : o.server.max_pending_bytes < 2 ^ 64
  pub connections : o.server.max_connections < 2 ^ 64

-- A result that is in range exactly where `b` holds, and an error elsewhere.
pub data Verdict (b : Bool) : Result Options → Type 0 where
  accepts : (o : Options) → b ≡ true → IsRanged o → Verdict b (ok o)
  rejects : (message : Str) → b ≡ false → Verdict b (err message)

parse_size-value :
    (s name : Str)
    → parse_size s name ≡ (
        if is_count s
        then ok (value_from 0 s)
        else err (name ++ text " must be an unsigned integer"))
unfolding parse_size is_number
parse_size-value s name =
    rw
      (parse_unsigned_decimal-value (2 ^ 64) (2 ^ 64 - 1)
        (name ++ text " must be an unsigned integer") s (omega arith) (omega arith))
      (ground arith)

parse_positive_int-value :
    (s name : Str)
    → parse_positive_int s name ≡ (
        if is_seconds s
        then ok (value_from 0 s)
        else err (name ++ text " must be a positive integer"))
unfolding parse_positive_int is_number
parse_positive_int-value s name =
    rw
      (parse_unsigned_decimal-value (2 ^ 32) 86400 (name ++ text " must be a positive integer") s
        (omega arith) (omega arith))
      (ground arith)

is_seconds-range : (s : Str) → is_seconds s ≡ true → (1 ≤ value_from 0 s) × (value_from 0 s ≤ 86400)
unfolding is_number
is_seconds-range s t = ground (arith, t)

is_count-range : (s : Str) → is_count s ≡ true → value_from 0 s < 2 ^ 64
unfolding is_number
is_count-range s t = ground (arith, t)

-- An option that sets one time or one count.
seconds-Verdict :
    (s name : Str) (set : ℕ → Options)
    → ((n : ℕ) → 1 ≤ n → n ≤ 86400 → IsRanged (set n))
    → Verdict (is_seconds s) (parse_positive_int s name >>= λ n. ok (set n))
seconds-Verdict s name set ranged = elim (Bool-cases (is_seconds s)) [
  | inl t ↦
      rw (parse_positive_int-value s name, t)
        (accepts (set (value_from 0 s)) refl
          (ranged (value_from 0 s) (is_seconds-range s t).0 (is_seconds-range s t).1))
  | inr f ↦ rw (parse_positive_int-value s name, f) (rejects _ refl)
]

count-Verdict :
    (s name : Str) (set : ℕ → Options)
    → ((n : ℕ) → n < 2 ^ 64 → IsRanged (set n))
    → Verdict (is_count s) (parse_size s name >>= λ n. ok (set n))
count-Verdict s name set ranged = elim (Bool-cases (is_count s)) [
  | inl t ↦
      rw (parse_size-value s name, t)
        (accepts (set (value_from 0 s)) refl (ranged (value_from 0 s) (is_count-range s t)))
  | inr f ↦ rw (parse_size-value s name, f) (rejects _ refl)
]

rate_limit-Verdict :
    (s : Str) (o : Options)
    → IsRanged o
    → Verdict
        (has_byte b':' s && (is_count (before b':' s) && is_seconds (after b':' s)))
        (parse_rate_limit s o)
unfolding parse_rate_limit
rate_limit-Verdict s o h = elim (Bool-cases (has_byte b':' s)) [
  | inr f ↦ rw (f, parse_rate_limit) (rejects _ refl)
  | inl t ↦ elim (Bool-cases (is_count (before b':' s))) [
    | inr f ↦
        rw (t, parse_rate_limit, parse_size-value (before b':' s) (text "rate limit count"), f)
          (rejects _ refl)
    | inl c ↦
        let count = value_from 0 (before b':' s) in
        rw (t, parse_rate_limit, parse_size-value (before b':' s) (text "rate limit count"), c)
          (seconds-Verdict (after b':' s) (text "rate limit window")
            (λ n. record o {
              runtime = record o.runtime {
                rate_limit_count = count;
                rate_limit_window_seconds = n;
              };
            })
            (λ n low high. record {
              count = is_count-range (before b':' s) c;
              window = (low, high);
              idle = h.idle;
              ping = h.ping;
              registration = h.registration;
              pending = h.pending;
              connections = h.connections;
            }))
  ]
]

choose :
    (b : Bool) {c d : Bool} {x y : Result Options}
    → Verdict c x
    → Verdict d y
    → Verdict (if b then c else d) (if b then x else y)
choose true p q = p
choose false p q = q

option-Verdict :
    (arg : Str) (o : Options) → IsRanged o → Verdict (is_option arg) (parse_option arg o)
unfolding parse_option is_option
option-Verdict arg o h =
    choose (starts_with arg (text "--idle-timeout="))
      (seconds-Verdict (drop 15 arg) _ _ (λ n low high. record {
        count = h.count;
        window = h.window;
        idle = (low, high);
        ping = h.ping;
        registration = h.registration;
        pending = h.pending;
        connections = h.connections;
      }))
      (choose (starts_with arg (text "--ping-timeout="))
        (seconds-Verdict (drop 15 arg) _ _ (λ n low high. record {
          count = h.count;
          window = h.window;
          idle = h.idle;
          ping = (low, high);
          registration = h.registration;
          pending = h.pending;
          connections = h.connections;
        }))
        (choose (starts_with arg (text "--registration-timeout="))
          (seconds-Verdict (drop 23 arg) _ _ (λ n low high. record {
            count = h.count;
            window = h.window;
            idle = h.idle;
            ping = h.ping;
            registration = (low, high);
            pending = h.pending;
            connections = h.connections;
          }))
          (choose (starts_with arg (text "--rate-limit=")) (rate_limit-Verdict (drop 13 arg) o h) (
            choose (starts_with arg (text "--max-pending-bytes="))
              (count-Verdict (drop 20 arg) _ _ (λ n small. record {
                count = h.count;
                window = h.window;
                idle = h.idle;
                ping = h.ping;
                registration = h.registration;
                pending = small;
                connections = h.connections;
              }))
              (choose (starts_with arg (text "--max-connections="))
                (count-Verdict (drop 18 arg) _ _ (λ n small. record {
                  count = h.count;
                  window = h.window;
                  idle = h.idle;
                  ping = h.ping;
                  registration = h.registration;
                  pending = h.pending;
                  connections = small;
                }))
                (rejects _ refl))))))

then-Verdict :
    {b c : Bool} {r : Result Options} (next : Options → Result Options)
    → Verdict b r
    → ((o : Options) → IsRanged o → Verdict c (next o))
    → Verdict (b && c) (r >>= next)
then-Verdict next (accepts o t h) more = rw t (more o h)
then-Verdict next (rejects message f) more = rw f (rejects message refl)

-- `parseOptions` accepts exactly the arguments that are all known options with a value that they
-- can have, and reports an error for every other list; what it leaves then is in range, if it was
-- before: every time from 1 to 86400 seconds, every count one of std::size_t.
pub parse_options-Verdict :
    (args : List Str) (o : Options) → IsRanged o → Verdict (are_options args) (parse_options args o)
unfolding parse_options
parse_options-Verdict [] o h = accepts o refl h
parse_options-Verdict (arg ∷ args) o h =
    then-Verdict (parse_options args) (option-Verdict arg o h) (parse_options-Verdict args)
