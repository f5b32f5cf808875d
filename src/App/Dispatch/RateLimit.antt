-- ===== src/App/Dispatch/RateLimit.antt =====
-- The rate limit: the window of a client holds exactly the times of its recent commands.
use irc_relay_server.Prelude.{
  ℕ, ◌+◌, ◌≡◌, refl, ◌≤◌, true, false, ◌&&◌, ◌||◌, inl, inr, List, [], ◌∷◌, ◌++◌, not, length, leb,
  ltb, ◌==◌, arith, Bool-cases, All, All-append, if◌then◌else◌, length-append,
}
use irc_relay_server.Prelude.Map.{nat_key}
use irc_relay_server.Registry.{MonotonicTime, state}
use irc_relay_server.Events.{EventManager}
use irc_relay_server.World.{World}
use irc_relay_server.App.Support.{with_client}
use irc_relay_server.App.Dispatch.{has_passed, trim_window, next_window, record_command}

-- The times of the last `seconds` seconds, by a look at each.
abbrev pub recent : ℕ → MonotonicTime → List MonotonicTime → List MonotonicTime
recent seconds now [] = []
recent seconds now (t ∷ ts) =
    if has_passed seconds t now then recent seconds now ts else t ∷ recent seconds now ts

-- The oldest time first, and none after `now`.
abbrev pub IsAscending : List MonotonicTime → Type 0
IsAscending [] = Unit
IsAscending (t ∷ ts) = All (λ u. t ≤ u) ts × IsAscending ts

recent-All :
    (seconds : ℕ) (now t : MonotonicTime) (ts : List MonotonicTime)
    → has_passed seconds t now ≡ false
    → All (λ u. t ≤ u) ts
    → recent seconds now ts ≡ ts
recent-All seconds now t [] h a = refl
recent-All seconds now t (u ∷ ts) h a = ground (arith, h, a.0, recent-All seconds now t ts h a.1)

-- The loop that stops at the first recent time keeps the recent times.
pub trim_window-recent :
    (seconds : ℕ) (now : MonotonicTime) (ts : List MonotonicTime)
    → IsAscending ts
    → trim_window seconds now ts ≡ recent seconds now ts
unfolding trim_window
trim_window-recent seconds now [] a = refl
trim_window-recent seconds now (t ∷ ts) a = elim (Bool-cases (has_passed seconds t now)) [
  | inl old ↦ ground (arith, old, trim_window-recent seconds now ts a.1)
  | inr new ↦ ground (arith, new, recent-All seconds now t ts new a.0)
]

recent-below :
    (seconds : ℕ) (now k : MonotonicTime) (ts : List MonotonicTime)
    → All (λ u. k ≤ u) ts
    → All (λ u. k ≤ u) (recent seconds now ts)
recent-below seconds now k [] a = tt
recent-below seconds now k (t ∷ ts) a = elim (Bool-cases (has_passed seconds t now)) [
  | inl old ↦ rw old (recent-below seconds now k ts a.1)
  | inr new ↦ rw new (a.0, recent-below seconds now k ts a.1)
]

recent-IsAscending :
    (seconds : ℕ) (now : MonotonicTime) (ts : List MonotonicTime)
    → IsAscending ts
    → IsAscending (recent seconds now ts)
recent-IsAscending seconds now [] a = tt
recent-IsAscending seconds now (t ∷ ts) a = elim (Bool-cases (has_passed seconds t now)) [
  | inl old ↦ rw old (recent-IsAscending seconds now ts a.1)
  | inr new ↦ rw new (recent-below seconds now t ts a.0, recent-IsAscending seconds now ts a.1)
]

recent-past :
    (seconds : ℕ) (now : MonotonicTime) (ts : List MonotonicTime)
    → All (λ u. u ≤ now) ts
    → All (λ u. u ≤ now) (recent seconds now ts)
recent-past seconds now [] a = tt
recent-past seconds now (t ∷ ts) a = elim (Bool-cases (has_passed seconds t now)) [
  | inl old ↦ rw old (recent-past seconds now ts a.1)
  | inr new ↦ rw new (a.0, recent-past seconds now ts a.1)
]

IsAscending-snoc :
    (now : MonotonicTime) (ts : List MonotonicTime)
    → IsAscending ts
    → All (λ u. u ≤ now) ts
    → IsAscending (ts ++ now ∷ [])
IsAscending-snoc now [] a p = (tt, tt)
IsAscending-snoc now (t ∷ ts) a p =
    (All-append (λ u. t ≤ u) ts (now ∷ []) a.0 (p.0, tt), IsAscending-snoc now ts a.1 p.1)

-- The window of a client stays in its order, and none of its times after the last command, as long as
-- the clock does not go back.
pub next_window-IsAscending :
    (seconds : ℕ) (now : MonotonicTime) (ts : List MonotonicTime)
    → IsAscending ts
    → All (λ u. u ≤ now) ts
    → IsAscending (next_window seconds now ts) × All (λ u. u ≤ now) (next_window seconds now ts)
unfolding next_window
next_window-IsAscending seconds now ts a p = rw (trim_window-recent seconds now ts a) (
  IsAscending-snoc now (recent seconds now ts) (recent-IsAscending seconds now ts a)
      (recent-past seconds now ts p),
  All-append (λ u. u ≤ now) (recent seconds now ts) (now ∷ []) (recent-past seconds now ts p)
      (omega arith, tt),
)

module _ ⦃em : EventManager⦄ (w : World em) (fd : ℕ) (now : MonotonicTime) where
  abbrev window_at : List MonotonicTime
  window_at =
      recent w.app.runtime.rate_limit_window_seconds now (state w.app.clients fd).command_window

  -- A command is let through exactly where the limit is off, or the client's commands of the window,
  -- this one among them, are at most the limit; then the client's window holds their times, and
  -- nothing else of the state has changed.
  pub record_command-accepts :
      IsAscending (state w.app.clients fd).command_window
      → ((record_command w fd now).1 ≡ (
          w.app.runtime.rate_limit_count == 0
          || leb (length window_at + 1) w.app.runtime.rate_limit_count))
        × ((record_command w fd now).1 ≡ true
            → (record_command w fd now).0
              ≡ with_client fd
                  (record (state w.app.clients fd) { command_window = window_at ++ now ∷ [] })
                  w)
  unfolding record_command next_window
  record_command-accepts a =
      let limit = w.app.runtime.rate_limit_count in
      rw
        (
          trim_window-recent w.app.runtime.rate_limit_window_seconds now
              (state w.app.clients fd).command_window a,
          length-append window_at (now ∷ []),
        )
        (elim (Bool-cases (not (limit == 0) && ltb limit (length window_at + 1))) [
          | inl over ↦ rw over (ground (arith, over), λ t. absurd cc)
          | inr fits ↦ rw fits (ground (arith, fits), λ t. refl)
        ])
