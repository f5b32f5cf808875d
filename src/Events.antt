-- ===== src/Events.antt =====
-- EventManager (include/EventManager.hpp): the interface between the server and the event backend.
-- An operation that throws returns `false` beside the state that it left behind.
use Prim.Native.Nat.{bit_and, bit_or}
use irc_relay_server.Prelude.{ℕ, ◌≡◌, Bool, true, Option, some, ◌==◌, not, ◌≢◌}

-- A bit mask, as `EventInterest` is.
abbrev pub EventInterest : Type 0
EventInterest = ℕ

abbrev pub no_interest : EventInterest
no_interest = 0

abbrev pub read_interest : EventInterest
read_interest = 1

abbrev pub write_interest : EventInterest
write_interest = 2

-- `operator|`.
abbrev pub union : EventInterest → EventInterest → EventInterest
union a b = bit_or a b

unfoldable pub has_interest : EventInterest → EventInterest → Bool
has_interest interests expected = not (bit_and interests expected == 0)

pub record Event : Type 0 where
  pub fd : ℕ
  pub interests : EventInterest
  pub error : Bool
  pub hangup : Bool
  pub error_code : ℕ

-- The operations that the server calls, and what it relies on: an update that returns has
-- registered its interests, and changes no other descriptor.
pub record EventManager : Type 1 where
  pub State : Type 0
  pub interest : State → ℕ → Option EventInterest
  pub add_fd : State → ℕ → EventInterest → State × Bool
  pub update_fd : State → ℕ → EventInterest → State × Bool
  pub remove_fd : State → ℕ → State × Bool
  pub updated :
      (s : State) (fd : ℕ) (i : EventInterest)
      → i ≢ 0
      → (update_fd s fd i).1 ≡ true
      → interest (update_fd s fd i).0 fd ≡ some i
  pub update_other :
      (s : State) (fd other : ℕ) (i : EventInterest)
      → fd ≢ other
      → interest (update_fd s fd i).0 other ≡ interest s other
