-- ===== src/Registry.antt =====
-- ClientRegistry (src/ClientRegistry.hpp, src/ClientRegistry.cpp): the state of each client by its
-- descriptor, and the index from the canonical nickname to the descriptor. A descriptor is a
-- number; -1, which stands for no descriptor, is `none`.
pub mod Naming
pub mod Index
use irc_relay_server.Prelude.{
  ℕ, ◌≡◌, refl, Bool, true, false, List, [], ◌∷◌, is_empty, if◌then◌else◌, Option, none, some,
  or_default, ◌*◌, ◌^◌,
}
use irc_relay_server.Prelude.Map.{Map, nat_key, find, insert, erase, keys, contains}
use irc_relay_server.Text.{Str, str_key, text}
use irc_relay_server.Channel.{canonical_nick}

-- A point of the steady clock, in nanoseconds from its epoch.
abbrev pub MonotonicTime : Type 0
MonotonicTime = ℕ

abbrev pub second : ℕ
second = 1_000_000_000

pub record ClientState : Type 0 where
  pub fd : Option ℕ
  pub pass_ok : Bool
  pub has_nick : Bool
  pub has_user : Bool
  pub registered : Bool
  pub awaiting_pong : Bool
  pub nick : Str
  pub user : Str
  pub realname : Str
  pub host : Str
  pub pending_pong_token : Str
  pub connected_at : MonotonicTime
  pub last_activity_at : MonotonicTime
  pub last_ping_at : MonotonicTime
  -- the oldest time first
  pub command_window : List MonotonicTime

unfoldable pub client_state : ClientState
unfolding text
client_state = record {
  fd = none;
  pass_ok = false;
  has_nick = false;
  has_user = false;
  registered = false;
  awaiting_pong = false;
  nick = [];
  user = [];
  realname = [];
  host = text "localhost";
  pending_pong_token = [];
  connected_at = 0;
  last_activity_at = 0;
  last_ping_at = 0;
  command_window = [];
}

pub record ClientRegistry : Type 0 where
  pub states : Map ℕ ClientState
  pub nickname_index : Map Str ℕ

unfoldable pub find_client : ClientRegistry → ℕ → Option ClientState
find_client r fd = find fd r.states

-- `_states[fd]`, which creates the entry where there is none: `put_state` writes it back.
unfoldable pub state : ClientRegistry → ℕ → ClientState
state r fd = or_default client_state (find fd r.states)

unfoldable pub put_state : ℕ → ClientState → ClientRegistry → ClientRegistry
put_state fd client r = record r { states = insert fd client r.states }

unfoldable pub contains_client : ClientRegistry → ℕ → Bool
contains_client r fd = contains fd r.states

unfoldable pub fds : ClientRegistry → List ℕ
fds r = keys r.states

unfoldable pub find_fd_by_nickname : ClientRegistry → Str → Option ℕ
find_fd_by_nickname r nickname = find (canonical_nick nickname) r.nickname_index

-- The entry of the nickname that a client gives up.
abbrev pub drop_nick : Str → Map Str ℕ → Map Str ℕ
drop_nick nick index = if is_empty nick then index else erase (canonical_nick nick) index

unfoldable pub set_nickname : ℕ → Str → ClientRegistry → ClientRegistry
set_nickname fd nickname r =
    let client = state r fd in
    record {
      states = insert fd (record client { nick = nickname; has_nick = true }) r.states;
      nickname_index = insert (canonical_nick nickname) fd (drop_nick client.nick r.nickname_index);
    }

unfoldable pub erase_client : ℕ → ClientRegistry → ClientRegistry
erase_client fd r = elim (find fd r.states) [
  | none ↦ r
  | some client ↦ record {
    states = erase fd r.states;
    nickname_index = drop_nick client.nick r.nickname_index;
  }
]
