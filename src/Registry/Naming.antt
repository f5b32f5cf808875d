-- ===== src/Registry/Naming.antt =====
-- What a rename does to the nickname index, and that nicknames are unique.
use irc_relay_server.Prelude.{
  ℕ, ◌≡◌, ◌≢◌, refl, false, none, some, is_empty, if◌then◌else◌, arith, ==_iff,
}
use irc_relay_server.Prelude.{◌==◌ as nat_beq}
use irc_relay_server.Prelude.Map.{nat_key, find, find-insert}
use irc_relay_server.Text.{Str, str_key, str_eq, str_eq_iff}
use irc_relay_server.Channel.{canonical_nick}
use irc_relay_server.Registry.{
  ClientState, ClientRegistry, client_state, find_client, state, set_nickname, find_fd_by_nickname,
  drop_nick,
}
use irc_relay_server.Registry.Index.{named, IsIndexed, find-drop_nick}

-- Nobody else has the nickname, up to case.
abbrev pub IsFree : ClientRegistry → ℕ → Str → Type 0
IsFree r fd nickname = (g : ℕ) → find_fd_by_nickname r nickname ≡ some g → g ≡ fd

named-set_nickname :
    (r : ClientRegistry) (fd g : ℕ) (nickname : Str)
    → is_empty nickname ≡ false
    → named (find g (set_nickname fd nickname r).states)
      ≡ (if nat_beq fd g then some (canonical_nick nickname) else named (find g r.states))
unfolding set_nickname
named-set_nickname r fd g nickname full = rw (find-insert fd g _ r.states) (ground arith)

index-set_nickname :
    (r : ClientRegistry) (fd : ℕ) (nickname n : Str)
    → find n (set_nickname fd nickname r).nickname_index ≡ (
        if str_eq (canonical_nick nickname) n
        then some fd
        else find n (drop_nick (state r fd).nick r.nickname_index))
unfolding set_nickname
index-set_nickname r fd nickname n = find-insert (canonical_nick nickname) n fd _

-- What the client at `fd` was called.
named-state :
    (r : ClientRegistry) (fd : ℕ)
    → named (find fd r.states)
      ≡ (if is_empty (state r fd).nick then none else some (canonical_nick (state r fd).nick))
unfolding state client_state
named-state r fd = ground arith

-- A nickname that is not empty and that nobody else has, up to case, can be given to a client: the
-- index stays exact.
pub set_nickname-IsIndexed :
    (r : ClientRegistry) (fd : ℕ) (nickname : Str)
    → is_empty nickname ≡ false
    → IsFree r fd nickname
    → IsIndexed r
    → IsIndexed (set_nickname fd nickname r)
unfolding find_fd_by_nickname
set_nickname-IsIndexed r fd nickname full free i = record {
  sound = λ n g h. ground (
    arith,
    full,
    h,
    named-set_nickname r fd g nickname full,
    index-set_nickname r fd nickname n,
    find-drop_nick n (state r fd).nick r.nickname_index,
    i.sound n g,
    ==_iff fd g,
    str_eq_iff (canonical_nick nickname) n,
    str_eq_iff (canonical_nick (state r fd).nick) n,
    named-state r fd,
  );
  complete = λ n g h. ground (
    arith,
    full,
    h,
    named-set_nickname r fd g nickname full,
    index-set_nickname r fd nickname n,
    find-drop_nick n (state r fd).nick r.nickname_index,
    i.complete n g,
    ==_iff fd g,
    str_eq_iff (canonical_nick nickname) n,
    str_eq_iff (canonical_nick (state r fd).nick) n,
    named-state r fd,
    i.complete n fd,
    free g,
  );
}

same_nickname :
    (r : ClientRegistry) (f g : ℕ) (c d : ClientState)
    → IsIndexed r
    → find_client r f ≡ some c
    → find_client r g ≡ some d
    → is_empty c.nick ≡ false
    → is_empty d.nick ≡ false
    → canonical_nick c.nick ≡ canonical_nick d.nick
    → f ≡ g
unfolding find_client
same_nickname r f g c d i e e' full full' same = ground (
  arith,
  e,
  e',
  full,
  full',
  same,
  i.complete (canonical_nick c.nick) f,
  i.complete (canonical_nick c.nick) g,
)

-- While the index is exact, two different clients never have the same nickname, up to case.
pub nickname_unique :
    (r : ClientRegistry) (f g : ℕ) (c d : ClientState)
    → IsIndexed r
    → f ≢ g
    → find_client r f ≡ some c
    → find_client r g ≡ some d
    → is_empty c.nick ≡ false
    → is_empty d.nick ≡ false
    → canonical_nick c.nick ≢ canonical_nick d.nick
nickname_unique r f g c d i ne e e' full full' same =
    ne (same_nickname r f g c d i e e' full full' same)

-- Behind a rename the new nickname leads to the client, the old one, if it differs by more than
-- case, to nobody, and every other name where it led before.
pub find_fd_by_nickname-set_nickname :
    (r : ClientRegistry) (fd : ℕ) (nickname other : Str)
    → find_fd_by_nickname (set_nickname fd nickname r) other ≡ (
        if str_eq (canonical_nick nickname) (canonical_nick other)
        then some fd
        else (if is_empty (state r fd).nick
            then find_fd_by_nickname r other
            else (if str_eq (canonical_nick (state r fd).nick) (canonical_nick other)
                then none
                else find_fd_by_nickname r other)))
unfolding find_fd_by_nickname
find_fd_by_nickname-set_nickname r fd nickname other =
    rw (index-set_nickname r fd nickname (canonical_nick other))
      (rw (find-drop_nick (canonical_nick other) (state r fd).nick r.nickname_index) refl)
