-- ===== src/Tests/Names.antt =====
-- The nickname index, with two clients.
use irc_relay_server.Prelude.{◌≡◌, refl, true, none, []}
use irc_relay_server.Prelude.Map.{nat_key, find, insert}
use irc_relay_server.Text.{str_key, text, to_lower, str_eq}
use irc_relay_server.Channel.{canonical_nick}
use irc_relay_server.Registry.{
  ClientState, ClientRegistry, client_state, set_nickname, erase_client, find_fd_by_nickname, state,
}
use irc_relay_server.Registry.Index.{IsIndexed, erase_client-IsIndexed}
use irc_relay_server.Registry.Naming.{set_nickname-IsIndexed, find_fd_by_nickname-set_nickname}

abbrev no_clients : ClientRegistry
no_clients = record { states = []; nickname_index = [] }

no_clients-IsIndexed : IsIndexed no_clients
unfolding find
no_clients-IsIndexed = record { sound = λ n fd e. cc; complete = λ n fd e. cc }

abbrev alice_only : ClientRegistry
alice_only = set_nickname 5 (text "Alice") no_clients

set_nickname-IsIndexed_example : IsIndexed alice_only
unfolding text find_fd_by_nickname find
set_nickname-IsIndexed_example =
    set_nickname-IsIndexed no_clients 5 (text "Alice") refl (λ g e. cc) no_clients-IsIndexed

alice_only-IsIndexed : IsIndexed alice_only
unfolding text find_fd_by_nickname find
alice_only-IsIndexed =
    set_nickname-IsIndexed no_clients 5 (text "Alice") refl (λ g e. cc) no_clients-IsIndexed

erase_client-IsIndexed_example : IsIndexed (erase_client 5 alice_only)
erase_client-IsIndexed_example = erase_client-IsIndexed alice_only 5 alice_only-IsIndexed

find_fd_by_nickname-set_nickname_example :
    find_fd_by_nickname (set_nickname 5 (text "Bob") alice_only) (text "ALICE") ≡ none
unfolding text canonical_nick to_lower state set_nickname find insert str_eq client_state
find_fd_by_nickname-set_nickname_example =
    find_fd_by_nickname-set_nickname alice_only 5 (text "Bob") (text "ALICE")

abbrev alice : ClientState
alice = record client_state { nick = text "Alice"; has_nick = true }

abbrev bob : ClientState
bob = record client_state { nick = text "Bob"; has_nick = true }

abbrev both : ClientRegistry
both = set_nickname 6 (text "Bob") alice_only

both-IsIndexed : IsIndexed both
unfolding text find_fd_by_nickname find set_nickname insert canonical_nick to_lower str_eq
    client_state state
both-IsIndexed =
    set_nickname-IsIndexed alice_only 6 (text "Bob") refl (λ g e. cc) alice_only-IsIndexed
