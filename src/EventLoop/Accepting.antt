-- ===== src/EventLoop/Accepting.antt =====
-- `acceptReadyClients` (src/Server.cpp): the loop over what `accept` returns.
use irc_relay_server.Prelude.{ℕ, Bool, Option, none, some, List, [], ◌∷◌, ◌++◌, if◌then◌else◌}
use irc_relay_server.Text.{Str, text, decimal}
use irc_relay_server.Registry.{MonotonicTime}
use irc_relay_server.Events.{EventManager}
use irc_relay_server.World.{World}
use irc_relay_server.EventLoop.{accept_client}

-- An address with what `inet_ntop` makes of it, and the port in the host's byte order.
pub data PeerStorage : Type 0 where
  ipv4 : Option Str → ℕ → PeerStorage
  ipv6 : Option Str → ℕ → PeerStorage
  other_family : PeerStorage

unfoldable pub format_peer_address : PeerStorage → Str
format_peer_address (ipv4 none port) = text "unknown"
format_peer_address (ipv4 (some address) port) = address ++ text ":" ++ decimal port
format_peer_address (ipv6 none port) = text "unknown"
format_peer_address (ipv6 (some address) port) = text "[" ++ address ++ text "]:" ++ decimal port
format_peer_address other_family = text "unknown"

-- One result of `accept`: a descriptor with its peer, whether its flags and options could be set,
-- and the time that `onConnect` reads; EINTR; EAGAIN or EWOULDBLOCK; another error.
pub data Accept : Type 0 where
  accepted : ℕ → PeerStorage → Bool → MonotonicTime → Accept
  accept_interrupted : Accept
  would_block : Accept
  accept_failed : ℕ → Accept

module _ ⦃em : EventManager⦄ where
  -- The loop ends where the results do.
  unfoldable pub accept_ready_clients : World em → List Accept → World em
  accept_ready_clients w [] = w
  accept_ready_clients w (accepted fd peer prepared now ∷ rest) =
      accept_ready_clients
        (if prepared then accept_client w fd (format_peer_address peer) now else w) rest
  accept_ready_clients w (accept_interrupted ∷ rest) = accept_ready_clients w rest
  accept_ready_clients w (would_block ∷ rest) = w
  accept_ready_clients w (accept_failed errno ∷ rest) = w
