-- ===== src/World.antt =====
-- The state of the whole program: the fields of `IrcApplication` (src/IrcApplication.hpp) and those
-- of `Server` (include/Server.hpp) that the handlers read or write.
use irc_relay_server.Prelude.{ℕ, Bool, Option, ◌+◌, ◌%◌, ◌^◌}
use irc_relay_server.Prelude.Map.{Map}
use irc_relay_server.Text.{Str}
use irc_relay_server.Channel.{Channel}
use irc_relay_server.Registry.{ClientRegistry}
use irc_relay_server.RuntimeConfig.{RuntimeConfig, ServerConfig}
use irc_relay_server.Connection.{Connection}
use irc_relay_server.Events.{EventManager}

-- `++n` on std::size_t and std::uint64_t.
abbrev pub increment : ℕ → ℕ
increment n = (n + 1) % 2 ^ 64

pub record AppMetrics : Type 0 where
  pub commands_handled : ℕ
  pub messages_relayed : ℕ
  pub rooms_created : ℕ
  pub rate_limited_clients : ℕ
  pub idle_timeouts : ℕ
  pub heartbeat_pings : ℕ

pub record App : Type 0 where
  pub password : Str
  pub runtime : RuntimeConfig
  pub server_name : Str
  pub clients : ClientRegistry
  pub channels : Map Str Channel
  pub metrics : AppMetrics
  pub next_heartbeat_token : ℕ

pub record ServerMetrics : Type 0 where
  pub accepted_connections : ℕ
  pub closed_connections : ℕ
  pub lines_received : ℕ
  pub outbound_queue_drops : ℕ

-- `listen_fd` is `none` where the code holds -1.
pub record Server (em : EventManager) : Type 0 where
  pub config : ServerConfig
  pub listen_fd : Option ℕ
  pub has_manager : Bool
  pub events : em.State
  pub connections : Map ℕ Connection
  pub running : Bool
  pub stop_requested : Bool
  pub metrics : ServerMetrics

pub record World (em : EventManager) : Type 0 where
  pub app : App
  pub server : Server em
