-- ===== src/Tests/Ending.antt =====
-- The process, from its command line to its end.
use irc_relay_server.Prelude.{ℕ, ◌≡◌, refl, true, false, none, some, [], ◌∷◌, arith}
use irc_relay_server.Text.{text}
use irc_relay_server.RuntimeConfig.{Options, runtime_config, server_config, parse_options}
use irc_relay_server.RuntimeConfig.Ranges.{Verdict, are_options, parse_options-Verdict}
use irc_relay_server.World.{World}
use irc_relay_server.Lifecycle.{Wait}
use irc_relay_server.Lifecycle.Process.{Outer, serve}
use irc_relay_server.Lifecycle.Closing.{IsClosed}
use irc_relay_server.Lifecycle.Ending.{serve-ends}
use irc_relay_server.Tests.{table_events, start}

-- Nothing happens at the sockets.
abbrev pub quiet_wait : Wait
quiet_wait timeout = some []

abbrev pub outer : Outer table_events
outer = record {
  strerror = λ e. [];
  is_ipv4 = λ s. true;
  manager = some [];
  calls = record {
    socket = some 3;
    prepared = true;
    bound = true;
    listening = true;
    bound_port = none;
  };
  rounds =
      record { signalled = false; wait = quiet_wait; clock = 10 }
      ∷ record { signalled = true; wait = quiet_wait; clock = 20 }
      ∷ [];
  last_waits = λ n. quiet_wait;
}

serve-ends_example : (r : World table_events × ℕ) × (serve outer start ≡ some r) × IsClosed r.0
serve-ends_example = serve-ends outer start refl

abbrev pub defaults : Options
defaults = record { runtime = runtime_config; server = server_config }

parse_options-Verdict_example :
    Verdict
      (are_options (text "--idle-timeout=60" ∷ []))
      (parse_options (text "--idle-timeout=60" ∷ []) defaults)
parse_options-Verdict_example =
    parse_options-Verdict (text "--idle-timeout=60" ∷ []) defaults (record {
      count = omega arith;
      window = omega arith;
      idle = omega arith;
      ping = omega arith;
      registration = omega arith;
      pending = omega arith;
      connections = omega arith;
    })
