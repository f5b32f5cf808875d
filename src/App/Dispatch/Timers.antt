-- ===== src/App/Dispatch/Timers.antt =====
-- What the timers do to one client (`maintainClient` of src/IrcApplication.cpp).
use irc_relay_server.Prelude.{
  ℕ, ◌≡◌, refl, sym, ◌∙◌, Bool, true, false, ◌&&◌, ◌||◌, some, not, if◌then◌else◌, arith,
  Option-cases, Bool-cases, inl, inr, ==_iff, ◌==◌, [], ◌∷◌,
}
use irc_relay_server.Prelude.Map.{nat_key, find, find-modify, find-insert, modify}
use irc_relay_server.Text.{Str, text}
use irc_relay_server.Registry.{
  ClientState, MonotonicTime, ClientRegistry, find_client, put_state, erase_client,
}
use irc_relay_server.Registry.Index.{erased-find, erase_client-absent}
use irc_relay_server.Replies.{format_message}
use irc_relay_server.Connection.{Connection, queue_line}
use irc_relay_server.Connection.{request_close as close_connection}
use irc_relay_server.Events.{EventManager}
use irc_relay_server.World.{App, World, increment}
use irc_relay_server.Server.{find_connection, modify_connection}
use irc_relay_server.App.Relay.{forget, with_app, send_raw}
use irc_relay_server.App.Relay.Steps.{keeps_app, send_raw-path}
use irc_relay_server.App.Relay.Results.{send_raw-true, can_take, send_raw-result}
use irc_relay_server.App.Support.{request_close, with_client}
use irc_relay_server.App.Dispatch.{
  has_passed, heartbeat_token, count_heartbeat, send_heartbeat, maintain_found, maintain_client,
}

-- A client that takes too long to register, or to answer a PING.
abbrev pub is_overdue : App → ClientState → MonotonicTime → Bool
is_overdue app client now =
    (not client.registered
      && has_passed app.runtime.registration_timeout_seconds client.connected_at now)
    || (not (app.runtime.idle_timeout_seconds == 0)
        && (client.awaiting_pong
            && has_passed app.runtime.ping_timeout_seconds client.last_ping_at now))

-- A client that has been silent and is not waited for yet.
abbrev pub is_due : App → ClientState → MonotonicTime → Bool
is_due app client now =
    not (app.runtime.idle_timeout_seconds == 0)
    && (not client.awaiting_pong
        && has_passed app.runtime.idle_timeout_seconds client.last_activity_at now)

-- The client that a PING with the token is sent to.
abbrev pub asked : ClientState → Str → MonotonicTime → ClientState
asked client token now = record client {
  awaiting_pong = true;
  pending_pong_token = token;
  last_ping_at = now;
}

erase_client-found :
    (r : ClientRegistry) (k fd : ℕ) (client : ClientState)
    → find_client (erase_client k r) fd ≡ some client
    → find_client r fd ≡ some client
unfolding find_client
erase_client-found r k fd client e = elim (Option-cases (find k r.states)) [
  | inl absent ↦ rw (erase_client-absent r k absent) at e
  | inr (gone, found) ↦ ground (arith, erased-find r k fd gone found, e)
]

module _ ⦃em : EventManager⦄ where
  -- The client's connection is closed, or is to be once its bytes are written.
  abbrev pub IsClosing : World em → ℕ → Type 0
  IsClosing w fd = (c : Connection) → find_connection w fd ≡ some c → c.close_requested ≡ true

  pub request_close-IsClosing :
      (w : World em) (fd : ℕ) (reason : Str) → IsClosing (request_close w fd reason) fd
  unfolding request_close modify_connection find_connection close_connection
  request_close-IsClosing w fd reason c e = elim (Option-cases (find fd w.server.connections)) [
    | inl absent ↦ ground (
      arith,
      e,
      absent,
      ==_iff fd fd,
      find-modify fd fd (close_connection reason) w.server.connections,
    )
    | inr (before, found) ↦ ground (
      arith,
      e,
      found,
      ==_iff fd fd,
      find-modify fd fd (close_connection reason) w.server.connections,
    )
  ]

  -- What a write to a client, which may disconnect it, leaves of a client's state.
  send_raw-found :
      (w : World em) (k fd : ℕ) (line : Str) (client found : ClientState)
      → find_client w.app.clients fd ≡ some client
      → find_client (send_raw w k line).0.app.clients fd ≡ some found
      → found ≡ client
  unfolding erase_client forget
  send_raw-found w k fd line client found e =
      send_raw-path
        (keeps_app (λ app. find_client app.clients fd ≡ some found → found ≡ client)
          (λ app g h f. h (erase_client-found app.clients g fd found f)))
        w k line (λ f. cc (f, e))

  -- The line is queued at the client's connection, which accepts it, and at no other.
  pub record IsPinged (w : World em) (fd : ℕ) (line : Str) (w' : World em) : Type 0 where
    pub at : Connection
    pub was_connected : find_connection w fd ≡ some at
    pub accepted : (queue_line line at).1 ≡ true
    pub new_connections :
        w'.server.connections ≡ modify fd (λ _. (queue_line line at).0) w.server.connections

  abbrev pub token_of : World em → ℕ → Str
  token_of w fd = heartbeat_token fd (increment w.app.next_heartbeat_token)

  abbrev pub ping_line : World em → ℕ → Str
  ping_line w fd = format_message w.app.server_name (text "PING") (token_of w fd ∷ [])

  -- Whether the connection can take the PING decides: it is queued there and counted, or not counted.
  abbrev pub Pinged : Bool → World em → ℕ → World em → Type 0
  Pinged true w fd w' =
      (w'.app.metrics.heartbeat_pings ≡ increment w.app.metrics.heartbeat_pings)
      × IsPinged w fd (ping_line w fd) w'
  Pinged false w fd w' = w'.app.metrics.heartbeat_pings ≡ w.app.metrics.heartbeat_pings

  -- Behind a heartbeat: the client, if it is still there, waits for the token of a new number.
  pub record IsAsked (w : World em) (fd : ℕ) (client : ClientState) (now : MonotonicTime)
      (w' : World em) : Type 0 where
    pub waits :
        (found : ClientState)
        → find_client w'.app.clients fd ≡ some found
        → found ≡ asked client (token_of w fd) now
    pub numbered : w'.app.next_heartbeat_token ≡ increment w.app.next_heartbeat_token
    pub pinged : Pinged (can_take w fd (ping_line w fd)) w fd w'

  -- The world in which the PING is written.
  abbrev waiting : World em → ℕ → ClientState → MonotonicTime → World em
  waiting w fd client now =
      with_client fd (asked client (token_of w fd) now)
        (with_app (record w.app { next_heartbeat_token = increment w.app.next_heartbeat_token }) w)

  waiting-found :
      (w : World em) (fd : ℕ) (client : ClientState) (now : MonotonicTime)
      → find_client (waiting w fd client now).app.clients fd
        ≡ some (asked client (token_of w fd) now)
  unfolding find_client put_state
  waiting-found w fd client now = ground (
    arith,
    ==_iff fd fd,
    find-insert fd fd (asked client (token_of w fd) now) w.app.clients.states,
  )

  -- The world behind a PING that was written.
  abbrev pinged_world : World em → ℕ → ClientState → MonotonicTime → World em
  pinged_world w fd client now =
      let v = (send_raw (waiting w fd client now) fd (ping_line w fd)).0 in
      with_app (count_heartbeat v.app) v

  sent-IsPinged :
      (w : World em) (fd : ℕ) (client : ClientState) (now : MonotonicTime)
      → (send_raw (waiting w fd client now) fd (ping_line w fd)).1 ≡ true
      → ((pinged_world w fd client now).app.metrics.heartbeat_pings
          ≡ increment w.app.metrics.heartbeat_pings)
        × IsPinged w fd (ping_line w fd) (pinged_world w fd client now)
  unfolding find_connection
  sent-IsPinged w fd client now sent =
      let q = send_raw-true (waiting w fd client now) fd (ping_line w fd) sent in
      (
        rw q.same_app refl,
        record {
          at = q.at;
          was_connected = q.was_connected;
          accepted = q.accepted;
          new_connections = q.new_connections;
        },
      )

  send_heartbeat-IsAsked :
      (w : World em) (fd : ℕ) (client : ClientState) (now : MonotonicTime)
      → IsAsked w fd client now (send_heartbeat w fd client now)
  unfolding send_heartbeat find_connection forget can_take
  send_heartbeat-IsAsked w fd client now =
      let v = waiting w fd client now in
      let line = ping_line w fd in
      let here = waiting-found w fd client now in
      let taken : (send_raw v fd line).1 ≡ can_take w fd line = send_raw-result v fd line in
      let new_number =
        send_raw-path
          (keeps_app (λ app. app.next_heartbeat_token ≡ increment w.app.next_heartbeat_token)
            (λ app g h. h))
          v fd line refl in
      elim (Bool-cases (send_raw v fd line).1) [
        | inl sent ↦ rw sent (record {
          waits = λ found f. send_raw-found v fd fd line _ found here f;
          numbered = new_number;
          pinged = rw (sym taken ∙ sent) (sent-IsPinged w fd client now sent);
        })
        | inr lost ↦ rw lost (record {
          waits = λ found f. send_raw-found v fd fd line _ found here f;
          numbered = new_number;
          pinged = rw (sym taken ∙ lost) (
              send_raw-path
                (keeps_app (λ app. app.metrics.heartbeat_pings ≡ w.app.metrics.heartbeat_pings)
                  (λ app g h. h))
                v fd line refl);
        })
      ]

  -- What is to happen to a client, by whether it is overdue and whether a heartbeat is due.
  abbrev pub Maintained :
      Bool → Bool → World em → ℕ → ClientState → MonotonicTime → World em → Type 0
  Maintained true due w fd client now w' = IsClosing w' fd
  Maintained false true w fd client now w' = IsAsked w fd client now w'
  Maintained false false w fd client now w' = w' ≡ w

  by_test :
      (late unlimited waits slow silent : Bool) (w : World em) (fd : ℕ) (client : ClientState)
      (now : MonotonicTime) (refused lost sent : World em)
      → IsClosing refused fd
      → IsClosing lost fd
      → IsAsked w fd client now sent
      → Maintained
          (late || (not unlimited && (waits && slow)))
          (not unlimited && (not waits && silent))
          w
          fd
          client
          now
          (if late
            then refused
            else if unlimited
            then w
            else if waits && slow
            then lost
            else if not waits && silent
            then sent
            else w)
  by_test true u a p s w fd client now r l t hr hl ht = hr
  by_test false true a p s w fd client now r l t hr hl ht = refl
  by_test false false true true s w fd client now r l t hr hl ht = hl
  by_test false false true false s w fd client now r l t hr hl ht = refl
  by_test false false false p true w fd client now r l t hr hl ht = ht
  by_test false false false p false w fd client now r l t hr hl ht = refl

  -- The timers close a client that takes too long to register or to answer a PING. They send a
  -- heartbeat to one that has been silent for too long and is not waited for yet: it then waits for
  -- the token of a new number, and the PING is queued at its connection and counted, unless the
  -- connection has no room or the backend refuses its interests. They leave the world as it is for
  -- every other client.
  pub maintain_client-Maintained :
      (w : World em) (fd : ℕ) (client : ClientState) (now : MonotonicTime)
      → find_client w.app.clients fd ≡ some client
      → Maintained
          (is_overdue w.app client now)
          (is_due w.app client now)
          w
          fd
          client
          now
          (maintain_client w fd now)
  unfolding maintain_client maintain_found
  maintain_client-Maintained w fd client now e =
      rw (e, maintain_client)
        (by_test
          (not client.registered
            && has_passed w.app.runtime.registration_timeout_seconds client.connected_at now)
          (w.app.runtime.idle_timeout_seconds == 0) client.awaiting_pong
          (has_passed w.app.runtime.ping_timeout_seconds client.last_ping_at now)
          (has_passed w.app.runtime.idle_timeout_seconds client.last_activity_at now) w fd client
          now _ _ _ (request_close-IsClosing _ fd _) (request_close-IsClosing _ fd _)
          (send_heartbeat-IsAsked w fd client now))
