-- ===== src/App/Messaging/Delivery.antt =====
-- Who receives a PRIVMSG to a channel (src/MessagingCommands.cpp).
use irc_relay_server.Prelude.{
  ℕ, ◌≡◌, refl, Bool, true, false, ◌&&◌, ◌↔◌, Option, some, List, [], ◌∷◌, not, if◌then◌else◌,
  arith, Bool-cases, inl, inr, ==_iff, &&-true,
}
use irc_relay_server.Prelude.{◌==◌ as nat_beq}
use irc_relay_server.Prelude.Map.{nat_key, find, find-modify, mapped, member}
use irc_relay_server.Text.{Str, str_key}
use irc_relay_server.Channel.{Channel, has_member}
use irc_relay_server.Connection.{Connection, queue_line}
use irc_relay_server.Events.{EventManager}
use irc_relay_server.World.{World}
use irc_relay_server.Server.{find_connection}
use irc_relay_server.App.Relay.{send_raw, send_each}
use irc_relay_server.App.Relay.Results.{Queued, send_raw-true}
use irc_relay_server.App.Support.{broadcast_to_channel, except, is_channel_target}
use irc_relay_server.App.Messaging.{message_line, count_relayed, relay_to}

-- No descriptor twice, as in `std::set`.
abbrev pub IsDistinct : List ℕ → Type 0
IsDistinct [] = Unit
IsDistinct (k ∷ ks) = (member k ks ≡ false) × IsDistinct ks

-- The connection with the line queued.
abbrev pub with_line : Str → Connection → Connection
with_line line c = (queue_line line c).0

module _ ⦃em : EventManager⦄ where
  member-except :
      (fd k : ℕ) (ks : List ℕ)
      → member k (except (some fd) ks) ≡ (member k ks && not (nat_beq k fd))
  unfolding member
  member-except fd k [] = refl
  member-except fd k (j ∷ ks) = elim (Bool-cases (nat_beq j fd)) [
    | inl same ↦
        rw (same, member-except fd k ks, (==_iff j fd).0 same) (sender (nat_beq fd k) (==_iff fd k))
    | inr other ↦ rw other (ground (arith, member-except fd k ks, other, ==_iff j k, ==_iff k fd))
  ]
    where
      sender :
          (b : Bool)
          → ((b ≡ true) ↔ (fd ≡ k))
          → (member k ks && not (nat_beq k fd))
            ≡ ((if b then true else member k ks) && not (nat_beq k fd))
      sender true h = ground (arith, h.0 refl, ==_iff k fd)
      sender false h = refl

  except-IsDistinct : (fd : ℕ) (ks : List ℕ) → IsDistinct ks → IsDistinct (except (some fd) ks)
  except-IsDistinct fd [] d = tt
  except-IsDistinct fd (j ∷ ks) d = elim (Bool-cases (nat_beq j fd)) [
    | inl same ↦ rw same (except-IsDistinct fd ks d.1)
    | inr other ↦ rw other (ground (arith, d.0, member-except fd j ks), except-IsDistinct fd ks d.1)
  ]

  -- Every write of the loop returns true.
  unfoldable pub all_sent : World em → Str → List ℕ → Bool
  all_sent w line [] = true
  all_sent w line (k ∷ ks) = (send_raw w k line).1 && all_sent (send_raw w k line).0 line ks

  pub Queued-find :
      (w w' : World em) (k j : ℕ) (line : Str)
      → Queued w k line w'
      → find j w'.server.connections ≡ (
          if nat_beq k j
          then mapped (with_line line) (find j w.server.connections)
          else find j w.server.connections)
  unfolding find_connection
  Queued-find w w' k j line q = rw q.new_connections (
      ground (
        arith,
        q.was_connected,
        ==_iff k j,
        find-modify k j (λ _. (queue_line line q.at).0) w.server.connections,
      ))

  send_each-find :
      (w : World em) (line : Str) (ks : List ℕ) (j : ℕ)
      → IsDistinct ks
      → all_sent w line ks ≡ true
      → find j (send_each send_raw w line ks).server.connections ≡ (
          if member j ks
          then mapped (with_line line) (find j w.server.connections)
          else find j w.server.connections)
  unfolding send_each all_sent member
  send_each-find w line [] j d t = refl
  send_each-find w line (k ∷ ks) j d t =
      let w' = (send_raw w k line).0 in
      let sent = &&-true (send_raw w k line).1 (all_sent w' line ks) t in
      ground (
        arith,
        d.0,
        ==_iff k j,
        Queued-find w w' k j line (send_raw-true w k line sent.0),
        send_each-find w' line ks j d.1 sent.1,
      )

  relay_to-room :
      (w : World em) (fd : ℕ) (body target : Str) (c : Channel)
      → is_channel_target target ≡ true
      → find target w.app.channels ≡ some c
      → has_member c fd ≡ true
      → relay_to w fd body target
        ≡ count_relayed (broadcast_to_channel w target (message_line w fd target body) (some fd))
  unfolding relay_to
  relay_to-room w fd body target c room e here = rw (room, e, relay_to, here) refl

  broadcast_to_channel-found :
      (w : World em) (name line : Str) (except_fd : Option ℕ) (c : Channel)
      → find name w.app.channels ≡ some c
      → broadcast_to_channel w name line except_fd
        ≡ send_each send_raw w line (except except_fd c.members)
  unfolding broadcast_to_channel
  broadcast_to_channel-found w name line except_fd c e = rw (e, broadcast_to_channel) refl

  -- A PRIVMSG from a member to a channel, where every write of its loop succeeds, queues the line once
  -- at the connection of each other member, and changes no other connection, the sender's among them.
  pub relay_to-find :
      (w : World em) (fd : ℕ) (body target : Str) (c : Channel) (j : ℕ)
      → is_channel_target target ≡ true
      → find target w.app.channels ≡ some c
      → has_member c fd ≡ true
      → IsDistinct c.members
      → all_sent w (message_line w fd target body) (except (some fd) c.members) ≡ true
      → find j (relay_to w fd body target).server.connections ≡ (
          if has_member c j && not (nat_beq j fd)
          then mapped (with_line (message_line w fd target body)) (find j w.server.connections)
          else find j w.server.connections)
  unfolding count_relayed has_member
  relay_to-find w fd body target c j room e here d t =
      let line = message_line w fd target body in
      rw
        (
          relay_to-room w fd body target c room e here,
          broadcast_to_channel-found w target line (some fd) c e,
          ← member-except fd j c.members,
        )
        (send_each-find w line (except (some fd) c.members) j (except-IsDistinct fd c.members d) t)
