-- ===== src/App/Changes/Entry.antt =====
-- Joining a channel: it is made where it is missing, is empty for that moment, and has its first
-- member before anything is sent.
use irc_relay_server.Prelude.{
  ℕ, ◌≡◌, refl, subst, ◌⊎◌, Bool, true, false, none, some, if◌then◌else◌, arith, is_empty,
  Option-cases, Bool-cases, inl, inr, ==_iff, List, [], ◌∷◌,
}
use irc_relay_server.Prelude.Map.{
  nat_key, find, modify, mapped, find-insert, find-modify, member, set_insert, member-set_insert,
}
use irc_relay_server.Text.{Str, str_key, str_eq, str_eq_iff}
use irc_relay_server.Channel.{
  Channel, channel, empty, has_member, is_operator, add_member, clear_invite,
}
use irc_relay_server.Registry.{ClientRegistry}
use irc_relay_server.Events.{EventManager}
use irc_relay_server.World.{App, World}
use irc_relay_server.App.Rooms.{IsRoom, is_registered}
use irc_relay_server.App.Consistent.{HasClients, IsConsistent}
use irc_relay_server.Registry.Index.{IsIndexed}
use irc_relay_server.App.Support.{modify_channel, ensure_channel}

-- A channel that may have no member yet.
pub record IsHall (clients : ClientRegistry) (name : Str) (c : Channel) : Type 0 where
  pub named : c.name ≡ name
  pub known : (k : ℕ) → has_member c k ≡ true → is_registered clients k ≡ true
  pub officers : (k : ℕ) → is_operator c k ≡ true → has_member c k ≡ true

-- Only the channel `name` may be empty.
pub record IsOpening (name : Str) (app : App) : Type 0 where
  pub halls :
      (other : Str) (c : Channel) → find other app.channels ≡ some c → IsHall app.clients other c
  pub occupied :
      (other : Str) (c : Channel)
      → find other app.channels ≡ some c
      → str_eq name other ≡ false
      → empty c ≡ false
  pub clients : HasClients app.clients
  pub indexed : IsIndexed app.clients

set_insert-ne-empty : (k : ℕ) (s : List ℕ) → is_empty (set_insert k s) ≡ false
unfolding set_insert
set_insert-ne-empty k [] = refl
set_insert-ne-empty k (j ∷ s) = ground arith

entered-IsRoom :
    (r : ClientRegistry) (name nick : Str) (fd : ℕ) (b : Bool) (c : Channel)
    → is_registered r fd ≡ true
    → IsHall r name c
    → IsRoom r name (clear_invite nick (add_member fd b c))
unfolding clear_invite add_member has_member is_operator empty
entered-IsRoom r name nick fd b c known hall = record {
  named = hall.named;
  occupied = set_insert-ne-empty fd c.members;
  known =
      λ k t. ground (arith, t, known, hall.known k, ==_iff fd k, member-set_insert fd k c.members);
  officers = λ k t. ground (
    arith,
    t,
    hall.officers k,
    ==_iff fd k,
    member-set_insert fd k c.members,
    member-set_insert fd k c.operators,
  );
}

module _ ⦃em : EventManager⦄ where
  pub enter-IsConsistent :
      (w : World em) (name nick : Str) (fd : ℕ) (b : Bool)
      → is_registered w.app.clients fd ≡ true
      → IsOpening name w.app
      → IsConsistent (modify_channel name (λ d. clear_invite nick (add_member fd b d)) w).app
  unfolding modify_channel
  enter-IsConsistent w name nick fd b known o = record {
    rooms = λ other d e. elim (Option-cases (find other w.app.channels)) [
      | inl e' ↦ cc (changed other, e', e, absent (str_eq name other))
      | inr (c, e') ↦ elim (Bool-cases (str_eq name other)) [
        | inr away ↦
            let same : c ≡ d = ground (arith, away, e, e', changed other) in
            subst (IsRoom w.app.clients other) same (record {
              named = (o.halls other c e').named;
              occupied = o.occupied other c e' away;
              known = (o.halls other c e').known;
              officers = (o.halls other c e').officers;
            })
        | inl here ↦
            let same : clear_invite nick (add_member fd b c) ≡ d =
              ground (arith, here, e, e', changed other) in
            subst (IsRoom w.app.clients other) same
              (entered-IsRoom w.app.clients other nick fd b c known (o.halls other c e'))
      ]
    ];
    clients = o.clients;
    indexed = o.indexed;
  }
    where
      changed :
          (other : Str)
          → find other (modify name (λ d. clear_invite nick (add_member fd b d)) w.app.channels) ≡ (
              if str_eq name other
              then mapped (λ d. clear_invite nick (add_member fd b d)) (find other w.app.channels)
              else find other w.app.channels)
      changed other = find-modify name other _ w.app.channels

      absent :
          (t : Bool)
          → (if t then mapped (λ d. clear_invite nick (add_member fd b d)) none else none) ≡ none
      absent true = refl
      absent false = refl

  -- What `ensureChannel` returns: the channel that the map holds, which is new or was there.
  pub ensure_channel-found :
      (w : World em) (name : Str)
      → ((ensure_channel w name).0 ≡ w)
          × (find name w.app.channels ≡ some (ensure_channel w name).1)
        ⊎ ((ensure_channel w name).1 ≡ channel name)
  unfolding ensure_channel
  ensure_channel-found w name = elim (Option-cases (find name w.app.channels)) [
    | inl e ↦ inr (rw (e, ensure_channel) refl)
    | inr (c, e) ↦ inl (rw (e, ensure_channel) refl, rw (e, ensure_channel) refl)
  ]

  pub IsOpening-same : (app : App) (name : Str) → IsConsistent app → IsOpening name app
  IsOpening-same app name h = record {
    halls = λ other c e. record {
      named = (h.rooms other c e).named;
      known = (h.rooms other c e).known;
      officers = (h.rooms other c e).officers;
    };
    occupied = λ other c e _. (h.rooms other c e).occupied;
    clients = h.clients;
    indexed = h.indexed;
  }

  channel-IsHall : (r : ClientRegistry) (name : Str) → IsHall r name (channel name)
  unfolding has_member is_operator member
  channel-IsHall r name = record { named = refl; known = λ k t. cc; officers = λ k t. cc }

  pub ensure_channel-IsOpening :
      (w : World em) (name : Str)
      → IsConsistent w.app
      → IsOpening name (ensure_channel w name).0.app
  unfolding ensure_channel
  ensure_channel-IsOpening w name h = elim (Option-cases (find name w.app.channels)) [
    | inr (c, e) ↦ rw (e, ensure_channel) (IsOpening-same w.app name h)
    | inl e ↦
        rw (e, ensure_channel)
          (record {
            halls = λ other d e'. elim (Bool-cases (str_eq name other)) [
              | inl here ↦
                  let new : channel name ≡ d =
                    ground
                      (arith, here, e', find-insert name other (channel name) w.app.channels) in
                  subst (IsHall w.app.clients other) new (
                    subst (λ n. IsHall w.app.clients n (channel name))
                      ((str_eq_iff name other).0 here) (channel-IsHall w.app.clients name))
              | inr away ↦
                  (IsOpening-same w.app name h).halls other d
                    (ground (arith, away, e', find-insert name other (channel name) w.app.channels))
            ];
            occupied = λ other d e' away.
                (h.rooms other d (
                  ground (
                    arith,
                    away,
                    e',
                    find-insert name other (channel name) w.app.channels,
                  ))).occupied;
            clients = h.clients;
            indexed = h.indexed;
          })
  ]

  pub clients-ensure_channel :
      (w : World em) (name : Str) → (ensure_channel w name).0.app.clients ≡ w.app.clients
  unfolding ensure_channel
  clients-ensure_channel w name = ground arith
