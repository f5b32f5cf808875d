-- ===== src/App/Changes/Channels.antt =====
-- The changes that the handlers make to the channels.
use irc_relay_server.Prelude.{
  ℕ, ◌≡◌, refl, sym, subst, ◌∙◌, Bool, false, some, if◌then◌else◌, arith, Option-cases, Bool-cases,
  inl, inr, ==_iff,
}
use irc_relay_server.Prelude.Map.{
  Map, nat_key, find, erase, modify, find-erase, find-modify, member-set_insert, member-set_erase,
}
use irc_relay_server.Text.{Str, str_key, str_eq, str_eq_iff, str_eq_refl}
use irc_relay_server.Channel.{
  Channel, empty, has_member, is_operator, remove_member, set_operator, invite, set_invite_only,
  set_topic_protected, set_topic,
}
use irc_relay_server.Registry.{ClientRegistry}
use irc_relay_server.Events.{EventManager}
use irc_relay_server.World.{World}
use irc_relay_server.App.Rooms.{IsRoom, HasRooms, has_member-remove, is_operator-remove}
use irc_relay_server.App.Consistent.{IsConsistent}
use irc_relay_server.App.Support.{modify_channel, take_out, erase_channel_if_empty}

-- A change of one channel that keeps it a room.
modify-HasRooms :
    (r : ClientRegistry) (name : Str) (f : Channel → Channel) (m : Map Str Channel)
    → ((c : Channel) → IsRoom r name c → IsRoom r name (f c))
    → HasRooms r m
    → HasRooms r (modify name f m)
modify-HasRooms r name f m step h other d e = elim (Bool-cases (str_eq name other)) [
  | inr away ↦ h other d (ground (arith, away, e, find-modify name other f m))
  | inl here ↦ elim (Option-cases (find other m)) [
    | inl e' ↦ cc (find-modify name other f m, here, e', e)
    | inr (c, e') ↦
        let same : f c ≡ d = ground (arith, here, e, e', find-modify name other f m) in
        let named : name ≡ other = (str_eq_iff name other).0 here in
        subst (IsRoom r other) same (
          subst (λ n. IsRoom r n (f c)) named
            (step c (subst (λ n. IsRoom r n c) (sym named) (h other c e'))))
  ]
]

-- What leaves the name, the members and the operators alone keeps a room.
record IsAside (c d : Channel) : Type 0 where
  same_name : d.name ≡ c.name
  same_members : d.members ≡ c.members
  same_operators : d.operators ≡ c.operators

aside-IsRoom :
    {r : ClientRegistry} {name : Str} {c : Channel} (d : Channel)
    → IsAside c d
    → IsRoom r name c
    → IsRoom r name d
unfolding empty has_member is_operator
aside-IsRoom d a room = record {
  named = a.same_name ∙ room.named;
  occupied = rw a.same_members room.occupied;
  known = λ k t. room.known k (rw a.same_members at t);
  officers = λ k t. rw a.same_members (room.officers k (rw a.same_operators at t));
}

aside :
    {c : Channel} (d : Channel)
    → d.name ≡ c.name
    → d.members ≡ c.members
    → d.operators ≡ c.operators
    → IsAside c d
aside d p q s = record { same_name = p; same_members = q; same_operators = s }

pub set_topic-IsRoom :
    (r : ClientRegistry) (name topic : Str) (c : Channel)
    → IsRoom r name c
    → IsRoom r name (set_topic topic c)
unfolding set_topic
set_topic-IsRoom r name topic c = aside-IsRoom (set_topic topic c) (aside _ refl refl refl)

pub invite-IsRoom :
    (r : ClientRegistry) (name nick : Str) (c : Channel)
    → IsRoom r name c
    → IsRoom r name (invite nick c)
unfolding invite
invite-IsRoom r name nick c = aside-IsRoom (invite nick c) (aside _ refl refl refl)

pub set_invite_only-IsRoom :
    (r : ClientRegistry) (name : Str) (b : Bool) (c : Channel)
    → IsRoom r name c
    → IsRoom r name (set_invite_only b c)
unfolding set_invite_only
set_invite_only-IsRoom r name b c = aside-IsRoom (set_invite_only b c) (aside _ refl refl refl)

pub set_topic_protected-IsRoom :
    (r : ClientRegistry) (name : Str) (b : Bool) (c : Channel)
    → IsRoom r name c
    → IsRoom r name (set_topic_protected b c)
unfolding set_topic_protected
set_topic_protected-IsRoom r name b c =
    aside-IsRoom (set_topic_protected b c) (aside _ refl refl refl)

-- Only a member becomes an operator.
pub set_operator-IsRoom :
    (r : ClientRegistry) (name : Str) (target : ℕ) (b : Bool) (c : Channel)
    → IsRoom r name c
    → IsRoom r name (set_operator target b c)
unfolding set_operator has_member is_operator empty
set_operator-IsRoom r name target b c room = record {
  named = ground (arith, room.named);
  occupied = ground (arith, room.occupied);
  known = λ k t. room.known k (ground (arith, t));
  officers = λ k t. ground (
    arith,
    t,
    room.officers k,
    ==_iff target k,
    member-set_insert target k c.operators,
    member-set_erase target k c.operators,
  );
}

module _ ⦃em : EventManager⦄ where
  pub modify_channel-IsConsistent :
      (w : World em) (name : Str) (f : Channel → Channel)
      → ((c : Channel) → IsRoom w.app.clients name c → IsRoom w.app.clients name (f c))
      → IsConsistent w.app
      → IsConsistent (modify_channel name f w).app
  unfolding modify_channel
  modify_channel-IsConsistent w name f step h = record {
    rooms = modify-HasRooms w.app.clients name f w.app.channels step h.rooms;
    clients = h.clients;
    indexed = h.indexed;
  }

-- A member leaves, and the channel with it if it was the last.
remove-IsRoom :
    (r : ClientRegistry) (name : Str) (fd : ℕ) (c : Channel)
    → IsRoom r name c
    → empty (remove_member fd c) ≡ false
    → IsRoom r name (remove_member fd c)
unfolding remove_member
remove-IsRoom r name fd c room full = record {
  named = room.named;
  occupied = full;
  known = λ k t. room.known k (ground (arith, t, has_member-remove c fd k));
  officers = λ k t.
      ground (arith, t, has_member-remove c fd k, is_operator-remove c fd k, room.officers k);
}

take_out-HasRooms :
    (r : ClientRegistry) (name : Str) (fd : ℕ) (m : Map Str Channel) (c : Channel)
    → find name m ≡ some c
    → HasRooms r m
    → HasRooms r (
        if empty (remove_member fd c)
        then erase name (modify name (remove_member fd) m)
        else modify name (remove_member fd) m)
take_out-HasRooms r name fd m c e h = elim (Bool-cases (empty (remove_member fd c))) [
  | inl last ↦ rw last λ other d e'. h other d (
      ground (
        arith,
        e',
        find-erase name other (modify name (remove_member fd) m),
        find-modify name other (remove_member fd) m,
      ))
  | inr more ↦ rw more λ other d e'. elim (Bool-cases (str_eq name other)) [
    | inr away ↦ h other d (ground (arith, away, e', find-modify name other (remove_member fd) m))
    | inl here ↦
        let same : name ≡ other = (str_eq_iff name other).0 here in
        let found : find other m ≡ some c = subst (λ n. find n m ≡ some c) same e in
        let left : remove_member fd c ≡ d =
          ground (arith, here, e', found, find-modify name other (remove_member fd) m) in
        subst (IsRoom r other) left (remove-IsRoom r other fd c (h other c found) more)
  ]
]

module _ ⦃em : EventManager⦄ where
  pub take_out-app :
      (w : World em) (name : Str) (fd : ℕ) (c : Channel)
      → find name w.app.channels ≡ some c
      → (take_out w name fd).app ≡ record w.app {
        channels =
            if empty (remove_member fd c)
            then erase name (modify name (remove_member fd) w.app.channels)
            else modify name (remove_member fd) w.app.channels;
      }
  unfolding take_out modify_channel erase_channel_if_empty
  take_out-app w name fd c e =
      ground (arith, e, find-modify name name (remove_member fd) w.app.channels, str_eq_refl name)

  pub take_out-IsConsistent :
      (w : World em) (name : Str) (fd : ℕ)
      → IsConsistent w.app
      → IsConsistent (take_out w name fd).app
  unfolding take_out
  take_out-IsConsistent w name fd h = elim (Option-cases (find name w.app.channels)) [
    | inl e ↦ rw (e, take_out) h
    | inr (c, e) ↦ rw (take_out-app w name fd c e) (record {
      rooms = take_out-HasRooms w.app.clients name fd w.app.channels c e h.rooms;
      clients = h.clients;
      indexed = h.indexed;
    })
  ]
