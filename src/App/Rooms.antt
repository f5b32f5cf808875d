-- ===== src/App/Rooms.antt =====
-- The channels: what is true of each between two steps, and what forgetting a client does to them.
use irc_relay_server.Prelude.{
  ℕ, ◌≡◌, refl, subst, Bool, true, false, Option, none, some, if◌then◌else◌, arith, Option-cases,
  Bool-cases, inl, inr, ==_iff, List, [], ◌∷◌,
}
use irc_relay_server.Prelude.{◌==◌ as nat_beq}
use irc_relay_server.Prelude.Map.{
  Map, nat_key, find, erase, mapped, member, find-erase, member-set_erase,
}
use irc_relay_server.Text.{Str, str_key}
use irc_relay_server.Channel.{Channel, empty, has_member, is_operator, remove_member}
use irc_relay_server.Registry.{ClientState, ClientRegistry, erase_client}
use irc_relay_server.Registry.Index.{erased-find, erase_client-absent}
use irc_relay_server.World.{App}
use irc_relay_server.App.Relay.{leave_channels, emptied_by, erase_all, forget}

-- The client at a descriptor has completed its registration.
abbrev pub registered_in : Option ClientState → Bool
registered_in none = false
registered_in (some client) = client.registered

unfoldable pub is_registered : ClientRegistry → ℕ → Bool
is_registered r fd = registered_in (find fd r.states)

pub record IsRoom (clients : ClientRegistry) (name : Str) (c : Channel) : Type 0 where
  pub named : c.name ≡ name
  pub occupied : empty c ≡ false
  pub known : (k : ℕ) → has_member c k ≡ true → is_registered clients k ≡ true
  pub officers : (k : ℕ) → is_operator c k ≡ true → has_member c k ≡ true

abbrev pub HasRooms : ClientRegistry → Map Str Channel → Type 0
HasRooms clients channels =
    (name : Str) (c : Channel) → find name channels ≡ some c → IsRoom clients name c

pub has_member-remove :
    (c : Channel) (fd k : ℕ)
    → has_member (remove_member fd c) k ≡ (if nat_beq fd k then false else has_member c k)
unfolding has_member remove_member
has_member-remove c fd k = member-set_erase fd k c.members

pub is_operator-remove :
    (c : Channel) (fd k : ℕ)
    → is_operator (remove_member fd c) k ≡ (if nat_beq fd k then false else is_operator c k)
unfolding is_operator remove_member
is_operator-remove c fd k = member-set_erase fd k c.operators

-- The channel once `fd` has left it.
abbrev pub left_by : ℕ → Channel → Channel
left_by fd c = if has_member c fd then remove_member fd c else c

pub has_member-left_by :
    (c : Channel) (fd k : ℕ)
    → has_member (left_by fd c) k ≡ (if nat_beq fd k then false else has_member c k)
has_member-left_by c fd k = ground (arith, has_member-remove c fd k, ==_iff fd k)

pub find-leave_channels :
    (fd : ℕ) (name : Str) (m : Map Str Channel)
    → find name (leave_channels fd m) ≡ mapped (left_by fd) (find name m)
unfolding leave_channels find
find-leave_channels fd name [] = refl
find-leave_channels fd name ((n, c) ∷ m) = ground (arith, find-leave_channels fd name m)

pub find-erase_all :
    (name : Str) (names : List Str) (m : Map Str Channel)
    → find name (erase_all names m) ≡ (if member name names then none else find name m)
unfolding erase_all member
find-erase_all name [] m = refl
find-erase_all name (n ∷ names) m =
    ground (arith, find-erase_all name names (erase n m), find-erase n name m)

-- A channel that the client's leaving empties is on the list.
pub member-emptied_by :
    (fd : ℕ) (name : Str) (m : Map Str Channel) (c : Channel)
    → find name m ≡ some c
    → has_member c fd ≡ true
    → empty (remove_member fd c) ≡ true
    → member name (emptied_by fd m) ≡ true
unfolding emptied_by member find
member-emptied_by fd name [] c e h k = ground (arith, e)
member-emptied_by fd name ((n, d) ∷ m) c e h k =
    ground (arith, e, h, k, member-emptied_by fd name m c)

pub is_registered-erase_client :
    (r : ClientRegistry) (fd k : ℕ)
    → is_registered (erase_client fd r) k ≡ (if nat_beq fd k then false else is_registered r k)
unfolding is_registered
is_registered-erase_client r fd k = elim (Option-cases (find fd r.states)) [
  | inl e ↦ rw (erase_client-absent r fd e) (ground (arith, e, ==_iff fd k))
  | inr (client, e) ↦ ground (arith, e, erased-find r fd k client e)
]

left_by-IsRoom :
    (r : ClientRegistry) (fd : ℕ) (name : Str) (c : Channel)
    → IsRoom r name c
    → empty (left_by fd c) ≡ false
    → IsRoom (erase_client fd r) name (left_by fd c)
unfolding remove_member
left_by-IsRoom r fd name c room full = record {
  named = ground (arith, room.named);
  occupied = full;
  known = λ k h. ground (
    arith,
    h,
    has_member-left_by c fd k,
    is_registered-erase_client r fd k,
    room.known k,
    ==_iff fd k,
  );
  officers = λ k h. ground (
    arith,
    h,
    has_member-left_by c fd k,
    is_operator-remove c fd k,
    room.officers k,
    ==_iff fd k,
  );
}

pub find-forget :
    (fd : ℕ) (app : App) (name : Str)
    → find name (forget fd app).channels ≡ (
        if member name (emptied_by fd app.channels)
        then none
        else mapped (left_by fd) (find name app.channels))
unfolding forget
find-forget fd app name =
    rw
      (
        find-erase_all name (emptied_by fd app.channels) (leave_channels fd app.channels),
        find-leave_channels fd name app.channels,
      )
      refl

-- A channel that stays is not empty.
occupied-left_by :
    (fd : ℕ) (app : App) (name : Str) (c : Channel)
    → find name app.channels ≡ some c
    → empty c ≡ false
    → member name (emptied_by fd app.channels) ≡ false
    → empty (left_by fd c) ≡ false
occupied-left_by fd app name c e full stays = elim (Bool-cases (has_member c fd)) [
  | inl here ↦ rw here (elim (Bool-cases (empty (remove_member fd c))) [
    | inl last ↦ cc (member-emptied_by fd name app.channels c e here last, stays)
    | inr more ↦ more
  ])
  | inr away ↦ rw away full
]

pub forget-HasRooms :
    (fd : ℕ) (app : App)
    → HasRooms app.clients app.channels
    → HasRooms (forget fd app).clients (forget fd app).channels
forget-HasRooms fd app rooms name d e =
    elim (Bool-cases (member name (emptied_by fd app.channels))) [
      | inl gone ↦ cc (find-forget fd app name, gone, e)
      | inr stays ↦ elim (Option-cases (find name app.channels)) [
        | inl none' ↦ cc (find-forget fd app name, stays, none', e)
        | inr (c, e') ↦
            let same : left_by fd c ≡ d = ground (arith, find-forget fd app name, stays, e', e) in
            let full = occupied-left_by fd app name c e' (rooms name c e').occupied stays in
            unfold forget in
            subst (IsRoom (erase_client fd app.clients) name) same
              (left_by-IsRoom app.clients fd name c (rooms name c e') full)
      ]
    ]

-- Once forgotten, a client is in no channel.
pub forget-gone :
    (fd : ℕ) (app : App) (name : Str) (d : Channel)
    → find name (forget fd app).channels ≡ some d
    → has_member d fd ≡ false
forget-gone fd app name d e = elim (Option-cases (find name app.channels)) [
  | inl none' ↦ ground (arith, find-forget fd app name, none', e)
  | inr (c, e') ↦
      ground (arith, find-forget fd app name, e', e, has_member-left_by c fd fd, ==_iff fd fd)
]
