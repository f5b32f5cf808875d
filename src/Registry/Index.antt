-- ===== src/Registry/Index.antt =====
-- The two maps of ClientRegistry agree: the index holds the canonical nickname of each client that
-- has one, and nothing else.
use irc_relay_server.Prelude.{
  ℕ, ◌≡◌, refl, sym, ◌∙◌, Option, none, some, is_empty, if◌then◌else◌, arith, Option-cases, inl,
  inr, or_default, ==_iff,
}
use irc_relay_server.Prelude.{◌==◌ as nat_beq}
use irc_relay_server.Prelude.Map.{Map, nat_key, find, find-insert, find-erase}
use irc_relay_server.Text.{Str, str_key, str_eq, str_eq_iff}
use irc_relay_server.Channel.{canonical_nick}
use irc_relay_server.Registry.{
  ClientState, ClientRegistry, client_state, state, put_state, erase_client, drop_nick,
}

-- The canonical nickname of a client that has one.
abbrev pub named : Option ClientState → Option Str
named none = none
named (some client) = if is_empty client.nick then none else some (canonical_nick client.nick)

-- The index maps a name to a descriptor exactly when the client there has that name.
pub record IsIndexed (r : ClientRegistry) : Type 0 where
  pub sound :
      (n : Str) (fd : ℕ) → find n r.nickname_index ≡ some fd → named (find fd r.states) ≡ some n
  pub complete :
      (n : Str) (fd : ℕ) → named (find fd r.states) ≡ some n → find n r.nickname_index ≡ some fd

-- A new state with the old nickname leaves the names as they were.
named-put :
    (o : Option ClientState) (client : ClientState)
    → client.nick ≡ (or_default client_state o).nick
    → named (some client) ≡ named o
unfolding client_state
named-put o client same = ground arith

named-put_state :
    (r : ClientRegistry) (fd g : ℕ) (client : ClientState)
    → client.nick ≡ (state r fd).nick
    → named (find g (put_state fd client r).states) ≡ named (find g r.states)
unfolding put_state state
named-put_state r fd g client same =
    rw (find-insert fd g client r.states)
      (ground (arith, ==_iff fd g, named-put (find fd r.states) client same))

pub put_state-IsIndexed :
    (r : ClientRegistry) (fd : ℕ) (client : ClientState)
    → client.nick ≡ (state r fd).nick
    → IsIndexed r
    → IsIndexed (put_state fd client r)
put_state-IsIndexed r fd client same i = record {
  sound = λ n g e. named-put_state r fd g client same ∙ i.sound n g (unfold put_state in e);
  complete =
      λ n g e. unfold put_state in i.complete n g (sym (named-put_state r fd g client same) ∙ e);
}

-- The index once a client has given its nickname up.
pub find-drop_nick :
    (n nick : Str) (index : Map Str ℕ)
    → find n (drop_nick nick index) ≡ (
        if is_empty nick
        then find n index
        else (if str_eq (canonical_nick nick) n then none else find n index))
find-drop_nick n nick index = ground (arith, find-erase (canonical_nick nick) n index)

pub erased-find :
    (r : ClientRegistry) (fd g : ℕ) (client : ClientState)
    → find fd r.states ≡ some client
    → find g (erase_client fd r).states ≡ (if nat_beq fd g then none else find g r.states)
unfolding erase_client
erased-find r fd g client e = rw (e, erase_client) (find-erase fd g r.states)

erased-index :
    (r : ClientRegistry) (fd : ℕ) (client : ClientState)
    → find fd r.states ≡ some client
    → (erase_client fd r).nickname_index ≡ drop_nick client.nick r.nickname_index
unfolding erase_client
erased-index r fd client e = rw (e, erase_client) refl

pub erase_client-absent :
    (r : ClientRegistry) (fd : ℕ) → find fd r.states ≡ none → erase_client fd r ≡ r
unfolding erase_client
erase_client-absent r fd e = rw (e, erase_client) refl

-- The index stays exact when a client is erased.
pub erase_client-IsIndexed :
    (r : ClientRegistry) (fd : ℕ) → IsIndexed r → IsIndexed (erase_client fd r)
erase_client-IsIndexed r fd i = elim (Option-cases (find fd r.states)) [
  | inl e ↦ rw (erase_client-absent r fd e) i
  | inr (client, e) ↦ record {
    sound = λ n g h. ground (
      arith,
      e,
      erased-find r fd g client e,
      erased-index r fd client e,
      find-drop_nick n client.nick r.nickname_index,
      i.sound n g,
      ==_iff fd g,
      str_eq_iff (canonical_nick client.nick) n,
      h,
    );
    complete = λ n g h. ground (
      arith,
      e,
      erased-find r fd g client e,
      erased-index r fd client e,
      find-drop_nick n client.nick r.nickname_index,
      i.complete n g,
      ==_iff fd g,
      str_eq_iff (canonical_nick client.nick) n,
      h,
      i.complete n fd,
    );
  }
]
