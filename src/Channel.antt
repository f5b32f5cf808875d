-- ===== src/Channel.antt =====
-- Channel (include/Channel.hpp, src/Channel.cpp): the members, operators, invitations and modes of
-- one room. A client is named by its descriptor. `createdAt` is read by nothing and left out.
pub mod Invitations
use irc_relay_server.Prelude.{
  ℕ, Bool, true, false, ◌&&◌, ◌||◌, List, [], ◌∷◌, ◌++◌, map, any, length, is_empty, ltb, ◌==◌, not,
  if◌then◌else◌,
}
use irc_relay_server.Prelude.Map.{nat_key, member, set_insert, set_erase}
use irc_relay_server.Text.{Str, str_key, is_space, to_lower, starts_with_byte}

pub record Channel : Type 0 where
  pub name : Str
  pub members : List ℕ
  pub operators : List ℕ
  pub invited : List Str
  pub invite_only : Bool
  pub topic_protected : Bool
  pub has_topic : Bool
  pub topic : Str

abbrev pub channel : Str → Channel
channel name = record {
  name = name;
  members = [];
  operators = [];
  invited = [];
  invite_only = false;
  topic_protected = true;
  has_topic = false;
  topic = [];
}

unfoldable pub empty : Channel → Bool
empty c = is_empty c.members

unfoldable pub member_count : Channel → ℕ
member_count c = length c.members

unfoldable pub has_member : Channel → ℕ → Bool
has_member c client = member client c.members

unfoldable pub is_operator : Channel → ℕ → Bool
is_operator c client = member client c.operators

unfoldable pub add_member : ℕ → Bool → Channel → Channel
add_member client as_operator c = record c {
  members = set_insert client c.members;
  operators = if as_operator then set_insert client c.operators else c.operators;
}

unfoldable pub remove_member : ℕ → Channel → Channel
remove_member client c = record c {
  members = set_erase client c.members;
  operators = set_erase client c.operators;
}

unfoldable pub set_operator : ℕ → Bool → Channel → Channel
set_operator client enabled c = if not (member client c.members) then c else record c {
  operators = if enabled then set_insert client c.operators else set_erase client c.operators;
}

unfoldable pub set_invite_only : Bool → Channel → Channel
set_invite_only enabled c = record c { invite_only = enabled }

unfoldable pub set_topic_protected : Bool → Channel → Channel
set_topic_protected enabled c = record c { topic_protected = enabled }

unfoldable pub set_topic : Str → Channel → Channel
set_topic value c = record c { topic = value; has_topic = true }

unfoldable pub clear_topic : Channel → Channel
clear_topic c = record c { topic = []; has_topic = false }

unfoldable pub canonical_nick : Str → Str
canonical_nick nickname = map to_lower nickname

unfoldable pub invite : Str → Channel → Channel
invite nickname c = record c { invited = set_insert (canonical_nick nickname) c.invited }

unfoldable pub is_invited : Channel → Str → Bool
is_invited c nickname = member (canonical_nick nickname) c.invited

unfoldable pub clear_invite : Str → Channel → Channel
clear_invite nickname c = record c { invited = set_erase (canonical_nick nickname) c.invited }

unfoldable pub mode_string : Channel → Str
mode_string c =
    b'+' ∷ (if c.invite_only then b'i' ∷ [] else [])
    ++ (if c.topic_protected then b't' ∷ [] else [])

-- Neither a space, nor a comma, nor BEL.
abbrev pub is_name_byte : ℕ → Bool
is_name_byte c = not (is_space c || c == b',' || c == 7)

unfoldable pub is_valid_name : Str → Bool
is_valid_name name =
    not (ltb (length name) 2)
    && (starts_with_byte b'#' name || starts_with_byte b'&' name)
    && not (any (λ c. is_space c || c == b',' || c == 7) name)
