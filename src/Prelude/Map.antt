-- ===== src/Prelude/Map.antt =====
-- `std::map` as an association list in key order, and `std::set` as a list in order. Lookup
-- compares every key, so the laws hold of any list; the order decides only how a loop visits it.
use Prim.Native.Nat.{ℕ, ◌≤◌, ◌<◌}
use mathlib.Core.Path.{◌≡◌, refl}
use mathlib.Core.Logic.{◌↔◌}
use mathlib.Core.Bool.{Bool, true, false}
use mathlib.Core.List.{List, [], ◌∷◌, map}
use mathlib.Core.Option.{Option, none, some}
use native.Mathlib.Omega.{arith}
use irc_relay_server.Prelude.Tests.{ltb, ◌==◌ as nat_beq, ==_iff, if◌then◌else◌, is_some}
use irc_relay_server.Prelude.Lists.{length}

-- A key type: its equality, and the order `std::less` in which containers are visited.
pub record Key {ℓ} (K : Type ℓ) : Type ℓ where
  pub beq : K → K → Bool
  pub less : K → K → Bool
  pub beq_iff : (a b : K) → (beq a b ≡ true) ↔ (a ≡ b)

infix 50 ◌==◌
abbrev pub ◌==◌ {ℓ} : {K : Type ℓ} ⦃e : Key K⦄ → K → K → Bool
◌==◌ ⦃e⦄ = e.beq

instance abbrev pub nat_key : Key ℕ
nat_key = record { beq = nat_beq; less = ltb; beq_iff = ==_iff }

pub beq_refl {ℓ} : {K : Type ℓ} ⦃e : Key K⦄ (k : K) → (k == k) ≡ true
beq_refl ⦃e⦄ k = (e.beq_iff k k).1 refl

abbrev pub Map {ℓ κ} : Type ℓ → Type κ → Type (ℓ ⊔ κ)
Map K V = List (K × V)

abbrev pub mapped {ℓ} : {V : Type ℓ} → (V → V) → Option V → Option V
mapped f none = none
mapped f (some v) = some (f v)

module _ {ℓ κ} {K : Type ℓ} {V : Type κ} ⦃e : Key K⦄ where
  unfoldable pub find : K → Map K V → Option V
  find k [] = none
  find k ((j, v) ∷ m) = if j == k then some v else find k m

  abbrev pub contains : K → Map K V → Bool
  contains k m = is_some (find k m)

  -- `m[k] = v`.
  unfoldable pub insert : K → V → Map K V → Map K V
  insert k v [] = (k, v) ∷ []
  insert k v ((j, w) ∷ m) =
      if j == k
      then (k, v) ∷ m
      else if e.less k j
      then (k, v) ∷ (j, w) ∷ m
      else (j, w) ∷ insert k v m

  unfoldable pub erase : K → Map K V → Map K V
  erase k [] = []
  erase k ((j, v) ∷ m) = let rest = erase k m in if j == k then rest else (j, v) ∷ rest

  -- A write through a pointer or an iterator to the value at `k`.
  unfoldable pub modify : K → (V → V) → Map K V → Map K V
  modify k f [] = []
  modify k f ((j, v) ∷ m) = if j == k then (j, f v) ∷ modify k f m else (j, v) ∷ modify k f m

  abbrev pub keys : Map K V → List K
  keys = map (λ p. p.0)

  pub find-insert :
      (k j : K) (v : V) (m : Map K V)
      → find j (insert k v m) ≡ (if k == j then some v else find j m)
  unfolding find insert
  find-insert k j v [] = refl
  find-insert k j v ((i, w) ∷ m) =
      ground (arith, e.beq_iff k j, e.beq_iff i k, e.beq_iff i j, find-insert k j v m)

  pub find-erase :
      (k j : K) (m : Map K V) → find j (erase k m) ≡ (if k == j then none else find j m)
  unfolding find erase
  find-erase k j [] = ground arith
  find-erase k j ((i, w) ∷ m) =
      ground (arith, e.beq_iff k j, e.beq_iff i k, e.beq_iff i j, find-erase k j m)

  pub find-modify :
      (k j : K) (f : V → V) (m : Map K V)
      → find j (modify k f m) ≡ (if k == j then mapped f (find j m) else find j m)
  unfolding find modify
  find-modify k j f [] = ground arith
  find-modify k j f ((i, w) ∷ m) =
      ground (arith, e.beq_iff k j, e.beq_iff i k, e.beq_iff i j, find-modify k j f m)

  pub length-modify : (k : K) (f : V → V) (m : Map K V) → length (modify k f m) ≡ length m
  unfolding modify
  length-modify k f [] = refl
  length-modify k f ((i, w) ∷ m) = ground (arith, length-modify k f m)

  pub length-erase-le : (k : K) (m : Map K V) → length (erase k m) ≤ length m
  unfolding erase
  length-erase-le k [] = omega arith
  length-erase-le k ((i, w) ∷ m) = ground (arith, length-erase-le k m)

  -- What is present and erased makes the map smaller.
  pub length-erase-lt :
      (k : K) (v : V) (m : Map K V) → find k m ≡ some v → length (erase k m) < length m
  unfolding find erase
  length-erase-lt k v [] h = ground arith
  length-erase-lt k v ((i, w) ∷ m) h = ground (arith, length-erase-le k m, length-erase-lt k v m)

-- `std::set`.
module _ {ℓ} {K : Type ℓ} ⦃e : Key K⦄ where
  unfoldable pub member : K → List K → Bool
  member k [] = false
  member k (j ∷ s) = if j == k then true else member k s

  unfoldable pub set_insert : K → List K → List K
  set_insert k [] = k ∷ []
  set_insert k (j ∷ s) =
      if j == k then j ∷ s else if e.less k j then k ∷ j ∷ s else j ∷ set_insert k s

  unfoldable pub set_erase : K → List K → List K
  set_erase k [] = []
  set_erase k (j ∷ s) = let rest = set_erase k s in if j == k then rest else j ∷ rest

  -- `s.insert(first, last)`.
  unfoldable pub insert_all : List K → List K → List K
  insert_all [] s = s
  insert_all (k ∷ ks) s = insert_all ks (set_insert k s)

  pub member-set_insert :
      (k j : K) (s : List K) → member j (set_insert k s) ≡ (if k == j then true else member j s)
  unfolding member set_insert
  member-set_insert k j [] = refl
  member-set_insert k j (i ∷ s) =
      ground (arith, e.beq_iff k j, e.beq_iff i k, e.beq_iff i j, member-set_insert k j s)

  pub member-set_erase :
      (k j : K) (s : List K) → member j (set_erase k s) ≡ (if k == j then false else member j s)
  unfolding member set_erase
  member-set_erase k j [] = ground arith
  member-set_erase k j (i ∷ s) =
      ground (arith, e.beq_iff k j, e.beq_iff i k, e.beq_iff i j, member-set_erase k j s)

  pub member-insert_all :
      (j : K) (ks s : List K)
      → member j (insert_all ks s) ≡ (if member j ks then true else member j s)
  unfolding member insert_all
  member-insert_all j [] s = refl
  member-insert_all j (k ∷ ks) s =
      ground (arith, member-insert_all j ks (set_insert k s), member-set_insert k j s)

pub member-keys {ℓ κ} :
    {K : Type ℓ} {V : Type κ} ⦃e : Key K⦄ (k : K) (m : Map K V) → member k (keys m) ≡ contains k m
unfolding member find
member-keys k [] = refl
member-keys k ((j, v) ∷ m) = ground (arith, member-keys k m)
