-- ===== src/Bm/Keys.antt =====
-- `RtSaKey` and the `std::set` of them: the keys in the order of `operator<`, each once.
use tcp_1553_bus_analyzer.Prelude.{
  ℕ, ◌≡◌, ◌↔◌, ◌⊎◌, Bool, true, false, not, List, [], ◌∷◌, arith, ltb, ◌==◌, if◌then◌else◌,
}

pub record RtSaKey : Type 0 where
  pub bus : ℕ
  pub rt : ℕ
  pub sa : ℕ

-- `operator<`.
unfoldable pub precedes : RtSaKey → RtSaKey → Bool
precedes k o =
    if not (k.bus == o.bus)
    then ltb k.bus o.bus
    else if not (k.rt == o.rt)
    then ltb k.rt o.rt
    else ltb k.sa o.sa

-- `std::set::insert`: a key that is neither before nor behind one that is there is not added.
unfoldable pub insert_key : RtSaKey → List RtSaKey → List RtSaKey
insert_key k [] = k ∷ []
insert_key k (o ∷ os) =
    if precedes k o then k ∷ o ∷ os else if precedes o k then o ∷ insert_key k os else o ∷ os

pub precedes_trans :
    (a b c : RtSaKey) → precedes a b ≡ true → precedes b c ≡ true → precedes a c ≡ true
unfolding precedes
precedes_trans a b c h k = ground arith

-- Neither before nor behind is the same key.
pub precedes-eq : (a b : RtSaKey) → precedes a b ≡ false → precedes b a ≡ false → a ≡ b
unfolding precedes
precedes-eq a b h k = ground arith

pub not-precedes_self : (a : RtSaKey) → precedes a a ≡ false
unfolding precedes
not-precedes_self a = ground arith

abbrev pub AllBehind : RtSaKey → List RtSaKey → Type 0
AllBehind k [] = Unit {0}
AllBehind k (o ∷ os) = (precedes k o ≡ true) × AllBehind k os

-- Strictly increasing, so each key is there once.
abbrev pub IsKeySet : List RtSaKey → Type 0
IsKeySet [] = Unit {0}
IsKeySet (k ∷ ks) = AllBehind k ks × IsKeySet ks

AllBehind-trans :
    (a b : RtSaKey) (ks : List RtSaKey) → precedes a b ≡ true → AllBehind b ks → AllBehind a ks
AllBehind-trans a b [] h v = tt
AllBehind-trans a b (k ∷ ks) h v = (precedes_trans a b k h v.0, AllBehind-trans a b ks h v.1)

insert_key-AllBehind :
    (a k : RtSaKey) (ks : List RtSaKey)
    → precedes a k ≡ true
    → AllBehind a ks
    → AllBehind a (insert_key k ks)
unfolding insert_key
insert_key-AllBehind a k [] h v = (h, tt)
insert_key-AllBehind a k (o ∷ os) h v = ground (arith, insert_key-AllBehind a k os h v.1)

pub insert_key-IsKeySet :
    (k : RtSaKey) (ks : List RtSaKey) → IsKeySet ks → IsKeySet (insert_key k ks)
unfolding insert_key
insert_key-IsKeySet k [] v = (tt, tt)
insert_key-IsKeySet k (o ∷ os) v =
    ground
      (arith, AllBehind-trans k o os, insert_key-IsKeySet k os v.1, insert_key-AllBehind o k os)

abbrev pub Holds : RtSaKey → List RtSaKey → Type 0
Holds k [] = ⊥
Holds k (o ∷ os) = (k ≡ o) ⊎ Holds k os

insert_key-Holds_down :
    (j k : RtSaKey) (ks : List RtSaKey) → Holds j (insert_key k ks) → (j ≡ k) ⊎ Holds j ks
unfolding insert_key
insert_key-Holds_down j k [] h = h
insert_key-Holds_down j k (o ∷ os) h = ground (arith, insert_key-Holds_down j k os)

insert_key-Holds_up :
    (j k : RtSaKey) (ks : List RtSaKey) → (j ≡ k) ⊎ Holds j ks → Holds j (insert_key k ks)
unfolding insert_key
insert_key-Holds_up j k [] h = h
insert_key-Holds_up j k (o ∷ os) h = ground (arith, precedes-eq k o, insert_key-Holds_up j k os)

-- The set holds the new key and what it held, and nothing else.
pub insert_key-Holds :
    (j k : RtSaKey) (ks : List RtSaKey) → Holds j (insert_key k ks) ↔ ((j ≡ k) ⊎ Holds j ks)
insert_key-Holds j k ks = (insert_key-Holds_down j k ks, insert_key-Holds_up j k ks)
