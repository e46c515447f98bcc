-- ===== src/View/Place.antt =====
-- The items of the tree in the order of the calls that append them.
use tcp_1553_bus_analyzer.Prelude.{
  ℕ, suc, ◌+◌, ◌*◌, ◌-◌, ◌/◌, ◌%◌, ◌<◌, ◌≡◌, refl, ap, sym, ◌∙◌, arith, ◌==◌, leb, if◌then◌else◌,
}

-- An item of the tree: a bus, a terminal, a subaddress, the item above the mode codes of a
-- terminal, and one of these by its place in the list.
pub data Place : Type 0 where
  bus_at : ℕ → Place
  rt_at : ℕ → ℕ → Place
  sa_at : ℕ → ℕ → ℕ → Place
  root_at : ℕ → ℕ → Place
  mc_at : ℕ → ℕ → ℕ → Place

abbrev pub IsPlace : Place → Type 0
IsPlace (bus_at i) = i < 2
IsPlace (rt_at i j) = (i < 2) × (j < 32)
IsPlace (sa_at i j k) = (i < 2) × (j < 32) × (k < 32)
IsPlace (root_at i j) = (i < 2) × (j < 32)
IsPlace (mc_at i j m) = (i < 2) × (j < 32) × (m < 11)

-- The number of the call that appends it: a terminal takes 45 calls, a bus 1441.
abbrev pub number : Place → ℕ
number (bus_at i) = i * 1441
number (rt_at i j) = i * 1441 + 1 + j * 45
number (sa_at i j k) = i * 1441 + 2 + j * 45 + k
number (root_at i j) = i * 1441 + 34 + j * 45
number (mc_at i j m) = i * 1441 + 35 + j * 45 + m

-- The item below a terminal by its number s there, and below a bus by its number r there.
unfoldable below_rt : ℕ → ℕ → ℕ → Place
below_rt i j s =
    if s == 0
    then rt_at i j
    else if leb s 32
    then sa_at i j (s - 1)
    else if s == 33
    then root_at i j
    else mc_at i j (s - 34)

unfoldable below_bus : ℕ → ℕ → Place
below_bus i r = if r == 0 then bus_at i else below_rt i ((r - 1) / 45) ((r - 1) % 45)

place_of : ℕ → Place
place_of n = below_bus (n / 1441) (n % 1441)

at_bus : (i j s : ℕ) → j < 32 → s < 45 → place_of (i * 1441 + 1 + j * 45 + s) ≡ below_rt i j s
unfolding place_of below_bus
at_bus i j s h k =
    let n = i * 1441 + 1 + j * 45 + s in
    let bus : n / 1441 ≡ i = omega (arith, h, k) in
    let r : n % 1441 ≡ suc (j * 45 + s) = omega (arith, h, k) in
    let q : (j * 45 + s) / 45 ≡ j = omega (arith, k) in
    let t : (j * 45 + s) % 45 ≡ s = omega (arith, k) in rw (bus, r) (ground (arith, q, t))

place_of-number : (p : Place) → IsPlace p → place_of (number p) ≡ p
unfolding below_rt
place_of-number (bus_at i) v =
    let bus : i * 1441 / 1441 ≡ i = omega arith in
    let r : i * 1441 % 1441 ≡ 0 = omega arith in unfold place_of below_bus in rw (bus, r) refl
place_of-number (rt_at i j) v = ap place_of (omega arith) ∙ at_bus i j 0 v.1 (omega arith)
place_of-number (sa_at i j k) v =
    ap place_of (omega arith) ∙ at_bus i j (suc k) v.1 (omega (arith, v.2)) ∙ ground (arith, v.2)
place_of-number (root_at i j) v = ap place_of (omega arith) ∙ at_bus i j 33 v.1 (omega arith)
place_of-number (mc_at i j m) v =
    ap place_of (omega arith) ∙ at_bus i j (34 + m) v.1 (omega (arith, v.2)) ∙ ground (arith, v.2)

-- No two items have the same number.
pub number-inj : (p q : Place) → IsPlace p → IsPlace q → number p ≡ number q → p ≡ q
number-inj p q v w e = sym (place_of-number p v) ∙ ap place_of e ∙ place_of-number q w
