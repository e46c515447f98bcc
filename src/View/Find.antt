-- ===== src/View/Find.antt =====
-- The search of the tree.
use tcp_1553_bus_analyzer.Prelude.{
  ℕ, zero, suc, ◌+◌, ◌≤◌, ◌<◌, ◌≡◌, ◌≢◌, refl, ◌⊎◌, inl, inr, Option, none, some, arith, ◌==◌,
  Bool-cases,
}
use tcp_1553_bus_analyzer.Prelude.Int.{pos, minus_one}
use tcp_1553_bus_analyzer.View.{
  Tree, Criteria, bus_char, first_of, find_sa, find_rt, find_bus, find_item,
}
use tcp_1553_bus_analyzer.MilStd.{bus_count, rt_count, sa_count}

module _ {ℓ} {A : Type ℓ} (f : ℕ → Option A) where
  pub first_of-none :
      (n lo : ℕ) → ((m : ℕ) → lo ≤ m → m < lo + n → f m ≡ none) → first_of f n lo ≡ none
  unfolding first_of
  first_of-none zero lo h = refl
  first_of-none (suc n) lo h =
      rw (h lo (omega arith) (omega arith))
        (first_of-none n (suc lo) (λ m a b. h m (omega arith) (omega arith)))

  pub first_of-some :
      (n lo i : ℕ) (x : A)
      → lo ≤ i
      → i < lo + n
      → f i ≡ some x
      → ((m : ℕ) → lo ≤ m → m < i → f m ≡ none)
      → first_of f n lo ≡ some x
  unfolding first_of
  first_of-some zero lo i x a b e h = absurd (omega arith)
  first_of-some (suc n) lo i x a b e h = elim (Bool-cases (lo == i)) [
    | inl here ↦ let same : lo ≡ i = ground (arith, here) in rw (same, e) refl
    | inr later ↦
        let less : lo < i = ground (arith, later) in
        rw (h lo (omega arith) less) (
          first_of-some n (suc lo) i x (omega arith) (omega arith) e (λ m p q. h m (omega arith) q))
  ]

-- A subaddress of the bus.
pub record IsAddress (i j k : ℕ) : Type 0 where
  pub bus_range : i < bus_count
  pub rt_range : j < rt_count
  pub sa_range : k < sa_count

-- The tree gave no identifier twice.
pub record IsDistinct (t : Tree) : Type 0 where
  pub sa_once :
      (i j k i2 j2 k2 : ℕ)
      → IsAddress i j k
      → IsAddress i2 j2 k2
      → t.sa_id i j k ≡ t.sa_id i2 j2 k2
      → (i ≡ i2) × (j ≡ j2) × (k ≡ k2)
  pub rt_not_sa :
      (i j k i2 j2 : ℕ)
      → IsAddress i j k
      → i2 < bus_count
      → j2 < rt_count
      → t.rt_id i2 j2 ≢ t.sa_id i j k
  pub bus_not_sa : (i j k i2 : ℕ) → IsAddress i j k → i2 < bus_count → t.bus_id i2 ≢ t.sa_id i j k

module _ (t : Tree) (v : IsDistinct t) (i j k : ℕ) (a : IsAddress i j k) where
  clicked : ℕ
  clicked = t.sa_id i j k

  criteria : Criteria
  criteria = record { bus = bus_char i; rt = pos j; sa = pos k; mc = minus_one }

  find_sa_other :
      (i2 j2 k2 : ℕ)
      → IsAddress i2 j2 k2
      → (i2 ≢ i) ⊎ ((j2 ≢ j) ⊎ (k2 ≢ k))
      → find_sa t clicked i2 j2 k2 ≡ none
  unfolding find_sa clicked
  find_sa_other i2 j2 k2 b h = ground (arith, v.sa_once i2 j2 k2 i j k b a, h)

  find_rt_other :
      (i2 j2 : ℕ)
      → i2 < bus_count
      → j2 < rt_count
      → (i2 ≢ i) ⊎ (j2 ≢ j)
      → find_rt t clicked i2 j2 ≡ none
  unfolding find_rt clicked
  find_rt_other i2 j2 p q h = ground (
    arith,
    v.rt_not_sa i j k i2 j2 a p q,
    first_of-none (find_sa t clicked i2 j2) sa_count 0 (λ m x y.
        find_sa_other i2 j2 m (record { bus_range = p; rt_range = q; sa_range = y })
          (elim h [ inl c ↦ inl c | inr c ↦ inr (inl c) ])),
  )

  find_bus_other : (i2 : ℕ) → i2 < bus_count → i2 ≢ i → find_bus t clicked i2 ≡ none
  unfolding find_bus clicked
  find_bus_other i2 p h = ground (
    arith,
    v.bus_not_sa i j k i2 a p,
    first_of-none (find_rt t clicked i2) rt_count 0 (λ m x y. find_rt_other i2 m p y (inl h)),
  )

  find_sa_here : find_sa t clicked i j k ≡ some criteria
  unfolding find_sa clicked criteria
  find_sa_here = ground arith

  find_rt_here : find_rt t clicked i j ≡ some criteria
  unfolding find_rt clicked
  find_rt_here = ground (
    arith,
    v.rt_not_sa i j k i j a a.bus_range a.rt_range,
    first_of-some (find_sa t clicked i j) sa_count 0 k criteria (omega arith)
        (omega (arith, a.sa_range)) find_sa_here
        (λ m x y.
          find_sa_other i j m
            (record {
              bus_range = a.bus_range;
              rt_range = a.rt_range;
              sa_range = omega (arith, a.sa_range);
            })
            (inr (inr (omega arith)))),
  )

  find_bus_here : find_bus t clicked i ≡ some criteria
  unfolding find_bus clicked
  find_bus_here = ground (
    arith,
    v.bus_not_sa i j k i a a.bus_range,
    first_of-some (find_rt t clicked i) rt_count 0 j criteria (omega arith)
        (omega (arith, a.rt_range)) find_rt_here
        (λ m x y. find_rt_other i m a.bus_range (omega (arith, a.rt_range)) (inr (omega arith))),
  )

  -- The search finds the bus, the terminal and the subaddress of the item.
  pub find_item_sa :
      find_item t (t.sa_id i j k)
      ≡ some (record { bus = bus_char i; rt = pos j; sa = pos k; mc = minus_one })
  unfolding find_item clicked criteria
  find_item_sa =
      first_of-some (find_bus t clicked) bus_count 0 i criteria (omega arith)
        (omega (arith, a.bus_range)) find_bus_here
        (λ m x y. find_bus_other m (omega (arith, a.bus_range)) (omega arith))
