-- ===== src/MilStd/Names.antt =====
-- The names that the constructor gives.
use tcp_1553_bus_analyzer.Prelude.{
  ℕ, zero, suc, ◌+◌, ◌<◌, ◌≡◌, refl, ◌&&◌, arith, ltb, leb, ◌==◌, if◌then◌else◌, ◌++◌,
}
use tcp_1553_bus_analyzer.Text.{codes, decimal}
use tcp_1553_bus_analyzer.MilStd.{
  Rt, Bus, MilStd1553, set_name, modify, for_each, name_sa, name_rt, name_bus, name_of_bus,
  construct, bus_count, rt_count, sa_count,
}

-- The loop changes the elements that it comes to, each once.
pub for_each_at {ℓ} :
    {A : Type ℓ} (change : ℕ → A → A) (n i k : ℕ) (f : ℕ → A)
    → for_each change n i f k ≡ (if leb i k && ltb k (i + n) then change k (f k) else f k)
unfolding for_each
for_each_at change zero i k f = ground arith
for_each_at change (suc n) i k f =
    ground (arith, for_each_at change n (suc i) k (modify i (change i) f))

for_each_in {ℓ} :
    {A : Type ℓ} (change : ℕ → A → A) (n k : ℕ) (f : ℕ → A)
    → k < n
    → for_each change n 0 f k ≡ change k (f k)
for_each_in change n k f h = rw (for_each_at change n 0 k f) (ground (arith, h))

name_rt_sa :
    (i j : ℕ) (r : Rt) → j < sa_count → ((name_rt i r).sa_list j).name ≡ codes "SA " ++ decimal j
unfolding name_rt name_sa set_name
name_rt_sa i j r h = rw (for_each_in name_sa sa_count j r.sa_list h) refl

name_bus_rt :
    (b i : ℕ) (bus : Bus) → i < rt_count → (name_bus b bus).rt_list i ≡ name_rt i (bus.rt_list i)
unfolding name_bus
name_bus_rt b i bus h = for_each_in name_rt rt_count i bus.rt_list h

construct_bus :
    (m : MilStd1553) (b : ℕ)
    → b < bus_count
    → (construct m).bus_list b
      ≡ name_bus b (name_of_bus (if b == 0 then codes "BUS A" else codes "BUS B") (m.bus_list b))
unfolding construct name_bus for_each
construct_bus m zero h = refl
construct_bus m (suc zero) h = refl
construct_bus m (suc (suc b)) h = absurd (omega arith)

-- After the constructor each bus, terminal and subaddress has its name: BUS A and BUS B, and the
-- terminals and subaddresses by their own numbers.
pub construct_names :
    (m : MilStd1553) (b i j : ℕ)
    → b < bus_count
    → i < rt_count
    → j < sa_count
    → let bus = (construct m).bus_list b in
      (bus.item.name ≡ (if b == 0 then codes "BUS A" else codes "BUS B"))
      × ((bus.rt_list i).item.name ≡ codes "RT " ++ decimal i)
      × (((bus.rt_list i).sa_list j).name ≡ codes "SA " ++ decimal j)
unfolding name_bus name_rt set_name
construct_names m b i j hb hi hj =
    let bus = name_of_bus (if b == 0 then codes "BUS A" else codes "BUS B") (m.bus_list b) in
    rw (construct_bus m b hb, name_bus_rt b i bus hi, name_rt_sa i j (bus.rt_list i) hj)
      (refl, refl, refl)
