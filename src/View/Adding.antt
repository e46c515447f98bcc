-- ===== src/View/Adding.antt =====
-- That each of the constructor's calls of `AppendItem` appends its item.
use tcp_1553_bus_analyzer.Prelude.{ℕ, ◌≡◌, ◌≢◌, refl, ap, none, arith}
use mathlib.Core.Path.{ap₂}
use tcp_1553_bus_analyzer.MilStd.{MilStd1553}
use tcp_1553_bus_analyzer.View.Place.{Place, bus_at, rt_at, sa_at, root_at, mc_at, number}
use tcp_1553_bus_analyzer.View.Build.{
  Building, append_sa, append_mode_code, append_mode_root, append_rt_item, append_bus_item,
}
use tcp_1553_bus_analyzer.View.Built.{item, kept_id, Appends, mode_code_at}

module _ (new_item : ℕ → ℕ) (root : ℕ) (model : MilStd1553) (b : Building) where
  bus-kept :
      (i : ℕ) (q : Place)
      → q ≢ bus_at i
      → kept_id new_item root model (append_bus_item new_item root model i b).tree q
        ≡ kept_id new_item root model b.tree q
  unfolding append_bus_item
  bus-kept i (bus_at i2) h =
      let other : i2 ≢ i = λ (e : i2 ≡ i). h (ap bus_at e) in ground (arith, other)
  bus-kept i (rt_at i2 j2) h = refl
  bus-kept i (sa_at i2 j2 k2) h = refl
  bus-kept i (root_at i2 j2) h = refl
  bus-kept i (mc_at i2 j2 m2) h = refl

  pub adds_bus :
      (i : ℕ)
      → b.appended ≡ number (bus_at i)
      → b.tree.mc_of (item new_item root model (bus_at i)) ≡ none
      → Appends new_item root model (bus_at i) b (append_bus_item new_item root model i b)
  unfolding append_bus_item
  adds_bus i n free = record {
    one_more = refl;
    here = record {
      kept = ground (arith, n);
      parent = ground (arith, n);
      text = ground (arith, n);
      code = ground (arith, n, free);
    };
    others = λ q z h. bus-kept i q h;
    parents = λ x h. ground (arith, n, h);
    texts = λ x h. ground (arith, n, h);
    codes_kept = λ x h. ground (arith, n, h);
  }

  rt-kept :
      (i j : ℕ) (q : Place)
      → q ≢ rt_at i j
      → kept_id new_item root model (append_rt_item new_item root model i j b).tree q
        ≡ kept_id new_item root model b.tree q
  unfolding append_rt_item
  rt-kept i j (bus_at i2) h = refl
  rt-kept i j (rt_at i2 j2) h =
      let other : i2 ≡ i → j2 ≢ j = λ (e : i2 ≡ i) (f : j2 ≡ j). h (ap₂ rt_at e f) in
      ground (arith, other)
  rt-kept i j (sa_at i2 j2 k2) h = refl
  rt-kept i j (root_at i2 j2) h = refl
  rt-kept i j (mc_at i2 j2 m2) h = refl

  pub adds_rt :
      (i j : ℕ)
      → b.tree.bus_id i ≡ item new_item root model (bus_at i)
      → b.appended ≡ number (rt_at i j)
      → b.tree.mc_of (item new_item root model (rt_at i j)) ≡ none
      → Appends new_item root model (rt_at i j) b (append_rt_item new_item root model i j b)
  unfolding append_rt_item
  adds_rt i j up n free = record {
    one_more = refl;
    here = record {
      kept = ground (arith, n);
      parent = ground (arith, n, up);
      text = ground (arith, n);
      code = ground (arith, n, free);
    };
    others = λ q z h. rt-kept i j q h;
    parents = λ x h. ground (arith, n, h);
    texts = λ x h. ground (arith, n, h);
    codes_kept = λ x h. ground (arith, n, h);
  }

  sa-kept :
      (i j k : ℕ) (q : Place)
      → q ≢ sa_at i j k
      → kept_id new_item root model (append_sa new_item root model i j k b).tree q
        ≡ kept_id new_item root model b.tree q
  unfolding append_sa
  sa-kept i j k (bus_at i2) h = refl
  sa-kept i j k (rt_at i2 j2) h = refl
  sa-kept i j k (sa_at i2 j2 k2) h =
      let other : i2 ≡ i → j2 ≡ j → k2 ≢ k =
        λ (e : i2 ≡ i) (f : j2 ≡ j) (g : k2 ≡ k). h (cc (e, f, g)) in
      ground (arith, other)
  sa-kept i j k (root_at i2 j2) h = refl
  sa-kept i j k (mc_at i2 j2 m2) h = refl

  pub adds_sa :
      (i j k : ℕ)
      → b.tree.rt_id i j ≡ item new_item root model (rt_at i j)
      → b.appended ≡ number (sa_at i j k)
      → b.tree.mc_of (item new_item root model (sa_at i j k)) ≡ none
      → Appends new_item root model (sa_at i j k) b (append_sa new_item root model i j k b)
  unfolding append_sa
  adds_sa i j k up n free = record {
    one_more = refl;
    here = record {
      kept = ground (arith, n);
      parent = ground (arith, n, up);
      text = ground (arith, n);
      code = ground (arith, n, free);
    };
    others = λ q z h. sa-kept i j k q h;
    parents = λ x h. ground (arith, n, h);
    texts = λ x h. ground (arith, n, h);
    codes_kept = λ x h. ground (arith, n, h);
  }

  root-kept :
      (i j : ℕ) (q : Place)
      → q ≢ root_at i j
      → kept_id new_item root model (append_mode_root new_item root model i j b).tree q
        ≡ kept_id new_item root model b.tree q
  unfolding append_mode_root
  root-kept i j (bus_at i2) h = refl
  root-kept i j (rt_at i2 j2) h = refl
  root-kept i j (sa_at i2 j2 k2) h = refl
  root-kept i j (root_at i2 j2) h = refl
  root-kept i j (mc_at i2 j2 m2) h = refl

  pub adds_root :
      (i j : ℕ)
      → b.tree.rt_id i j ≡ item new_item root model (rt_at i j)
      → b.appended ≡ number (root_at i j)
      → b.tree.mc_of (item new_item root model (root_at i j)) ≡ none
      → Appends new_item root model (root_at i j) b (append_mode_root new_item root model i j b)
  unfolding append_mode_root
  adds_root i j up n free = record {
    one_more = refl;
    here = record {
      kept = ground (arith, n);
      parent = ground (arith, n, up);
      text = ground (arith, n);
      code = ground (arith, n, free);
    };
    others = λ q z h. root-kept i j q h;
    parents = λ x h. ground (arith, n, h);
    texts = λ x h. ground (arith, n, h);
    codes_kept = λ x h. ground (arith, n, h);
  }

  mc-kept :
      (i j m : ℕ) (q : Place)
      → q ≢ mc_at i j m
      → kept_id new_item root model
          (append_mode_code new_item root model
            (item new_item root model (root_at i j))
            (mode_code_at m)
            b).tree
          q
        ≡ kept_id new_item root model b.tree q
  unfolding append_mode_code
  mc-kept i j m (bus_at i2) h = refl
  mc-kept i j m (rt_at i2 j2) h = refl
  mc-kept i j m (sa_at i2 j2 k2) h = refl
  mc-kept i j m (root_at i2 j2) h = refl
  mc-kept i j m (mc_at i2 j2 m2) h = refl

  pub adds_mc :
      (i j m : ℕ)
      → b.appended ≡ number (mc_at i j m)
      → b.tree.mc_of (item new_item root model (mc_at i j m)) ≡ none
      → Appends new_item root model (mc_at i j m) b (
          append_mode_code new_item root model
            (item new_item root model (root_at i j))
            (mode_code_at m)
            b)
  unfolding append_mode_code
  adds_mc i j m n free = record {
    one_more = refl;
    here = record {
      kept = ground (arith, n);
      parent = ground (arith, n);
      text = ground (arith, n);
      code = ground (arith, n, free);
    };
    others = λ q z h. mc-kept i j m q h;
    parents = λ x h. ground (arith, n, h);
    texts = λ x h. ground (arith, n, h);
    codes_kept = λ x h. ground (arith, n, h);
  }
