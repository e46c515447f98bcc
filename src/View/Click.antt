-- ===== src/View/Click.antt =====
-- What a click on the tree does to the monitor.
use tcp_1553_bus_analyzer.Prelude.{ℕ, ◌≡◌, ◌↔◌, true, none, arith}
use tcp_1553_bus_analyzer.Prelude.Int.{pos, minus_one}
use tcp_1553_bus_analyzer.Protocol.{Packet}
use tcp_1553_bus_analyzer.Parser.RoundTrip.{transaction_of}
use tcp_1553_bus_analyzer.Bm.{Bm, passes, enable_filter, set_filter_criteria}
use tcp_1553_bus_analyzer.Bm.Fields.{IsOnBus}
use tcp_1553_bus_analyzer.Bm.Filter.{Matches, passes_iff}
use tcp_1553_bus_analyzer.View.{View, bus_char, find_clicked, on_tree_item_clicked}
use tcp_1553_bus_analyzer.View.Find.{IsAddress, IsDistinct, find_item_sa}

Matches-enable_filter :
    (s : Bm) (bus : ℕ) (rt sa j k : ℕ)
    → Matches (enable_filter true (set_filter_criteria bus (pos j) (pos k) minus_one s)) rt sa
      ↔ ((rt ≡ j) × (sa ≡ k))
unfolding enable_filter set_filter_criteria
Matches-enable_filter s bus rt sa j k = (ground arith, ground arith)

clicked_sa :
    (i j k : ℕ) (v : View) (s : Bm)
    → IsDistinct v.tree
    → IsAddress i j k
    → v.tree.mc_of (v.tree.sa_id i j k) ≡ none
    → (on_tree_item_clicked (v.tree.sa_id i j k) v s).1
      ≡ enable_filter true (set_filter_criteria (bus_char i) (pos j) (pos k) minus_one s)
unfolding on_tree_item_clicked find_clicked
clicked_sa i j k v s d a m = ground (arith, m, find_item_sa v.tree d i j k a)

-- After a click on the item of a subaddress the monitor passes, of the packets on the bus, exactly
-- those with that terminal and that subaddress, whichever of the two buses the item belongs to.
pub click_filters :
    (i j k : ℕ) (v : View) (s : Bm) (p : Packet)
    → IsDistinct v.tree
    → IsAddress i j k
    → v.tree.mc_of (v.tree.sa_id i j k) ≡ none
    → IsOnBus p
    → (passes (on_tree_item_clicked (v.tree.sa_id i j k) v s).1 (transaction_of p) ≡ true)
      ↔ ((p.rt ≡ j) × (p.sa ≡ k))
click_filters i j k v s p d a m on =
    let t = enable_filter true (set_filter_criteria (bus_char i) (pos j) (pos k) minus_one s) in
    let (down, up) = passes_iff t p on in
    let (only, all) = Matches-enable_filter s (bus_char i) p.rt p.sa j k in
    rw (clicked_sa i j k v s d a m) ((λ h. only (down h)), (λ h. up (all h)))
