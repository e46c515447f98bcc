-- ===== src/View/Messages.antt =====
-- The bound on the text that the panel keeps.
use tcp_1553_bus_analyzer.Prelude.{ℕ, suc, ◌+◌, ◌-◌, ◌%◌, ◌≤◌, ◌<◌, ◌≡◌, ◌⊎◌, ◌++◌, arith, drop}
use tcp_1553_bus_analyzer.Prelude.Int.{pos}
use tcp_1553_bus_analyzer.Text.{Text}
use tcp_1553_bus_analyzer.View.{View}
use tcp_1553_bus_analyzer.View.Shown.{Lines, append_messages}

-- The position of a line of the text is where so many lines end: without what stands before it the
-- text has so many lines less.
pub record IsLineCount (l : Lines) : Type 0 where
  pub at_position :
      (text : Text) (n : ℕ)
      → n < l.count text
      → (p : ℕ) × (l.position text n ≡ pos p) × (l.count (drop p text) + n ≡ l.count text)

-- At every tenth call the text is left with 2200 lines at most, and where it is cut it keeps the
-- last 2000.
pub append_messages-le :
    (l : Lines) (chunk : Text) (v : View)
    → IsLineCount l
    → suc v.check_counter % 10 ≡ 0
    → let text = v.message_list ++ chunk in
      let kept = (append_messages l chunk v).message_list in
      (l.count kept ≤ 2200) × ((kept ≡ text) ⊎ (l.count kept ≡ 2000))
unfolding append_messages
append_messages-le l chunk v h tenth =
    let text = v.message_list ++ chunk in ground (arith, h.at_position text (l.count text - 2000))
