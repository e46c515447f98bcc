-- ===== src/Tests/EditorTests.antt =====
-- The round trip of the frame editor at a concrete frame, with widgets that read one or two digits.
use tcp_1553_bus_analyzer.Prelude.{
  ℕ, zero, suc, ◌+◌, ◌-◌, ◌*◌, ◌<◌, ◌≡◌, refl, ap, inl, Bool, true, false, ◌&&◌, [], ◌∷◌, Option,
  some, none, ◌==◌, arith, get_or, ltb, length,
}
use tcp_1553_bus_analyzer.Prelude.Int.{ℤ, pos, minus_one}
use tcp_1553_bus_analyzer.Text.{Text, codes, decimal, decimal_int}
use tcp_1553_bus_analyzer.Common.{FrameConfig, bc_to_rt}
use tcp_1553_bus_analyzer.Parser.RoundTrip.{transaction_of}
use tcp_1553_bus_analyzer.Bc.Send.{packet_of}
use tcp_1553_bus_analyzer.Editor.{
  Widgets, Editor, open_editor, on_save, close, update_control_states, sends_data,
}
use tcp_1553_bus_analyzer.Editor.Enabled.{enabled_iff_decoded}
use tcp_1553_bus_analyzer.Editor.Save.{IsFaithful, on_save-open_editor}
use tcp_1553_bus_analyzer.Tests.Samples.{sample_frame}

abbrev read_digits : Text → Option ℤ
read_digits (a ∷ []) = some (pos (a - b'0'))
read_digits (a ∷ b ∷ []) = some (pos ((a - b'0') * 10 + (b - b'0')))
read_digits _ = none

abbrev plain : Widgets
plain = record { to_long = read_digits; choice_text = λ choices t. t }

abbrev all_below : (ℕ → Bool) → ℕ → Bool
all_below f zero = true
all_below f (suc n) = f n && all_below f n

all_below_lem : (f : ℕ → Bool) (k n : ℕ) → all_below f k ≡ true → n < k → f n ≡ true
all_below_lem f zero n h l = elim l [ ]
all_below_lem f (suc k) n h l = ground (arith, all_below_lem f k n, h, ap f)

abbrev is_value : ℕ → Option ℤ → Bool
is_value n (some (pos m)) = m == n
is_value n _ = false

is_value_lem : (n : ℕ) (o : Option ℤ) → is_value n o ≡ true → o ≡ some (pos n)
is_value_lem n o h = ground (arith, h)

abbrev reads_back : ℕ → Bool
reads_back n = is_value n (read_digits (decimal n))

all_read_back : all_below reads_back 33 ≡ true
unfolding decimal
all_read_back = refl

plain-IsFaithful : IsFaithful plain
plain-IsFaithful = record {
  keeps_rt = λ n h. refl;
  keeps_wc = λ n h. refl;
  reads = λ n h. is_value_lem n _ (all_below_lem reads_back 33 n all_read_back h);
}

abbrev labelled_frame : FrameConfig
labelled_frame = record sample_frame { label = codes "GPS" }

on_save-open_editor_example :
    on_save plain minus_one (open_editor plain (some labelled_frame))
    ≡ (labelled_frame, close (open_editor plain (some labelled_frame)))
on_save-open_editor_example =
    on_save-open_editor plain minus_one labelled_frame 2 6 0 0 2 plain-IsFaithful (record {
      labelled = refl;
      on_bus = inl refl;
      rt_is = refl;
      sa_is = refl;
      rt2_is = refl;
      sa2_is = refl;
      wc_is = refl;
      rt_range = omega arith;
      sa_range = omega arith;
      rt2_range = omega arith;
      sa2_range = omega arith;
      wc_range = omega arith;
    })

-- An editor that shows a frame which the controller sends, with three words.
abbrev three_words : Editor
three_words = open_editor plain (some (record labelled_frame { mode = bc_to_rt; wc = pos 3 }))

enabled_iff_decoded_example :
    get_or (update_control_states plain three_words).fields_enabled 2 false
    ≡ ltb 2 (length (transaction_of (packet_of (on_save plain minus_one three_words).0)).data_words)
unfolding sends_data open_editor update_control_states decimal_int
enabled_iff_decoded_example =
    enabled_iff_decoded plain minus_one three_words 3 2 refl refl refl (omega arith) (omega arith)
