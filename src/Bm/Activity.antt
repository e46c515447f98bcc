-- ===== src/Bm/Activity.antt =====
-- The remote terminals and subaddresses that the monitor reports as active.
use tcp_1553_bus_analyzer.Prelude.{
  ℕ, suc, ◌≡◌, ◌↔◌, ◌⊎◌, inl, inr, Bool, true, List, [], ◌∷◌, some, arith,
}
use mathlib.Core.Path.{subst}
use tcp_1553_bus_analyzer.Protocol.{MessageTransaction}
use tcp_1553_bus_analyzer.Parser.{Event, decoded, warned, deliver}
use tcp_1553_bus_analyzer.Bm.Format.{Stamp}
use tcp_1553_bus_analyzer.Bm.Keys.{RtSaKey, IsKeySet, Holds, insert_key-IsKeySet, insert_key-Holds}
use tcp_1553_bus_analyzer.Bm.Relay.{passes-relay}
use tcp_1553_bus_analyzer.Bm.{Bm, passes, relay, timed, key_of}

relay-IsKeySet :
    (at : Stamp) (s : Bm) (t : MessageTransaction)
    → IsKeySet s.pending_active_keys
    → IsKeySet (relay at s t).pending_active_keys
unfolding relay
relay-IsKeySet at s t v = ground (arith, insert_key-IsKeySet (key_of t) s.pending_active_keys v)

-- The pending keys stay strictly increasing, so each is there once, through any events.
pub deliver-IsKeySet :
    (clock : ℕ → Stamp) (n : ℕ) (s : Bm) (es : List Event)
    → IsKeySet s.pending_active_keys
    → IsKeySet (deliver (some (timed clock)) (s, n) es).0.pending_active_keys
unfolding deliver
deliver-IsKeySet clock n s [] v = v
deliver-IsKeySet clock n s (warned m ∷ es) v = deliver-IsKeySet clock n s es v
deliver-IsKeySet clock n s (decoded t ∷ es) v =
    deliver-IsKeySet clock (suc n) (relay (clock n) s t) es (relay-IsKeySet (clock n) s t v)

-- Some transaction of the list that passes has the key.
abbrev pub Touched : (MessageTransaction → Bool) → RtSaKey → List Event → Type 0
Touched keep k [] = ⊥
Touched keep k (warned m ∷ es) = Touched keep k es
Touched keep k (decoded t ∷ es) =
    ((keep t ≡ true) × (t.cmd1_valid ≡ true) × (k ≡ key_of t)) ⊎ Touched keep k es

abbrev Adds : Bm → MessageTransaction → RtSaKey → Type 0
Adds s t k = (passes s t ≡ true) × (t.cmd1_valid ≡ true) × (k ≡ key_of t)

relay-Holds :
    (at : Stamp) (s : Bm) (t : MessageTransaction) (k : RtSaKey)
    → Holds k (relay at s t).pending_active_keys ↔ (Adds s t k ⊎ Holds k s.pending_active_keys)
unfolding relay
relay-Holds at s t k =
    let (down, up) = insert_key-Holds k (key_of t) s.pending_active_keys in
    (λ h. ground (arith, down, h), λ h. ground (arith, up, h))

-- The keys that are pending after a call's transactions: those that were, and those of the
-- transactions that pass the filter.
pub deliver_keys_iff :
    (clock : ℕ → Stamp) (n : ℕ) (s : Bm) (es : List Event) (k : RtSaKey)
    → Holds k (deliver (some (timed clock)) (s, n) es).0.pending_active_keys
      ↔ (Touched (passes s) k es ⊎ Holds k s.pending_active_keys)
unfolding deliver
deliver_keys_iff clock n s [] k =
    (λ h. inr h, λ h. elim h [ inl no_event ↦ absurd no_event | inr h ↦ h ])
deliver_keys_iff clock n s (warned m ∷ es) k = deliver_keys_iff clock n s es k
deliver_keys_iff clock n s (decoded t ∷ es) k =
    let s1 = relay (clock n) s t in
    let ih : Holds k (deliver (some (timed clock)) (s1, suc n) es).0.pending_active_keys
        ↔ (Touched (passes s) k es ⊎ Holds k s1.pending_active_keys) =
      subst
        (λ (keep : MessageTransaction → Bool).
          Holds k (deliver (some (timed clock)) (s1, suc n) es).0.pending_active_keys
          ↔ (Touched keep k es ⊎ Holds k s1.pending_active_keys))
        (passes-relay (clock n) s t) (deliver_keys_iff clock (suc n) s1 es k) in
    let step = relay-Holds (clock n) s t k in
    (
      λ h. elim (ih.0 h) [
        | inl later ↦ inl (inr later)
        | inr held ↦ elim (step.0 held) [ inl here ↦ inl (inl here) | inr before ↦ inr before ]
      ],
      λ h. elim h [
        | inl (inl here) ↦ ih.1 (inr (step.1 (inl here)))
        | inl (inr later) ↦ ih.1 (inl later)
        | inr before ↦ ih.1 (inr (step.1 (inr before)))
      ],
    )
