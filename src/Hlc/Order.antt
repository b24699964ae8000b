-- ===== src/Hlc/Order.antt =====
-- `compareHLC` is a strict total order on clocks.
use peer_server.Prelude.{
  ◌≡◌, ◌<◌, ◌↔◌, ◌⊎◌, inl, inr, true, false, arith, Ordering, text_compare, text_compare_refl,
  text_compare_eq, text_compare_swap, text_compare_trans,
}
use peer_server.Prelude.Int.{is_zero}
use peer_server.Hlc.{Hlc, compare_node, compare_hlc, is_later}

-- The clock `a` is later than `b`.
abbrev pub Later : Hlc → Hlc → Type 0
Later a b = is_later a b ≡ true

same_clock : (a b : Hlc) → a.ts ≡ b.ts → a.counter ≡ b.counter → a.node ≡ b.node → a ≡ b
same_clock a b p q r = ground arith

-- `compareHLC` returns 0 exactly for equal clocks.
pub compare_hlc-zero_iff : (a b : Hlc) → (is_zero (compare_hlc a b) ≡ true) ↔ (a ≡ b)
unfolding compare_hlc compare_node
compare_hlc-zero_iff a b = (
  λ h. ground (arith, same_clock a b, text_compare_eq a.node b.node),
  λ e. ground (arith, text_compare_refl a.node),
)

pub is_later_irrefl : (a : Hlc) → is_later a a ≡ false
unfolding is_later compare_hlc compare_node
is_later_irrefl a = ground (arith, text_compare_refl a.node)

pub is_later_asymm : (a b : Hlc) → Later a b → is_later b a ≡ false
unfolding is_later compare_hlc compare_node
is_later_asymm a b h = ground (arith, text_compare_swap a.node b.node)

pub is_later_antisymm : (a b : Hlc) → is_later a b ≡ false → is_later b a ≡ false → a ≡ b
unfolding is_later compare_hlc compare_node
is_later_antisymm a b h k =
    ground (arith, text_compare_swap a.node b.node, text_compare_eq a.node b.node, same_clock a b)

-- The order in words: by timestamp, then by counter, then by node.
abbrev ByFields : Hlc → Hlc → Type 0
ByFields a b =
    (b.ts < a.ts)
    ⊎ ((b.ts ≡ a.ts)
        × ((b.counter < a.counter)
            ⊎ ((b.counter ≡ a.counter) × (text_compare b.node a.node ≡ Ordering.lt))))

Later-ByFields : (a b : Hlc) → Later a b → ByFields a b
unfolding is_later compare_hlc compare_node
Later-ByFields a b h = ground (arith, text_compare_swap a.node b.node)

fields_to_later : (a b : Hlc) → ByFields a b → Later a b
unfolding is_later compare_hlc compare_node
fields_to_later a b h = ground (arith, text_compare_swap a.node b.node)

fields_trans : (a b c : Hlc) → ByFields a b → ByFields b c → ByFields a c
fields_trans a b c (inl p) (inl q) = inl (omega arith)
fields_trans a b c (inl p) (inr (q, _)) = inl (omega arith)
fields_trans a b c (inr (p, _)) (inl q) = inl (omega arith)
fields_trans a b c (inr (p, inl r)) (inr (q, inl s)) = inr (omega arith, inl (omega arith))
fields_trans a b c (inr (p, inl r)) (inr (q, inr (s, _))) = inr (omega arith, inl (omega arith))
fields_trans a b c (inr (p, inr (r, _))) (inr (q, inl s)) = inr (omega arith, inl (omega arith))
fields_trans a b c (inr (p, inr (r, u))) (inr (q, inr (s, v))) =
    inr (omega arith, inr (omega arith, text_compare_trans c.node b.node a.node v u))

-- "Later" between clocks, `compareHLC(a, b) > 0`, is transitive.
pub Later-trans : (a b c : Hlc) → Later a b → Later b c → Later a c
Later-trans a b c h k =
    fields_to_later a c (fields_trans a b c (Later-ByFields a b h) (Later-ByFields b c k))
