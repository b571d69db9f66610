-- ===== src/Comparison.antt =====
-- init.cc: the comparison that every tree of the program is created with.
use rsj.Prelude.{◌≡◌, ◌↔◌, arith, if◌then◌else◌}
use rsj.Prelude.Int.{ℤ, pos, negsuc, ltb_ℤ, ◌≤ℤ◌, eq_of_parts}
use rsj.Structures.{RsjPair}

unfoldable pub int_comparison : RsjPair → RsjPair → ℤ
int_comparison rb_a rb_b =
    let a = rb_a.price_bid in
    let b = rb_b.price_bid in if ltb_ℤ b a then pos 1 else if ltb_ℤ a b then negsuc 0 else pos 0

-- The sign of the comparison is the order of the prices: zero exactly at equal prices, and at most
-- zero exactly where the first price is at most the second.
pub int_comparison_sign :
    (x y : RsjPair)
    → ((int_comparison x y ≡ pos 0) ↔ (x.price_bid ≡ y.price_bid))
      × ((int_comparison x y ≤ℤ pos 0) ↔ (x.price_bid ≤ℤ y.price_bid))
unfolding int_comparison
int_comparison_sign x y = (
  ((λ h. eq_of_parts x.price_bid y.price_bid (ground arith)), (λ h. ground arith)),
  ((λ h. ground arith), (λ h. ground arith)),
)
