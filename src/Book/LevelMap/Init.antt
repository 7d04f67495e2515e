-- ===== src/Book/LevelMap/Init.antt =====
-- A fresh side is valid and bare.
use order_matching_engine.Base.{
  ℕ, zero, suc, ◌+◌, ◌/◌, ◌≡◌, refl, subst, sym, ap, ◌∙◌, ◌<◌, inl, List, [], false, arith, some,
  length, get_elem?, sum_by,
}
use order_matching_engine.Base.Int.{pos_part, ◌-ℤ◌, ◌<ℤ◌, ◌≤ℤ◌}
use order_matching_engine.Common.Types.{Price, Side, bid_empty, ask_empty}
use order_matching_engine.Engine.Order.{Order}
use order_matching_engine.Engine.PriceLevel.{PriceLevel, is_empty}
use order_matching_engine.Engine.PriceLevel
use order_matching_engine.Engine.PriceLevel.Counted.{init-IsCounted}
use order_matching_engine.Book.LevelMap.{init, init_levels, slot_price, occupied}
use order_matching_engine.Book.LevelMap.Best.{IsBare}
use order_matching_engine.Book.LevelMap.Valid.{IsLevel, IsSide}

length-init_levels : (p : Price) (t i n : ℕ) → length (init_levels p t i n) ≡ n
unfolding init_levels
length-init_levels p t i zero = refl
length-init_levels p t i (suc n) = ap suc (length-init_levels p t (i + 1) n)

get_init_levels :
    (p : Price) (t i n k : ℕ) (l : PriceLevel)
    → get_elem? (init_levels p t i n) k ≡ some l
    → l ≡ PriceLevel.init (slot_price p t (i + k))
unfolding init_levels
get_init_levels p t i zero k l e = absurd (ground arith)
get_init_levels p t i (suc n) zero l e =
    let at : i ≡ i + 0 = omega arith in
    subst (λ x. l ≡ PriceLevel.init (slot_price p t x)) at (ground arith)
get_init_levels p t i (suc n) (suc k) l e =
    let at : i + 1 + k ≡ i + suc k = omega arith in
    subst (λ x. l ≡ PriceLevel.init (slot_price p t x)) at (get_init_levels p t (i + 1) n k l e)

occupied_init : (p : Price) (t i n k : ℕ) → occupied (init_levels p t i n) k ≡ false
unfolding occupied init_levels is_empty PriceLevel.init
occupied_init p t i zero k = refl
occupied_init p t i (suc n) zero = refl
occupied_init p t i (suc n) (suc k) = occupied_init p t (i + 1) n k

pub sum_by-init_levels :
    (f : List Order → ℕ) (p : Price) (t i n : ℕ)
    → f [] ≡ 0
    → sum_by (λ (l : PriceLevel). f l.queue) (init_levels p t i n) ≡ 0
unfolding init_levels PriceLevel.init
sum_by-init_levels f p t i zero h = refl
sum_by-init_levels f p t i (suc n) h = omega (arith, h, sum_by-init_levels f p t (i + 1) n h)

pub init-IsBare : (s : Side) (low high : Price) (t : ℕ) → IsBare (init s low high t)
unfolding init
init-IsBare s low high t = record {
  price = refl;
  vacant = λ j. occupied_init low t 0 (pos_part (high -ℤ low) / t + 1) j;
}

pub init-IsSide :
    (s : Side) (low high : Price) (t : ℕ)
    → 0 < t
    → bid_empty <ℤ low
    → high <ℤ ask_empty
    → low ≤ℤ high
    → IsSide (init s low high t)
unfolding init PriceLevel.init
init-IsSide s low high t h a b o = record {
  grid = record {
    tick_pos = h;
    above_sentinel = a;
    below_sentinel = b;
    ordered = o;
    slots = length-init_levels low t 0 (pos_part (high -ℤ low) / t + 1);
  };
  levels = λ i l e.
      let is : l ≡ PriceLevel.init (slot_price low t i) =
        get_init_levels low t 0 _ i l e
        ∙ ap (λ x. PriceLevel.init (slot_price low t x)) (omega arith) in
      subst (IsLevel s (slot_price low t i)) (sym is)
        (record { counted = init-IsCounted (slot_price low t i); price = refl; at = tt });
  best = inl (init-IsBare s low high t);
}
