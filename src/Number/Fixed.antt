-- ===== src/Number/Fixed.antt =====
-- Decimal fixed-point numbers with twelve places and a NaN. They meet every law of `IsIeee`, so
-- that theorems about the program can be evaluated at concrete prices and amounts.
use tonatiuh_trading_saas.Prelude.{
  ℕ, suc, ◌+◌, ◌*◌, ◌/◌, ◌^◌, refl, String, Bool, true, false, if◌then◌else◌, arith,
}
use tonatiuh_trading_saas.Prelude.Int
use tonatiuh_trading_saas.Prelude.Int.{
  ℤ, pos, negsuc, pos_part, neg_part, ◌+ℤ◌, ltb_ℤ, leb_ℤ, signed,
}
use tonatiuh_trading_saas.Number.Defs.{Number, IsIeee}

pub data Fixed : Type 0 where
  nan : Fixed
  fin : ℤ → Fixed

abbrev one : ℕ
one = 1_000_000_000_000

abbrev magnitude : ℤ → ℕ
magnitude a = pos_part a + neg_part a

abbrev lift₁ : (ℤ → ℤ) → Fixed → Fixed
lift₁ f nan = nan
lift₁ f (fin a) = fin (f a)

abbrev lift₂ : (ℤ → ℤ → ℤ) → Fixed → Fixed → Fixed
lift₂ f (fin a) (fin b) = fin (f a b)
lift₂ f _ _ = nan

abbrev test₂ : (ℤ → ℤ → Bool) → Fixed → Fixed → Bool
test₂ f (fin a) (fin b) = f a b
test₂ f _ _ = false

abbrev quotient : Fixed → Fixed → Fixed
quotient (fin a) (fin (pos (suc b))) = fin (signed a (pos (suc b)) (magnitude a * one / suc b))
quotient (fin a) (fin (negsuc b)) = fin (signed a (negsuc b) (magnitude a * one / suc b))
quotient _ _ = nan

abbrev is_finite : Fixed → Bool
is_finite nan = false
is_finite (fin _) = true

abbrev is_nan : Fixed → Bool
is_nan nan = true
is_nan (fin _) = false

-- enough of a rendering to tell zero and NaN from the rest
abbrev rendered : Fixed → String
rendered nan = "NaN"
rendered (fin (pos a)) = if Int.leb_ℤ (pos a) (pos 0) then "0" else "positive"
rendered (fin (negsuc a)) = "negative"

instance abbrev pub fixed_number : Number Fixed
fixed_number = record {
  literal = λ m k. fin (pos (m * one / 10 ^ k));
  nan = nan;
  epsilon = fin (pos 0);
  plus = lift₂ ◌+ℤ◌;
  minus = lift₂ (λ a b. a +ℤ Int.neg b);
  times = lift₂ (λ a b. signed a b (magnitude a * magnitude b / one));
  divide = quotient;
  negate = lift₁ Int.neg;
  absolute = lift₁ Int.abs;
  larger = lift₂ (λ a b. if leb_ℤ a b then b else a);
  less = test₂ ltb_ℤ;
  at_most = test₂ leb_ℤ;
  finite = is_finite;
  not_number = is_nan;
  print = rendered;
}

-- The laws hold of these numbers.
pub fixed-IsIeee : IsIeee fixed_number
fixed-IsIeee = record {
  zero_le_zero = refl;
  le_lt = λ x y h. ground arith;
  lt_le_lt = λ x y z h k. ground arith;
  positive_of_not_le = λ x h k. ground arith;
  absolute_pos = λ x h. ground arith;
  absolute_neg = λ x h. ground arith;
  absolute_zero = refl;
  negate_negate = λ x. ground arith;
  negate_pos = λ x h. ground arith;
  negate_finite = λ x h. ground arith;
  plus_negate = λ x h. ground arith;
  plus_nonneg = λ x y h k. ground arith;
  plus_nonpos = λ x y h k. ground arith;
  larger_left = λ x y h k. ground arith;
  times_literal_nonneg = λ x m k p q h. ground arith;
  epsilon_nonneg = refl;
  literal_nonneg = λ m k. ground arith;
  sign_of_absolute = λ x t h k l r. ground arith;
}
