-- ===== src/Number/Defs.antt =====
-- The operations on a JavaScript `number` as an interface, and the laws that theorems name.
use tonatiuh_trading_saas.Prelude.{
  ℕ, ◌≤◌, ◌<◌, String, ◌≡◌, Bool, true, false, ◌&&◌, ◌||◌, Option, none, some,
}

pub record Number (N : Type 0) : Type 0 where
  pub literal : ℕ → ℕ → N  -- `literal m k` is the literal `m * 10 ** -k`
  pub nan : N
  pub epsilon : N  -- `Number.EPSILON`
  pub plus : N → N → N
  pub minus : N → N → N
  pub times : N → N → N
  pub divide : N → N → N
  pub negate : N → N
  pub absolute : N → N  -- `Math.abs`
  pub larger : N → N → N  -- `Math.max`
  pub less : N → N → Bool
  pub at_most : N → N → Bool
  pub finite : N → Bool  -- `Number.isFinite`
  pub not_number : N → Bool  -- `isNaN`
  pub print : N → String  -- a number in a template literal

module _ {N : Type 0} ⦃num : Number N⦄ where
  abbrev pub lit : ℕ → N
  lit m = num.literal m 0

  infixl 65 ◌⊕◌ ◌⊖◌
  infixl 70 ◌⊗◌ ◌⊘◌
  infix 50 ◌≺◌ ◌≼◌
  abbrev pub ◌⊕◌ : N → N → N
  ◌⊕◌ = num.plus

  abbrev pub ◌⊖◌ : N → N → N
  ◌⊖◌ = num.minus

  abbrev pub ◌⊗◌ : N → N → N
  ◌⊗◌ = num.times

  abbrev pub ◌⊘◌ : N → N → N
  ◌⊘◌ = num.divide

  abbrev pub neg : N → N
  neg = num.negate

  abbrev pub ◌≺◌ : N → N → Bool
  ◌≺◌ = num.less

  abbrev pub ◌≼◌ : N → N → Bool
  ◌≼◌ = num.at_most

  -- `Number(x)`: a missing value is NaN.
  abbrev pub to_number : Option N → N
  to_number none = num.nan
  to_number (some x) = x

  -- `Number.isFinite(x) && x > 0`
  abbrev pub is_positive : N → Bool
  is_positive x = num.finite x && lit 0 ≺ x

  -- `!x`
  abbrev pub falsy : N → Bool
  falsy x = num.not_number x || (x ≼ lit 0 && lit 0 ≼ x)

-- What IEEE 754 says of the operations, as far as theorems use it.
pub record IsIeee {N : Type 0} (num : Number N) : Type 0 where
  pub zero_le_zero : num.at_most (num.literal 0 0) (num.literal 0 0) ≡ true
  pub le_lt : (x y : N) → num.at_most x y ≡ true → num.less y x ≡ false
  pub lt_le_lt : (x y z : N) → num.less x y ≡ true → num.at_most y z ≡ true → num.less z x ≡ false
  pub positive_of_not_le :
      (x : N)
      → num.finite x ≡ true
      → num.at_most x (num.literal 0 0) ≡ false
      → num.less (num.literal 0 0) x ≡ true
  -- the absolute value is the number or its negation
  pub absolute_pos : (x : N) → num.less (num.literal 0 0) x ≡ true → num.absolute x ≡ x
  pub absolute_neg : (x : N) → num.less x (num.literal 0 0) ≡ true → num.absolute x ≡ num.negate x
  pub absolute_zero : num.absolute (num.literal 0 0) ≡ num.literal 0 0
  pub negate_negate : (x : N) → num.negate (num.negate x) ≡ x
  pub negate_pos :
      (x : N)
      → num.less x (num.literal 0 0) ≡ true
      → num.less (num.literal 0 0) (num.negate x) ≡ true
  pub negate_finite : (x : N) → num.finite x ≡ true → num.finite (num.negate x) ≡ true
  -- a finite number and its negation add up to zero
  pub plus_negate : (x : N) → num.finite x ≡ true → num.plus x (num.negate x) ≡ num.literal 0 0
  -- sums keep a common sign
  pub plus_nonneg :
      (x y : N)
      → num.at_most (num.literal 0 0) x ≡ true
      → num.less (num.literal 0 0) y ≡ true
      → num.at_most (num.literal 0 0) (num.plus x y) ≡ true
  pub plus_nonpos :
      (x y : N)
      → num.at_most x (num.literal 0 0) ≡ true
      → num.less (num.literal 0 0) y ≡ true
      → num.at_most (num.plus x (num.negate y)) (num.literal 0 0) ≡ true
  -- `Math.max` of two numbers is at least the first, unless the second is NaN
  pub larger_left :
      (x y : N)
      → num.at_most (num.literal 0 0) x ≡ true
      → num.at_most (num.literal 0 0) y ≡ true
      → num.at_most (num.literal 0 0) (num.larger x y) ≡ true
  -- a number that is at least zero, times a positive literal
  pub times_literal_nonneg :
      (x : N) (m k : ℕ)
      → 0 < m
      → k ≤ 12
      → num.at_most (num.literal 0 0) x ≡ true
      → num.at_most (num.literal 0 0) (num.times x (num.literal m k)) ≡ true
  pub epsilon_nonneg : num.at_most (num.literal 0 0) num.epsilon ≡ true
  pub literal_nonneg : (m k : ℕ) → num.at_most (num.literal 0 0) (num.literal m k) ≡ true
  -- a number that is not NaN and outside the tolerance of zero has a sign
  pub sign_of_absolute :
      (x t : N)
      → num.at_most (num.literal 0 0) t ≡ true
      → num.finite x ≡ true
      → num.at_most (num.absolute x) t ≡ false
      → num.less (num.literal 0 0) x ≡ false
      → num.less x (num.literal 0 0) ≡ true
