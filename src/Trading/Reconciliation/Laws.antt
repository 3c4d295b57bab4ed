-- ===== src/Trading/Reconciliation/Laws.antt =====
-- What the reconciliation decides.
use tonatiuh_trading_saas.Prelude.{
  Bool, true, false, not, ◌≡◌, refl, none, some, List, [], ◌∷◌, ◌++◌, map, arith, reduce,
  reduce-concat, any, ◌||◌, ◌∙◌, length, ltb, length-append,
}
use tonatiuh_trading_saas.Number.{Number, IsIeee, lit, ◌⊗◌, ◌≼◌}
use tonatiuh_trading_saas.Trading.Types.{Side, buy, sell, same_side}
use tonatiuh_trading_saas.Trading.Exposure.{
  FilledOrderExposure, ClosingOrderExposure, add_filled, net_base_amount,
  calculate_closing_order_exposure, closing_for,
}
use tonatiuh_trading_saas.Trading.Exposure.Laws.{
  filled_in_full, IsOpposite, closing_for-IsOpposite, add_filled-opposite,
}
use tonatiuh_trading_saas.Trading.Reconciliation.{
  SessionOrderExposure, has_other_side, bad_amount, add_net, add_total, is_session_exposure_closed,
}

-- An order of a session, seen as an order that was filled with its amount.
abbrev pub as_filled : {N : Type 0} → SessionOrderExposure N → FilledOrderExposure N
as_filled o = record { side = o.side; filled = o.amount }

-- The closing order as the session stores it.
abbrev pub as_stored : {N : Type 0} → ClosingOrderExposure N → SessionOrderExposure N
as_stored c = record { side = c.side; amount = c.amount }

any-concat :
    {A : Type 0} (p : A → Bool) (xs : List A) (x : A) → any p (xs ++ x ∷ []) ≡ (any p xs || p x)
any-concat p [] x = ground arith
any-concat p (y ∷ xs) x = ground (arith, any-concat p xs x)

module _ {N : Type 0} ⦃num : Number N⦄ where
  -- on good amounts the two sums agree
  net_base_amount-as_filled :
      (acc : N) (orders : List (SessionOrderExposure N))
      → any bad_amount orders ≡ false
      → reduce add_filled acc (map as_filled orders) ≡ reduce add_net acc orders
  unfolding add_filled add_net bad_amount
  net_base_amount-as_filled acc [] h = refl
  net_base_amount-as_filled acc (o ∷ os) h =
      ground (arith, net_base_amount-as_filled (add_net acc o) os)

  add_net-eq-add_filled :
      (net : N) (o : SessionOrderExposure N)
      → bad_amount o ≡ false
      → add_net net o ≡ add_filled net (as_filled o)
  unfolding add_filled add_net bad_amount
  add_net-eq-add_filled net o h = ground arith

module _ {N : Type 0} ⦃num : Number N⦄ (laws : IsIeee num) where
  total_nonneg :
      (acc : N) (orders : List (SessionOrderExposure N))
      → lit 0 ≼ acc ≡ true
      → any bad_amount orders ≡ false
      → lit 0 ≼ reduce add_total acc orders ≡ true
  unfolding bad_amount add_total
  total_nonneg acc [] h g = h
  total_nonneg acc (o ∷ os) h g = ground (
    arith,
    laws.positive_of_not_le o.amount,
    laws.absolute_pos o.amount,
    laws.plus_nonneg acc o.amount,
    total_nonneg (add_total acc o) os,
  )

  -- orders of one side leave a net amount of that side
  buys_nonneg :
      (acc : N) (orders : List (SessionOrderExposure N))
      → lit 0 ≼ acc ≡ true
      → any bad_amount orders ≡ false
      → any (λ o. not (same_side o.side buy)) orders ≡ false
      → lit 0 ≼ reduce add_net acc orders ≡ true
  unfolding bad_amount add_net
  buys_nonneg acc [] h g k = h
  buys_nonneg acc (o ∷ os) h g k = ground (
    arith,
    laws.positive_of_not_le o.amount,
    laws.plus_nonneg acc o.amount,
    buys_nonneg (add_net acc o) os,
  )

  sells_nonpos :
      (acc : N) (orders : List (SessionOrderExposure N))
      → acc ≼ lit 0 ≡ true
      → any bad_amount orders ≡ false
      → any (λ o. not (same_side o.side sell)) orders ≡ false
      → reduce add_net acc orders ≼ lit 0 ≡ true
  unfolding bad_amount add_net
  sells_nonpos acc [] h g k = h
  sells_nonpos acc (o ∷ os) h g k = ground (
    arith,
    laws.positive_of_not_le o.amount,
    laws.plus_nonpos acc o.amount,
    sells_nonpos (add_net acc o) os,
  )

  -- either some order is of another side than `s`, or the closing order is
  some_other_side :
      (s : Side) (orders : List (SessionOrderExposure N)) (c : ClosingOrderExposure N)
      → any bad_amount orders ≡ false
      → IsOpposite (reduce add_net (lit 0) orders) c
      → (any (λ x. not (same_side x.side s)) orders || not (same_side c.side s)) ≡ true
  some_other_side buy orders c good opposite = ground (
    arith,
    buys_nonneg (lit 0) orders laws.zero_le_zero good,
    laws.le_lt (lit 0) (reduce add_net (lit 0) orders),
  )
  some_other_side sell orders c good opposite = ground (
    arith,
    sells_nonpos (lit 0) orders laws.zero_le_zero good,
    laws.le_lt (reduce add_net (lit 0) orders) (lit 0),
  )

  has_other_side-closing :
      (o : SessionOrderExposure N) (os : List (SessionOrderExposure N)) (c : ClosingOrderExposure N)
      → any bad_amount (o ∷ os) ≡ false
      → IsOpposite (reduce add_net (lit 0) (o ∷ os)) c
      → has_other_side ((o ∷ os) ++ as_stored c ∷ []) ≡ true
  unfolding has_other_side
  has_other_side-closing o os c good opposite =
      any-concat (λ x. not (same_side x.side o.side)) (o ∷ os) (as_stored c)
      ∙ some_other_side o.side (o ∷ os) c good opposite

  good_closing :
      (net : N) (c : ClosingOrderExposure N)
      → num.finite net ≡ true
      → IsOpposite net c
      → bad_amount (as_stored c) ≡ false
  unfolding bad_amount
  good_closing net c fin opposite =
      ground (arith, laws.negate_finite net, laws.le_lt c.amount (lit 0))

  tolerance_nonneg :
      (x : N)
      → lit 0 ≼ x ≡ true
      → lit 0 ≼ num.larger (num.literal 1 12) (x ⊗ num.literal 1 8) ≡ true
  tolerance_nonneg x h =
      laws.larger_left _ _ (laws.literal_nonneg 1 12)
        (laws.times_literal_nonneg x 1 8 (omega arith) (omega arith) h)

  -- with good amounts, two sides and a net amount of zero the session is closed
  closed_of_parts :
      (orders : List (SessionOrderExposure N))
      → ltb (length orders) 2 ≡ false
      → has_other_side orders ≡ true
      → any bad_amount orders ≡ false
      → reduce add_net (lit 0) orders ≡ lit 0
      → is_session_exposure_closed orders ≡ true
  unfolding is_session_exposure_closed
  closed_of_parts orders long other good zero_net =
      simp (long, other, good, zero_net, laws.absolute_zero)
        (tolerance_nonneg _ (total_nonneg (lit 0) orders laws.zero_le_zero good))

  no_closing_of_zero : closing_for {N = N} (lit 0) ≡ none
  unfolding closing_for
  no_closing_of_zero = simp (laws.absolute_zero, laws.epsilon_nonneg)

  -- A session whose orders all have positive, finite amounts and leave a finite net amount that
  -- asks for a closing order is recognised as closed once that order, filled in full, is stored.
  pub closing_order_completes_session :
      (orders : List (SessionOrderExposure N)) (c : ClosingOrderExposure N)
      → any bad_amount orders ≡ false
      → num.finite (net_base_amount (map as_filled orders)) ≡ true
      → calculate_closing_order_exposure (map as_filled orders) ≡ some c
      → is_session_exposure_closed (orders ++ as_stored c ∷ []) ≡ true
  unfolding calculate_closing_order_exposure net_base_amount
  closing_order_completes_session [] c good fin e = ground (arith, no_closing_of_zero)
  closing_order_completes_session (o ∷ os) c good fin e =
      let orders = o ∷ os in
      let closing = as_stored c in
      let net = reduce add_net (lit 0) orders in
      let same : reduce add_filled (lit 0) (map as_filled orders) ≡ net =
        net_base_amount-as_filled (lit 0) orders good in
      let net_finite : num.finite net ≡ true = rw same at fin in
      let opposite = closing_for-IsOpposite laws net c net_finite (rw same at e) in
      let opens_net : add_net net closing ≡ add_filled net (filled_in_full c) =
        add_net-eq-add_filled net closing (good_closing net c net_finite opposite) in
      closed_of_parts (orders ++ closing ∷ [])
        (ground (arith, length-append {0} orders (closing ∷ [])))
        (has_other_side-closing o os c good opposite)
        (any-concat bad_amount orders closing ∙ cc (good, good_closing net c net_finite opposite))
        (reduce-concat add_net (lit 0) orders closing
          ∙ opens_net
          ∙ add_filled-opposite laws net c net_finite opposite)
