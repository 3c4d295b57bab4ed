-- ===== src/Trading/Trader/Opens/Grid.antt =====
-- Which orders a grid opens.
use tonatiuh_trading_saas.Prelude.{
  ℕ, zero, suc, ◌+◌, ◌*◌, String, Option, none, some, List, [], ◌∷◌, ◌++◌, ◌≡◌, refl, ◌∙◌, inl, inr,
  subst, Bool-cases, if◌then◌else◌, ◌==◌ as nat_eq,
}
use mathlib.Core.Path.{ap₂}
use tonatiuh_trading_saas.Prelude.Action.{
  ok, Action, Done, pure, ◌>>=◌, After, After-bind, After-mono, Outcome-cases,
}
use tonatiuh_trading_saas.Number.{Number, lit, to_number, falsy, neg, ◌⊕◌, ◌⊗◌}
use tonatiuh_trading_saas.Trading.Types.{Side, buy, sell, Order, SettingOrder, limit}
use tonatiuh_trading_saas.Trading.Outside.{Outside, Failure}
use tonatiuh_trading_saas.Trading.Exchange.{get_tick}
use tonatiuh_trading_saas.Trading.Orders.Open.Laws.{Placed}
use tonatiuh_trading_saas.Trading.Trader.{Trader, on_venue, put_venue, open_position}
use tonatiuh_trading_saas.Trading.Trader.Entry.{
  Entered, limit_order, grid_price, grid_side, grid_settings, grid_lines, grid_trading_behavior,
}
use tonatiuh_trading_saas.Trading.Trader.Opens.{open_position-Places}
use tonatiuh_trading_saas.Trading.Trader.Opens.Lines.{
  Line, Opened, OpenedSome, Opened-one, nothing, Opened-nil, then-Opened,
}

module _ {N X : Type 0} ⦃num : Number N⦄ (out : Outside N X) where
  -- A bought line lies above the ticker and a sold one below it: by `i * 2` sizes of the grid, or
  -- by one if each side has one line.
  abbrev line_price : Side → N → N → ℕ → ℕ → N
  line_price buy tick_price grid_size count i =
      tick_price ⊕ grid_size ⊗ lit (if nat_eq count 1 then 1 else i * 2)
  line_price sell tick_price grid_size count i =
      tick_price ⊕ neg (grid_size ⊗ lit (if nat_eq count 1 then 1 else i * 2))

  grid_price-line_price :
      (side : Side) (tick_price grid_size : N) (count i : ℕ)
      → grid_price out side tick_price grid_size count i
        ≡ line_price side tick_price grid_size count i
  unfolding grid_price
  grid_price-line_price buy tick_price grid_size count i = refl
  grid_price-line_price sell tick_price grid_size count i = refl

  -- the lines of one side from `i` on, with those that are left
  abbrev side_lines : Side → N → N → N → String → ℕ → ℕ → ℕ → List (Line out)
  side_lines side tick_price grid_size position_size symbol count i zero = []
  side_lines side tick_price grid_size position_size symbol count i (suc left) =
      (
        side,
        record {
          symbol = symbol;
          type_ = limit;
          amount = position_size;
          price = line_price side tick_price grid_size count i;
        },
      )
      ∷ side_lines side tick_price grid_size position_size symbol count (i + 1) left

  -- `count` bought lines, and then as many sold ones
  abbrev pub both_sides : N → N → N → String → ℕ → List (Line out)
  both_sides tick_price grid_size position_size symbol count =
      side_lines buy tick_price grid_size position_size symbol count 0 count
      ++ side_lines sell tick_price grid_size position_size symbol count 0 count

  abbrev limit_order_at : N → String → N → SettingOrder N
  limit_order_at amount symbol price = record {
    symbol = symbol;
    type_ = limit;
    amount = amount;
    price = price;
  }

  grid_side-Opened :
      (side : Side) (tick_price grid_size position_size : N) (symbol : String) (count i left : ℕ)
      (t : Trader N X)
      → t.symbol ≡ symbol
      → After
          (λ _ u.
            Opened out (side_lines side tick_price grid_size position_size symbol count i left) t u)
          (λ _ u. OpenedSome out t u)
          (grid_side out side tick_price grid_size position_size count i left t)
  unfolding grid_side
  grid_side-Opened side tick_price grid_size position_size symbol count i zero t same =
      Opened-nil out t t refl refl
  grid_side-Opened side tick_price grid_size position_size symbol count i (suc left) t same =
      let price = grid_price out side tick_price grid_size count i in
      let place : Action (Trader N X) Failure (Order N) =
        λ u. open_position out side (limit_order out u.symbol position_size price) u in
      let rest : Order N → Action (Trader N X) Failure Done =
        λ _. grid_side out side tick_price grid_size position_size count (i + 1) left in
      let setting : SettingOrder N = record {
        symbol = symbol;
        type_ = limit;
        amount = position_size;
        price = line_price side tick_price grid_size count i;
      } in
      let settings : limit_order out t.symbol position_size price ≡ setting =
        ap₂ (limit_order_at position_size) same
          (grid_price-line_price side tick_price grid_size count i) in
      let more = side_lines side tick_price grid_size position_size symbol count (i + 1) left in
      After-bind (λ _ u. Opened out ((side, setting) ∷ more) t u) (λ _ u. OpenedSome out t u)
        (λ _ u. Opened out ((side, setting) ∷ []) t u) place rest t
        (After-mono (place t)
          (λ order u known.
            Opened-one out side setting t u order
              (known.0, subst (λ s. Placed out side s order) settings known.1, known.2))
          (λ _ u kept. nothing out t u kept)
          (open_position-Places out side (limit_order out t.symbol position_size price) t))
        (λ order u one. then-Opened out ((side, setting) ∷ []) more t u (rest order u) one (
          grid_side-Opened side tick_price grid_size position_size symbol count (i + 1) left u
            (one.symbol_is ∙ same)))

  grid_lines-Opened :
      (tick_price position_size : N) (count : ℕ) (grid_size : N) (symbol : String) (t : Trader N X)
      → t.symbol ≡ symbol
      → After
          (λ _ u. Opened out (both_sides tick_price grid_size position_size symbol count) t u)
          (λ _ u. OpenedSome out t u)
          (grid_lines out tick_price position_size (count, grid_size) t)
  grid_lines-Opened tick_price position_size count grid_size symbol t same =
      let place : Side → Action (Trader N X) Failure Done =
        λ side. grid_side out side tick_price grid_size position_size count 0 count in
      let lines : Side → List (Line out) =
        λ side. side_lines side tick_price grid_size position_size symbol count 0 count in
      let end : Done → Action (Trader N X) Failure (Entered N) =
        λ _. pure (record { setting = none; first_order = none; price = none }) in
      let sell_lines : Done → Action (Trader N X) Failure (Entered N) = λ _. place sell >>= end in
      After-bind (λ _ u. Opened out (lines buy ++ lines sell) t u) (λ _ u. OpenedSome out t u)
        (λ _ u. Opened out (lines buy) t u) (place buy) sell_lines t
        (grid_side-Opened buy tick_price grid_size position_size symbol count 0 count t same)
        (λ done u bought. then-Opened out (lines buy) (lines sell) t u (sell_lines done u) bought (
          After-bind (λ _ v. Opened out (lines sell) u v) (λ _ v. OpenedSome out u v)
            (λ _ v. Opened out (lines sell) u v) (place sell) end u
            (grid_side-Opened sell tick_price grid_size position_size symbol count 0 count u
              (bought.symbol_is ∙ same))
            (λ _ v sold. sold)))

  -- the lines of both sides at a price; without a count or a size there is no grid
  abbrev GridOf : Option ℕ → Option N → N → Trader N X → Trader N X → Type 0
  GridOf none size tick_price t u = ⊥
  GridOf (some count) none tick_price t u = ⊥
  GridOf (some count) (some grid_size) tick_price t u =
      Opened out (both_sides tick_price grid_size t.config.position_size t.symbol count) t u

  -- the grid of the settings around the price that was read
  abbrev pub GridEntered : Trader N X → Trader N X → Type 0
  GridEntered t u =
      (last : Option N) × (x : X) × (get_tick out t.symbol t.service.desk.venue ≡ (ok last, x))
      × GridOf t.config.count_grid_size t.config.grid_size (to_number last) t u

  grid_settings-Opened :
      (count : Option ℕ) (size : Option N) (tick_price : N) (t u : Trader N X)
      → u.orders ≡ t.orders
      → u.symbol ≡ t.symbol
      → After
          (λ _ v. GridOf count size tick_price t v)
          (λ _ v. OpenedSome out t v)
          ((grid_settings out count size >>= grid_lines out tick_price t.config.position_size) u)
  grid_settings-Opened none size tick_price t u same symbol = nothing out t u same
  grid_settings-Opened (some zero) none tick_price t u same symbol = nothing out t u same
  grid_settings-Opened (some zero) (some size) tick_price t u same symbol = nothing out t u same
  grid_settings-Opened (some (suc n)) none tick_price t u same symbol = nothing out t u same
  grid_settings-Opened (some (suc n)) (some size) tick_price t u same symbol =
      let position_size = t.config.position_size in
      elim (Bool-cases (falsy size)) [
        | inl bad ↦ rw bad (nothing out t u same)
        | inr good ↦ rw good (
            then-Opened out [] (both_sides tick_price size position_size t.symbol (suc n)) t u
              (grid_lines out tick_price position_size (suc n, size) u)
              (Opened-nil out t u same symbol)
              (grid_lines-Opened tick_price position_size (suc n) size t.symbol u symbol))
      ]

  -- the ticker was read, and nothing else happened
  abbrev Ticked : Trader N X → Option N → Trader N X → Type 0
  Ticked t last u =
      (u.orders ≡ t.orders)
      × (u.symbol ≡ t.symbol)
      × (x : X) × (get_tick out t.symbol t.service.desk.venue ≡ (ok last, x))

  on_venue-Ticked :
      (t : Trader N X)
      → After (Ticked t) (λ _ u. OpenedSome out t u) (on_venue (get_tick out t.symbol) t)
  on_venue-Ticked t = elim (Outcome-cases (get_tick out t.symbol t.service.desk.venue)) [
    | inl (last, x, eq) ↦ rw eq (refl, refl, x, eq)
    | inr (e, x, eq) ↦ rw eq (nothing out t (put_venue t x) refl)
  ]

  -- A grid that was entered has placed as many bought orders as the settings say and then as many
  -- sold ones, each with the size of a position at the price of its line around the ticker: the
  -- orders of before stay where they are, and what follows them are readings of these orders, one
  -- for each, all executed. When entering fails, the orders of before stay too, and those that
  -- were opened until then are executed.
  pub grid_trading_behavior-Opens :
      (t : Trader N X)
      → After (λ _ u. GridEntered t u) (λ _ u. OpenedSome out t u) (grid_trading_behavior out t)
  unfolding grid_trading_behavior
  grid_trading_behavior-Opens t =
      let tick = get_tick out t.symbol in
      let settings = grid_settings out t.config.count_grid_size t.config.grid_size in
      let lines : Option N → Action (Trader N X) Failure (Entered N) =
        λ last. settings >>= grid_lines out (to_number last) t.config.position_size in
      After-bind (λ _ u. GridEntered t u) (λ _ u. OpenedSome out t u) (λ last u. Ticked t last u)
        (on_venue tick) lines t (on_venue-Ticked t)
        (λ last u (same, symbol, x, read).
          After-mono (lines last u) (λ _ v grid. (last, x, read, grid))
            (λ _ v some_lines. some_lines)
            (grid_settings-Opened t.config.count_grid_size t.config.grid_size (to_number last) t u
              same symbol))
