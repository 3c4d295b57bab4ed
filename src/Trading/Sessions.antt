-- ===== src/Trading/Sessions.antt =====
-- src/repository/repository/session.repository.ts: the rows of trade_session.
pub mod Laws
use tonatiuh_trading_saas.Prelude.{
  ℕ, String, Bool, true, false, not, ◌&&◌, Option, none, some, List, [], ◌∷◌, ◌++◌, map, filter,
  find?, reduce, if◌then◌else◌, ◌==◌ as nat_eq,
}
use text.Mathlib.Text.{◌==◌}
use tonatiuh_trading_saas.Prelude.Action.{
  Result, ok, err, Action, Done, pure, gets, throw, modify, ◌>>=◌, ◌>>◌,
}
use tonatiuh_trading_saas.Number.{Number, lit, ◌⊕◌}
use tonatiuh_trading_saas.Trading.Outside.{Outside, Failure, database}

-- A new row is active, and its profit is the default of the column, zero.
pub record SessionRow (N : Type 0) : Type 0 where
  pub index_session : String
  pub config_id : ℕ
  pub is_active : Bool
  pub profit_session : Option N

pub record Sessions (N X : Type 0) : Type 0 where
  pub rows : List (SessionRow N)
  pub venue : X

module _ {N : Type 0} where
  abbrev pub is_active_of : ℕ → SessionRow N → Bool
  is_active_of config_id r = r.is_active && nat_eq r.config_id config_id

  -- A profit that the database gave as NULL is stored as NULL.
  abbrev pub ended : Option N → String → SessionRow N → SessionRow N
  ended profit index r =
      if r.index_session == index
      then record r { is_active = false; profit_session = profit }
      else r

module _ {N X : Type 0} (out : Outside N X) where
  -- a statement, which throws if the database refuses it
  abbrev pub statement :
      (List (SessionRow N) → List (SessionRow N)) → Action (Sessions N X) Failure Done
  statement change s =
      let (accepted, x) = out.query_accepted s.venue in
      if accepted
      then (ok tt, record { rows = change s.rows; venue = x })
      else (err database, record s { venue = x })

  abbrev pub select : {A : Type 0} → (List (SessionRow N) → A) → Action (Sessions N X) Failure A
  select read = statement (λ rows. rows) >> gets (λ s. read s.rows)

  unfoldable pub get_all_session : Action (Sessions N X) Failure (List (SessionRow N))
  get_all_session = select (λ rows. rows)

  unfoldable pub get_all_not_active_session : Action (Sessions N X) Failure (List (SessionRow N))
  get_all_not_active_session = select (filter (λ r. not r.is_active))

  -- The first row that matches; `{}` is none.
  unfoldable pub checking_active_session : ℕ → Action (Sessions N X) Failure (Option (SessionRow N))
  checking_active_session config_id = select (find? (is_active_of config_id))

  unfoldable pub end_trade_session : Option N → String → Action (Sessions N X) Failure Done
  end_trade_session profit index = statement (map (ended profit index))

module _ {N : Type 0} ⦃num : Number N⦄ where
  abbrev pub new_session : ℕ → String → SessionRow N
  new_session config_id index = record {
    index_session = index;
    config_id = config_id;
    is_active = true;
    profit_session = some (lit 0);
  }

module _ {N X : Type 0} ⦃num : Number N⦄ (out : Outside N X) where
  unfoldable pub start_session : ℕ → Action (Sessions N X) Failure String
  start_session config_id s =
      let (index, x) = out.random_id s.venue in
      (statement out (λ rows. rows ++ new_session config_id index ∷ []) >> pure index)
        (record s { venue = x })

  -- `sum` is NULL over no values
  abbrev pub add_profit : Option N → SessionRow N → Option N
  add_profit total r = elim r.profit_session [
    | none ↦ total
    | some p ↦ elim total [ none ↦ some p | some t ↦ some (t ⊕ p) ]
  ]

  unfoldable pub get_all_profit_session : Action (Sessions N X) Failure (Option N)
  get_all_profit_session = select out (reduce add_profit none)
