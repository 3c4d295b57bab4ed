-- ===== src/Trading/Balances.antt =====
-- src/repository/repository/balance.repository.ts: the rows of balance_history.
use tonatiuh_trading_saas.Prelude.{String, Option, List, [], ◌∷◌, ◌++◌, map, last?, if◌then◌else◌}
use tonatiuh_trading_saas.Prelude.Action.{ok, err, Action, Done, pure, catch, gets, ◌>>◌}
use tonatiuh_trading_saas.Trading.Outside.{Outside, Failure, Balance, database}

-- `CreateStateBalanceParamType`; `balance_object` is the balance whose text is stored
pub record StateBalance (N : Type 0) : Type 0 where
  pub usdt : N
  pub profit_all : N
  pub exchange_name : String
  pub profit_usdt : N
  pub balance_object : Balance N

-- The rows, the last one the latest.
pub record Balances (N X : Type 0) : Type 0 where
  pub rows : List (StateBalance N)
  pub venue : X

module _ {N X : Type 0} (out : Outside N X) where
  abbrev pub statement :
      (List (StateBalance N) → List (StateBalance N)) → Action (Balances N X) Failure Done
  statement change s =
      let (accepted, x) = out.query_accepted s.venue in
      if accepted
      then (ok tt, record { rows = change s.rows; venue = x })
      else (err database, record s { venue = x })

  abbrev select : {A : Type 0} → (List (StateBalance N) → A) → Action (Balances N X) Failure A
  select read = statement (λ rows. rows) >> gets (λ s. read s.rows)

  -- `createStateBalance` catches what the insertion throws.
  unfoldable pub create_state_balance : StateBalance N → Action (Balances N X) Failure Done
  create_state_balance b = catch (statement (λ rows. rows ++ b ∷ [])) (λ _. pure tt)

  unfoldable pub get_balance : Action (Balances N X) Failure (Option (StateBalance N))
  get_balance = select last?

  unfoldable pub get_all_balance : Action (Balances N X) Failure (List (StateBalance N))
  get_all_balance = select (λ rows. rows)

  -- Without a condition: every row is overwritten, less the name of its exchange.
  unfoldable pub update_balance : StateBalance N → Action (Balances N X) Failure Done
  update_balance b = statement (map (λ r. record b { exchange_name = r.exchange_name }))
