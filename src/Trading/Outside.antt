-- ===== src/Trading/Outside.antt =====
-- What the trading process does not implement: the exchange behind ccxt, the clock, the database
-- engine and the process that may have forked it. `X` is their state, which every call may change.
use tonatiuh_trading_saas.Prelude.{ℕ, String, Bool, Option, List}
use tonatiuh_trading_saas.Prelude.Action.{Action, Done}
use tonatiuh_trading_saas.Trading.Types.{Order, CreateOpenPosition}

-- What a call of ccxt throws: `instanceof Error`, its `name`, `code` and message.
pub record CcxtError : Type 0 where
  pub is_error : Bool
  pub name : String
  pub code : Option String
  pub message : String

-- A failure of the trading services: an error of ccxt, one of their own, or one of the database.
pub data Failure : Type 0 where
  exchange : CcxtError → Failure
  undefined_error : Failure  -- `throw lastError` before any attempt failed
  cannot_cancel : String → List String → Failure
  not_executed : String → Failure
  ended_before_execution : String → Failure
  database : Failure
  no_closed_order : Failure
  no_orders : Failure
  other_failure : String → Failure

pub record Candle (N : Type 0) : Type 0 where
  pub highest : N
  pub lowest : N

-- `free` of a currency, or nothing if the balance has no entry for it
pub record Balance (N : Type 0) : Type 0 where
  pub free : String → Option N

pub record Outside (N X : Type 0) : Type 0 where
  pub fetch_order : String → String → Action X CcxtError (Order N)
  pub create_order : CreateOpenPosition N → Action X CcxtError (Order N)
  pub cancel_all : String → Action X CcxtError Done
  pub cancel_order : String → String → Action X CcxtError Done
  pub fetch_open_orders : String → Action X CcxtError (List (Order N))
  pub fetch_ticker : String → Action X CcxtError (Option N)  -- `last`
  pub fetch_balance : Action X CcxtError (Balance N)
  pub fetch_candles : String → String → Action X CcxtError (List (Candle N))
  pub sleep : ℕ → X → X  -- waiting for some milliseconds
  pub now : X → ℕ
  pub query_accepted : X → Bool × X  -- whether the database carries out the next statement
  pub row_id : ℕ → String  -- the text of an automatic row number
  pub random_id : X → String × X  -- `_generateIndexOperation`
  pub has_parent : Bool  -- `process.send` is there
