-- ===== src/Trading/Types.antt =====
-- The values that the trading services pass around (src/types/types.ts,
-- src/repository/types/types.ts), and an order as ccxt returns it or as a table row holds it.
use tonatiuh_trading_saas.Prelude.{String, Bool, true, false, Option}

-- `ModeType`
pub data Side : Type 0 where
  buy sell : Side

abbrev pub same_side : Side → Side → Bool
same_side buy buy = true
same_side sell sell = true
same_side _ _ = false

-- `side === 'buy' ? 'sell' : 'buy'`
abbrev pub opposite : Side → Side
opposite buy = sell
opposite sell = buy

abbrev pub is_buy : Side → Bool
is_buy buy = true
is_buy sell = false

-- `TradeType`
pub data TradeType : Type 0 where
  market limit : TradeType

-- the `status` of a ccxt order
pub data Status : Type 0 where
  open_order closed canceled expired rejected : Status

-- the fields of a ccxt order that a stored order is read for
pub record RawOrder (N : Type 0) : Type 0 where
  pub client_order_id : Option String
  pub type_ : Option TradeType
  pub status : Option Status
  pub filled : Option N
  pub info : Option String

-- The `order` column: missing, JSON's `null`, an object, or a text that `JSON.parse` reads or refuses.
pub data Stored (N : Type 0) : Type 0 where
  no_column json_null : Stored N
  json_object : RawOrder N → Stored N
  json_text : Option (RawOrder N) → Stored N

-- A ccxt `Order` and an `OrderType` row share the lists of the services. `order_id` and `stored`
-- are there for a row, the fields after them for an order of the exchange.
pub record Order (N : Type 0) : Type 0 where
  pub id : String
  pub order_id : Option String
  pub stored : Stored N
  pub symbol : String
  pub side : Side
  pub amount : Option N
  pub price : Option N
  pub average : Option N
  pub filled : Option N
  pub remaining : Option N
  pub status : Option Status
  pub type_ : Option TradeType
  pub client_order_id : Option String
  pub info : Option String

-- `SettingOrderType`
pub record SettingOrder (N : Type 0) : Type 0 where
  pub symbol : String
  pub type_ : TradeType
  pub amount : N
  pub price : N

-- `CreateOpenPositionType`
pub record CreateOpenPosition (N : Type 0) : Type 0 where
  pub symbol : String
  pub type_ : TradeType
  pub side : Side
  pub amount : N
  pub price : N
