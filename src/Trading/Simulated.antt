-- ===== src/Trading/Simulated.antt =====
-- A simulated exchange and a simulated cipher, at which the theorems are applied.
use tonatiuh_trading_saas.Prelude.{
  ℕ, String, true, Option, none, some, [], ◌≡◌, refl, ap, ◌∙◌, sym, if◌then◌else◌, inl, inr,
  Bool-cases, ◌==◌ as nat_eq,
}
use Prim.Native.Char.{char, code}
use Prim.Native.String.{[] as []ᵗ, ◌∷◌ as ◌∷ᵗ◌}
use text.Mathlib.TextEquality.{Char-path}
use tonatiuh_trading_saas.Prelude.Action.{ok}
use tonatiuh_trading_saas.Prelude.Maps.{nat_eq_sound}
use tonatiuh_trading_saas.Number.{lit}
use tonatiuh_trading_saas.Number.Fixed.{Fixed, fixed_number}
use tonatiuh_trading_saas.Trading.Types.{
  Side, buy, Order, no_column, Status, closed, open_order, limit,
}
use tonatiuh_trading_saas.Trading.Outside.{Outside}
use tonatiuh_trading_saas.Trading.Settings.Encryption.{Crypto, is_colon, empty}
use tonatiuh_trading_saas.Trading.Settings.Encryption.Laws.{IsAead, plain}

abbrev pub amount : ℕ → Fixed
amount n = lit n

abbrev pub placed : String → Side → Option Status → Fixed → Order Fixed
placed id side status filled = record {
  id = id;
  order_id = none;
  stored = no_column;
  symbol = "ETH/USDT";
  side = side;
  amount = some (amount 2);
  price = some (amount 100);
  average = none;
  filled = some filled;
  remaining = none;
  status = status;
  type_ = some limit;
  client_order_id = none;
  info = none;
}

-- An exchange that fills every order on the first look.
abbrev pub simulated : Outside Fixed ℕ
simulated = record {
  fetch_order = λ id symbol x. (ok (placed id buy (some closed) (amount 2)), x);
  create_order = λ settings x. (ok (placed "new" settings.side (some open_order) (amount 0)), x);
  cancel_all = λ symbol x. (ok tt, x);
  cancel_order = λ id symbol x. (ok tt, x);
  fetch_open_orders = λ symbol x. (ok [], x);
  fetch_ticker = λ symbol x. (ok (some (amount 100)), x);
  fetch_balance = λ x. (ok (record { free = λ currency. some (amount 1000) }), x);
  fetch_candles = λ symbol range x. (ok [], x);
  sleep = λ ms x. x;
  now = λ x. x;
  query_accepted = λ x. (true, x);
  row_id = λ n. "row";
  random_id = λ x. ("session", x);
  has_parent = true;
}

-- Two characters for each one; none of them is a colon.
abbrev mask : String → String
mask []ᵗ = []ᵗ
mask (c ∷ᵗ text) =
    let rest = mask text in
    if is_colon c then char 110 tt ∷ᵗ (char 110 tt ∷ᵗ rest) else char 121 tt ∷ᵗ (c ∷ᵗ rest)

abbrev unmask : String → String
unmask []ᵗ = []ᵗ
unmask (m ∷ᵗ []ᵗ) = []ᵗ
unmask (m ∷ᵗ (c ∷ᵗ rest)) = (if nat_eq (code m) 110 then char 58 tt else c) ∷ᵗ unmask rest

abbrev pub cipher : Crypto ℕ
cipher = record {
  random_iv = λ x. ("iv", x);
  seal = λ iv text. ("tag", mask text);
  open_sealed = λ iv tag bytes. some (unmask bytes);
  open_chained = λ iv bytes. none;
}

plain-mask : (text : String) → plain (mask text) ≡ true
plain-mask []ᵗ = refl
plain-mask (c ∷ᵗ text) = elim (Bool-cases (is_colon c)) [
  | inl colon ↦ rw colon (plain-mask text)
  | inr other ↦ rw other (rw other (plain-mask text))
]

unmask-mask : (text : String) → unmask (mask text) ≡ text
unmask-mask []ᵗ = refl
unmask-mask (c ∷ᵗ text) = elim (Bool-cases (is_colon c)) [
  | inl colon ↦
      let is_it : char 58 tt ≡ c =
        sym (Char-path c (char 58 tt) (nat_eq_sound (code c) 58 colon)) in
      rw colon (ap (λ d. d ∷ᵗ unmask (mask text)) is_it ∙ ap (λ t. c ∷ᵗ t) (unmask-mask text))
  | inr other ↦ rw other (ap (λ t. c ∷ᵗ t) (unmask-mask text))
]

empty-mask : (text : String) → empty (mask text) ≡ empty text
empty-mask []ᵗ = refl
empty-mask (c ∷ᵗ text) = elim (Bool-cases (is_colon c)) [
  | inl colon ↦ rw colon refl
  | inr other ↦ rw other refl
]

pub cipher-IsAead : IsAead cipher
cipher-IsAead = record {
  iv_plain = λ x. refl;
  iv_full = λ x. refl;
  tag_plain = λ iv text. refl;
  tag_full = λ iv text. refl;
  bytes_plain = λ iv text. plain-mask text;
  bytes_empty = λ iv text. empty-mask text;
  opens = λ iv text. ap some (unmask-mask text);
}
