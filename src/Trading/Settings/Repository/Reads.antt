-- ===== src/Trading/Settings/Repository/Reads.antt =====
-- Decrypting the rows of the table.
use tonatiuh_trading_saas.Prelude.{
  ℕ, ◌≡◌, refl, inl, inr, true, false, List, [], ◌∷◌, find?, is_some, arith, Bool-cases,
  ◌==◌ as nat_eq,
}
use tonatiuh_trading_saas.Prelude.Action.{Result, ok, err, Result-cases, After}
use tonatiuh_trading_saas.Trading.Outside.{Outside}
use tonatiuh_trading_saas.Trading.Settings.Encryption.{Crypto, empty, encrypt, decrypt}
use tonatiuh_trading_saas.Trading.Settings.Encryption.Laws.{IsAead, encrypt-decrypt_full}
use tonatiuh_trading_saas.Trading.Settings.Config.{Config}
use tonatiuh_trading_saas.Trading.Settings.Repository.{
  ConfigRow, Configs, has_id, selected, statement, decrypt_config, decrypt_rows,
}

pub Result-Known :
    {S E A : Type 0} (r : Result E A) (s : S)
    → After (λ a t. (t ≡ s) × (r ≡ ok a)) (λ _ t. t ≡ s) (r, s)
Result-Known (ok a) s = (refl, refl)
Result-Known (err e) s = refl

module _ {N X : Type 0} (crypto : Crypto X) where
  pub decrypt_config-id : (c d : Config N) → decrypt_config crypto c ≡ ok d → d.id ≡ c.id
  unfolding decrypt_config
  decrypt_config-id c d h = elim (Result-cases (decrypt crypto c.api_key)) [
    | inr (e, a) ↦ absurd (ground arith)
    | inl (a, p) ↦ elim (Result-cases (decrypt crypto c.private_key)) [
      | inr (e, b) ↦ absurd (ground arith)
      | inl (b, q) ↦ elim (Result-cases (decrypt crypto c.password)) [
        | inr (e, w) ↦ absurd (ground arith)
        | inl (w, r) ↦ ground arith
      ]
    ]
  ]

  -- the first row and the others, as they decrypt
  pub decrypt_rows-cons :
      (r : ConfigRow N) (rows : List (ConfigRow N)) (configs : List (Config N))
      → decrypt_rows crypto (r ∷ rows) ≡ ok configs
      → (c : Config N) × (cs : List (Config N)) × (decrypt_config crypto r.config ≡ ok c)
        × (decrypt_rows crypto rows ≡ ok cs)
        × (configs ≡ c ∷ cs)
  decrypt_rows-cons r rows configs h = elim (Result-cases (decrypt_config crypto r.config)) [
    | inr (e, bad) ↦ absurd (ground arith)
    | inl (c, good) ↦ elim (Result-cases (decrypt_rows crypto rows)) [
      | inr (e, bad) ↦ absurd (ground arith)
      | inl (cs, rest) ↦ (c, cs, good, rest, ground arith)
    ]
  ]

  -- a number among the decrypted configurations is one of the rows
  pub find?-decrypt_rows :
      (id : ℕ) (rows : List (ConfigRow N)) (configs : List (Config N))
      → decrypt_rows crypto rows ≡ ok configs
      → is_some (find? (λ item. nat_eq item.id id) configs) ≡ true
      → is_some (find? (has_id id) rows) ≡ true
  find?-decrypt_rows id [] [] h found = found
  find?-decrypt_rows id [] (c ∷ cs) h found = absurd (ground arith)
  find?-decrypt_rows id (r ∷ rows) configs h found =
      let (c, cs, good, rest, same) = decrypt_rows-cons r rows configs h in
      elim (Bool-cases (has_id id r)) [
        | inl here ↦ ground arith
        | inr other ↦
            ground (arith, decrypt_config-id r.config c good, find?-decrypt_rows id rows cs rest)
      ]

  pub decrypt_rows-nil : (rows : List (ConfigRow N)) → decrypt_rows crypto rows ≡ ok [] → rows ≡ []
  decrypt_rows-nil [] h = refl
  decrypt_rows-nil (r ∷ rows) h =
      let (c, cs, good, rest, same) = decrypt_rows-cons r rows [] h in absurd (ground arith)

  -- what is stored of three credentials reads as them
  pub decrypt_config-sealed :
      (law : IsAead crypto) (c : Config N) (x y z : X)
      → empty c.api_key ≡ false
      → empty c.private_key ≡ false
      → empty c.password ≡ false
      → decrypt_config crypto (record c {
        api_key = (encrypt crypto c.api_key x).0;
        private_key = (encrypt crypto c.private_key y).0;
        password = (encrypt crypto c.password z).0;
      })
        ≡ ok (selected c)
  unfolding decrypt_config
  decrypt_config-sealed law c x y z a p w =
      let p₁ = encrypt-decrypt_full crypto law c.api_key x a in
      let p₂ = encrypt-decrypt_full crypto law c.private_key y p in
      let p₃ = encrypt-decrypt_full crypto law c.password z w in ground arith

module _ {N X : Type 0} (out : Outside N X) where
  pub statement-Changes :
      (change : List (ConfigRow N) → List (ConfigRow N)) (s : Configs N X)
      → After (λ _ t. t.rows ≡ change s.rows) (λ _ t. t.rows ≡ s.rows) (statement out change s)
  statement-Changes change s = elim (Bool-cases (out.query_accepted s.venue).0) [
    | inl accepted ↦ ground arith
    | inr refused ↦ ground arith
  ]
