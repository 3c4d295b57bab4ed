-- ===== src/Trading/Settings/Encryption/Laws.antt =====
-- Reading an encrypted credential back.
use tonatiuh_trading_saas.Prelude.{
  String, ◌≡◌, refl, ap, ◌∙◌, Bool, true, false, not, ◌&&◌, some, [], ◌∷◌, arith, if◌then◌else◌,
  Bool-cases, inl, inr,
}
use Prim.Native.Char.{char}
use Prim.Native.String.append
use Prim.Native.String.{[] as []ᵗ, ◌∷◌ as ◌∷ᵗ◌, ◌++◌ as ◌joined◌}
use tonatiuh_trading_saas.Prelude.Action.{ok}
use tonatiuh_trading_saas.Trading.Settings.Encryption.{
  Crypto, is_colon, split_colon, envelope, encrypt, decrypt, invalid, empty,
}

-- no colon in a text
abbrev pub plain : String → Bool
plain []ᵗ = true
plain (c ∷ᵗ text) = not (is_colon c) && plain text

-- What is documented of `crypto`: hexadecimal texts have no colon, an initialisation vector and a
-- tag are not empty, AES-GCM keeps the length of its text, and what was sealed can be opened.
pub record IsAead {X : Type 0} (crypto : Crypto X) : Type 0 where
  pub iv_plain : (x : X) → plain (crypto.random_iv x).0 ≡ true
  pub iv_full : (x : X) → empty (crypto.random_iv x).0 ≡ false
  pub tag_plain : (iv text : String) → plain (crypto.seal iv text).0 ≡ true
  pub tag_full : (iv text : String) → empty (crypto.seal iv text).0 ≡ false
  pub bytes_plain : (iv text : String) → plain (crypto.seal iv text).1 ≡ true
  pub bytes_empty : (iv text : String) → empty (crypto.seal iv text).1 ≡ empty text
  pub opens :
      (iv text : String)
      → crypto.open_sealed iv (crypto.seal iv text).0 (crypto.seal iv text).1 ≡ some text

split_colon-plain : (text : String) → plain text ≡ true → split_colon text ≡ text ∷ []
unfolding split_colon
split_colon-plain []ᵗ h = refl
split_colon-plain (c ∷ᵗ text) h = elim (Bool-cases (is_colon c)) [
  | inl colon ↦ absurd (ground arith)
  | inr other ↦ ground (arith, split_colon-plain text)
]

colon_append : (rest : String) → ":" joined rest ≡ char 58 tt ∷ᵗ rest
colon_append rest = append.cons (char 58 tt) []ᵗ rest ∙ ap (λ t. char 58 tt ∷ᵗ t) (append.nil rest)

split_colon-part :
    (word rest : String)
    → plain word ≡ true
    → split_colon (word joined (":" joined rest)) ≡ word ∷ split_colon rest
unfolding split_colon
split_colon-part []ᵗ rest h = ap split_colon (append.nil (":" joined rest) ∙ colon_append rest)
split_colon-part (c ∷ᵗ word) rest h = elim (Bool-cases (is_colon c)) [
  | inl colon ↦ absurd (ground arith)
  | inr other ↦
      ap split_colon (append.cons c word (":" joined rest))
      ∙ ground (arith, split_colon-part word rest (ground arith))
]

split_colon-envelope :
    (iv tag bytes : String)
    → plain iv ≡ true
    → plain tag ≡ true
    → plain bytes ≡ true
    → split_colon (envelope iv tag bytes) ≡ "v2" ∷ iv ∷ tag ∷ bytes ∷ []
split_colon-envelope iv tag bytes p q r =
    split_colon-part "v2" (iv joined (":" joined (tag joined (":" joined bytes)))) refl
    ∙ ap (λ ps. "v2" ∷ ps)
        (split_colon-part iv (tag joined (":" joined bytes)) p
          ∙ ap (λ ps. iv ∷ ps)
              (split_colon-part tag bytes q ∙ ap (λ ps. tag ∷ ps) (split_colon-plain bytes r)))

not_empty_envelope : (rest : String) → empty ("v2" joined rest) ≡ false
not_empty_envelope rest = ap empty (append.cons (char 118 tt) "2" rest)

-- An encrypted text decrypts to itself, unless it is empty: its encryption is refused as invalid.
pub encrypt-decrypt :
    {X : Type 0} (crypto : Crypto X)
    → IsAead crypto
    → (text : String) (x : X)
    → decrypt crypto (encrypt crypto text x).0 ≡ (if empty text then invalid else ok text)
unfolding encrypt decrypt
encrypt-decrypt {X} crypto law text x =
    let iv = (crypto.random_iv x).0 in
    let (tag, bytes) = crypto.seal iv text in
    let parts =
      split_colon-envelope iv tag bytes (law.iv_plain x) (law.tag_plain iv text)
        (law.bytes_plain iv text) in
    let full =
      not_empty_envelope (":" joined (iv joined (":" joined (tag joined (":" joined bytes))))) in
    rw full (
      rw parts (
        rw (law.iv_full x)
          (rw (law.tag_full iv text) (rw (law.bytes_empty iv text) (rw (law.opens iv text) refl)))))

pub encrypt-decrypt_full :
    {X : Type 0} (crypto : Crypto X)
    → IsAead crypto
    → (text : String) (x : X) → empty text ≡ false
    → decrypt crypto (encrypt crypto text x).0 ≡ ok text
encrypt-decrypt_full crypto law text x h = ground (arith, encrypt-decrypt crypto law text x)
