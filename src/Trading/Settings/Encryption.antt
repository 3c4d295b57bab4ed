-- ===== src/Trading/Settings/Encryption.antt =====
-- src/plugins/EncryptionService/EncryptionService.ts: sealing a credential as a text of four parts.
pub mod Laws
use tonatiuh_trading_saas.Prelude.{
  String, Bool, true, false, not, ◌&&◌, ◌||◌, Option, none, some, List, [], ◌∷◌, if◌then◌else◌,
  ◌==◌ as nat_eq,
}
use Prim.Native.Char.{Char, code}
use Prim.Native.String.{[] as []ᵗ, ◌∷◌ as ◌∷ᵗ◌, ◌++◌ as ◌joined◌}
use text.Mathlib.Text.{◌==◌}
use tonatiuh_trading_saas.Prelude.Action.{Result, ok, err, Action}
use tonatiuh_trading_saas.Trading.Outside.{Failure, other_failure}

abbrev pub is_colon : Char → Bool
is_colon c = nat_eq (code c) 58

abbrev pub grow : Char → List String → List String
grow c [] = (c ∷ᵗ []ᵗ) ∷ []
grow c (word ∷ words) = (c ∷ᵗ word) ∷ words

-- `text.split(':')`
unfoldable pub split_colon : String → List String
split_colon []ᵗ = []ᵗ ∷ []
split_colon (c ∷ᵗ text) =
    let rest = split_colon text in if is_colon c then []ᵗ ∷ rest else grow c rest

-- What Node's `crypto` does with the key of the service. Bytes are hexadecimal texts.
pub record Crypto (X : Type 0) : Type 0 where
  pub random_iv : X → String × X  -- `randomBytes(12)`
  pub seal : String → String → String × String  -- AES-GCM: the tag and the bytes, of an iv and a text
  pub open_sealed : String → String → String → Option String  -- of an iv, a tag and bytes
  pub open_chained : String → String → Option String  -- AES-CBC, of an iv and bytes

-- `!text`
abbrev pub empty : String → Bool
empty []ᵗ = true
empty (c ∷ᵗ text) = false

abbrev pub invalid : {A : Type 0} → Result Failure A
invalid = err (other_failure "Invalid encrypted value.")

-- `decipher.final()` throws
abbrev deciphered : Option String → Result Failure String
deciphered none = err (other_failure "Unsupported state or unable to authenticate data")
deciphered (some text) = ok text

-- The text of `parts.join(':')`
abbrev pub envelope : String → String → String → String
envelope iv tag data_ =
    "v2" joined (":" joined (iv joined (":" joined (tag joined (":" joined data_)))))

module _ {X : Type 0} (crypto : Crypto X) where
  unfoldable pub encrypt : String → X → String × X
  encrypt text x =
      let (iv, x') = crypto.random_iv x in
      let (auth_tag, encrypted) = crypto.seal iv text in (envelope iv auth_tag encrypted, x')

  -- the parts after `v2`; a part that is missing is as an empty one
  abbrev open_v2 : List String → Result Failure String
  open_v2 (iv ∷ tag ∷ data_ ∷ _) =
      if empty iv || empty tag || empty data_
      then invalid
      else deciphered (crypto.open_sealed iv tag data_)
  open_v2 _ = invalid

  -- the format of before
  abbrev open_v1 : List String → Result Failure String
  open_v1 (iv ∷ data_ ∷ _) =
      if empty iv || empty data_ then invalid else deciphered (crypto.open_chained iv data_)
  open_v1 _ = invalid

  abbrev open_parts : List String → Result Failure String
  open_parts [] = invalid
  open_parts (first ∷ parts) = if first == "v2" then open_v2 parts else open_v1 (first ∷ parts)

  unfoldable pub decrypt : String → Result Failure String
  decrypt encrypted_data =
      if empty encrypted_data then ok "" else open_parts (split_colon encrypted_data)
