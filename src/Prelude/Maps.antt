-- ===== src/Prelude/Maps.antt =====
-- A `Map` of the source: its entries in the order of insertion, one for each key.
use tonatiuh_trading_saas.Prelude.Tests.{if◌then◌else◌, ◌==◌ as nat_eq, Bool-cases}
use tonatiuh_trading_saas.Prelude.Lists.{All}
use Prim.Native.Nat.{ℕ}
use mathlib.Core.Path.{◌≡◌, refl, sym, subst, ap₂, ◌∙◌}
use mathlib.Core.Logic.{◌⊎◌, inl, inr}
use mathlib.Core.Bool.{Bool, true}
use mathlib.Core.List.{List, [], ◌∷◌}
use mathlib.Core.Option.{Option, none, some}
use native.Mathlib.Omega.{arith}

-- keys that can be compared
pub record Key (K : Type 0) : Type 0 where
  pub same : K → K → Bool
  pub same_refl : (k : K) → same k k ≡ true
  pub same_eq : (j k : K) → same j k ≡ true → j ≡ k

pub nat_eq_refl : (k : ℕ) → nat_eq k k ≡ true
nat_eq_refl k = ground arith

pub nat_eq_sound : (j k : ℕ) → nat_eq j k ≡ true → j ≡ k
nat_eq_sound j k h = ground arith

instance unfoldable pub nat_key : Key ℕ
nat_key = record { same = nat_eq; same_refl = nat_eq_refl; same_eq = nat_eq_sound }

abbrev pub Map : Type 0 → Type 0 → Type 0
Map K V = List (K × V)

module _ {K V : Type 0} ⦃keys : Key K⦄ where
  -- `m.get(k)`
  unfoldable pub lookup : Map K V → K → Option V
  lookup [] k = none
  lookup ((j, v) ∷ m) k = if keys.same j k then some v else lookup m k

  -- `m.set(k, v)`: a key that is there keeps its place
  unfoldable pub set : Map K V → K → V → Map K V
  set [] k v = (k, v) ∷ []
  set ((j, w) ∷ m) k v = let rest = set m k v in if keys.same j k then (j, v) ∷ m else (j, w) ∷ rest

  -- `m.delete(k)`
  unfoldable pub delete : Map K V → K → Map K V
  delete [] k = []
  delete ((j, w) ∷ m) k = let rest = delete m k in if keys.same j k then rest else (j, w) ∷ rest

  pub lookup-set : (m : Map K V) (k : K) (v : V) → lookup (set m k v) k ≡ some v
  unfolding lookup set
  lookup-set [] k v = ground (arith, keys.same_refl k)
  lookup-set ((j, w) ∷ m) k v = ground (arith, keys.same_refl k, lookup-set m k v)

  pub lookup-set_cases :
      (m : Map K V) (k j : K) (v : V) → (j ≡ k) ⊎ (lookup (set m k v) j ≡ lookup m j)
  unfolding lookup set
  lookup-set_cases [] k j v = elim (Bool-cases (keys.same k j)) [
    | inl e ↦ inl (sym (keys.same_eq k j e))
    | inr e ↦ inr (ground arith)
  ]
  lookup-set_cases ((i, w) ∷ m) k j v = elim (lookup-set_cases m k j v) [
    | inl e ↦ inl e
    | inr e ↦ elim (Bool-cases (keys.same i k)) [
      | inl f ↦ elim (Bool-cases (keys.same i j)) [
        | inl g ↦ inl (sym (keys.same_eq i j g) ∙ keys.same_eq i k f)
        | inr g ↦ inr (ground arith)
      ]
      | inr f ↦ inr (ground arith)
    ]
  ]

  pub lookup-delete : (m : Map K V) (k : K) → lookup (delete m k) k ≡ none
  unfolding lookup delete
  lookup-delete [] k = refl
  lookup-delete ((j, w) ∷ m) k = ground (arith, lookup-delete m k)

  pub lookup-delete-some :
      (m : Map K V) (k j : K) (v : V) → lookup (delete m k) j ≡ some v → lookup m j ≡ some v
  unfolding lookup delete
  lookup-delete-some [] k j v h = h
  lookup-delete-some ((i, w) ∷ m) k j v h = elim (Bool-cases (keys.same i j)) [
    | inl there ↦ elim (Bool-cases (keys.same i k)) [
      | inl gone ↦
          absurd (ground (arith, lookup-delete m k, keys.same_eq i j there, keys.same_eq i k gone))
      | inr kept ↦ ground arith
    ]
    | inr other ↦
        let rest = lookup-delete-some m k j v in
        elim (Bool-cases (keys.same i k)) [ inl gone ↦ ground arith | inr kept ↦ ground arith ]
  ]

  pub lookup-delete_cases : (m : Map K V) (k j : K) → (j ≡ k) ⊎ (lookup (delete m k) j ≡ lookup m j)
  unfolding lookup delete
  lookup-delete_cases [] k j = inr refl
  lookup-delete_cases ((i, w) ∷ m) k j = elim (lookup-delete_cases m k j) [
    | inl e ↦ inl e
    | inr e ↦ elim (Bool-cases (keys.same i k)) [
      | inl gone ↦ elim (Bool-cases (keys.same i j)) [
        | inl f ↦ inl (sym (keys.same_eq i j f) ∙ keys.same_eq i k gone)
        | inr f ↦ inr (ground arith)
      ]
      | inr kept ↦ inr (ground arith)
    ]
  ]

  module _ {ℓ} (P : K × V → Type ℓ) where
    pub All-set : (m : Map K V) (k : K) (v : V) → All P m → P (k, v) → All P (set m k v)
    unfolding set
    All-set [] k v h p = (p, tt)
    All-set ((j, w) ∷ m) k v h p = elim (Bool-cases (keys.same j k)) [
      | inl e ↦ rw e (rw (keys.same_eq j k e) p, h.1)
      | inr e ↦ rw e (h.0, All-set m k v h.1 p)
    ]

    pub All-delete : (m : Map K V) (k : K) → All P m → All P (delete m k)
    unfolding delete
    All-delete [] k h = tt
    All-delete ((j, w) ∷ m) k h = elim (Bool-cases (keys.same j k)) [
      | inl e ↦ rw e (All-delete m k h.1)
      | inr e ↦ rw e (h.0, All-delete m k h.1)
    ]

    pub All-lookup : (m : Map K V) (k : K) (v : V) → All P m → lookup m k ≡ some v → P (k, v)
    unfolding lookup
    All-lookup [] k v h e = absurd (ground arith)
    All-lookup ((j, w) ∷ m) k v h e = elim (Bool-cases (keys.same j k)) [
      | inl f ↦ subst P (ap₂ (λ x y. (x, y)) (keys.same_eq j k f) (ground arith)) h.0
      | inr f ↦ All-lookup m k v h.1 (ground arith)
    ]
