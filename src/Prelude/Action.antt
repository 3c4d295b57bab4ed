-- ===== src/Prelude/Action.antt =====
-- Asynchronous code as explicit state passing: an action takes the state and returns it together
-- with a value or with what was thrown. What was written before a throw stays written.
use tonatiuh_trading_saas.Prelude.{Bool, true, false, ◌≡◌, refl, subst, ◌⊎◌, inl, inr}

pub data Result (E A : Type 0) : Type 0 where
  ok : A → Result E A
  err : E → Result E A

abbrev pub Action : Type 0 → Type 0 → Type 0 → Type 0
Action S E A = S → Result E A × S

abbrev pub Done : Type 0
Done = Unit {0}

module _ {S E A : Type 0} where
  abbrev pub pure : A → Action S E A
  pure a s = (ok a, s)

  abbrev pub throw : E → Action S E A
  throw e s = (err e, s)

  abbrev pub gets : (S → A) → Action S E A
  gets f s = (ok (f s), s)

  -- `try { m } catch (e) { handler(e) }`
  abbrev pub catch : Action S E A → (E → Action S E A) → Action S E A
  catch m handler s = let (r, s') = m s in elim r [ ok a ↦ (ok a, s') | err e ↦ handler e s' ]

infixl 5 ◌>>=◌ ◌>>◌
abbrev pub ◌>>=◌ : {S E A B : Type 0} → Action S E A → (A → Action S E B) → Action S E B
◌>>=◌ m f s = let (r, s') = m s in elim r [ ok a ↦ f a s' | err e ↦ (err e, s') ]

abbrev pub ◌>>◌ : {S E A B : Type 0} → Action S E A → Action S E B → Action S E B
m >> k = m >>= λ _. k

abbrev pub modify : {S E : Type 0} → (S → S) → Action S E Done
modify f s = (ok tt, f s)

abbrev pub when : {S E : Type 0} → Bool → Action S E Done → Action S E Done
when true m = m
when false m = pure tt

pub Outcome-cases :
    {S E A : Type 0} (r : Result E A × S)
    → ((a : A) × (s : S) × (r ≡ (ok a, s))) ⊎ ((e : E) × (s : S) × (r ≡ (err e, s)))
Outcome-cases (ok a, s) = inl (a, s, refl)
Outcome-cases (err e, s) = inr (e, s, refl)

pub Result-cases :
    {E A : Type 0} (r : Result E A) → ((a : A) × (r ≡ ok a)) ⊎ ((e : E) × (r ≡ err e))
Result-cases (ok a) = inl (a, refl)
Result-cases (err e) = inr (e, refl)

-- What holds when an action ends: `P` of a value and the state, `Q` of an error and the state.
abbrev pub After : {S E A : Type 0} → (A → S → Type 0) → (E → S → Type 0) → Result E A × S → Type 0
After P Q (ok a, s) = P a s
After P Q (err e, s) = Q e s

pub After-bind :
    {S E A B : Type 0} (P : B → S → Type 0) (Q : E → S → Type 0) (R : A → S → Type 0)
    (m : Action S E A) (f : A → Action S E B) (s : S)
    → After R Q (m s)
    → ((a : A) (t : S) → R a t → After P Q (f a t))
    → After P Q ((m >>= f) s)
After-bind {S} {E} {A} P Q R m f s h k = go (m s) h
  where
    go :
        (r : Result E A × S)
        → After R Q r
        → After P Q (elim r.0 [ ok a ↦ f a r.1 | err e ↦ (err e, r.1) ])
    go (ok a, t) g = k a t g
    go (err e, t) g = g

-- A weaker description holds too.
pub After-mono :
    {S E A : Type 0} {P P' : A → S → Type 0} {Q Q' : E → S → Type 0} (r : Result E A × S)
    → ((a : A) (s : S) → P a s → P' a s)
    → ((e : E) (s : S) → Q e s → Q' e s)
    → After P Q r
    → After P' Q' r
After-mono (ok a, s) p q h = p a s h
After-mono (err e, s) p q h = q e s h

-- What the state has whatever the action gave.
pub After-always :
    {S E A : Type 0} (P : S → Type 0) (r : Result E A × S)
    → P r.1
    → After (λ _ s. P s) (λ _ s. P s) r
After-always P (ok a, s) h = h
After-always P (err e, s) h = h

pub After-catch :
    {S E A : Type 0} (P : A → S → Type 0) (Q : E → S → Type 0) (R : E → S → Type 0)
    (m : Action S E A) (f : E → Action S E A) (s : S)
    → After P R (m s)
    → ((e : E) (t : S) → R e t → After P Q (f e t))
    → After P Q (catch m f s)
After-catch {S} {E} {A} P Q R m f s h k = go (m s) h
  where
    go :
        (r : Result E A × S)
        → After P R r
        → After P Q (elim r.0 [ ok a ↦ (ok a, r.1) | err e ↦ f e r.1 ])
    go (ok a, t) g = g
    go (err e, t) g = k e t g

-- what is known of an action that is known to have returned
pub After-ok :
    {S E A : Type 0} (P : A → S → Type 0) (Q : E → S → Type 0) {r : Result E A × S} {a : A} {s : S}
    → After P Q r
    → r ≡ (ok a, s)
    → P a s
After-ok P Q h same = subst (After P Q) same h

-- an action on a part of the state, which `put` writes back
pub After-lift :
    {S T E A : Type 0} (P : A → S → Type 0) (Q : E → S → Type 0) (put : T → S) (r : Result E A × T)
    → After (λ a t. P a (put t)) (λ e t. Q e (put t)) r
    → After P Q (r.0, put r.1)
After-lift P Q put (ok a, t) h = h
After-lift P Q put (err e, t) h = h
