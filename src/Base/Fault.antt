-- ===== src/Base/Fault.antt =====
-- Code that can fail an ASSERT, PANIC or access an array out of range: `none` is that fault.
use mathlib.Core.Path.{◌≡◌, refl, subst}
use mathlib.Core.Bool.{Bool, true, false}
use mathlib.Core.Option.{Option, none, some}

infixl 5 ◌>>=◌ ◌>>◌
abbrev pub ◌>>=◌ {ℓ κ} : {A : Type ℓ} {B : Type κ} → Option A → (A → Option B) → Option B
none >>= f = none
some a >>= f = f a

abbrev pub ◌>>◌ {ℓ} : {B : Type ℓ} → Option (Unit {0}) → Option B → Option B
none >> k = none
some u >> k = k

-- ASSERT
abbrev pub assert : Bool → Option (Unit {0})
assert true = some tt
assert false = none

-- The run ends without a fault, in a result that satisfies `P`.
abbrev pub Yields {ℓ} : {A : Type ℓ} → Option A → (A → Type 0) → Type 0
Yields none P = ⊥
Yields (some a) P = P a

module _ {ℓ κ} {A : Type ℓ} {B : Type κ} where
  pub Yields-bind :
      (P : A → Type 0) (Q : B → Type 0) (r : Option A) (k : A → Option B)
      → Yields r P
      → ((a : A) → P a → Yields (k a) Q)
      → Yields (r >>= k) Q
  Yields-bind P Q none k h next = h
  Yields-bind P Q (some a) k h next = next a h

-- Two steps and then the rest.
pub Yields-chain {ℓ κ μ} :
    {A : Type ℓ} {B : Type κ} {C : Type μ} (P : B → Type 0) (Q : C → Type 0) (r : Option A)
    (k : A → Option B) (l : B → Option C)
    → Yields (r >>= k) P
    → ((b : B) → P b → Yields (l b) Q)
    → Yields (r >>= λ a. k a >>= l) Q
Yields-chain P Q none k l h next = h
Yields-chain P Q (some a) k l h next = Yields-bind P Q (k a) l h next

module _ {ℓ} {A : Type ℓ} where
  pub Yields-mono :
      (P Q : A → Type 0) (r : Option A) → Yields r P → ((a : A) → P a → Q a) → Yields r Q
  Yields-mono P Q none h weaken = h
  Yields-mono P Q (some a) h weaken = weaken a h

  pub Yields-both :
      (P Q : A → Type 0) (r : Option A) → Yields r P → Yields r Q → Yields r (λ a. P a × Q a)
  Yields-both P Q none h k = h
  Yields-both P Q (some a) h k = (h, k)

  pub Yields_some : (P : A → Type 0) (r : Option A) {a : A} → Yields r P → r ≡ some a → P a
  Yields_some P r h e = subst (λ o. Yields o P) e h

-- The run faults, or ends in a result that satisfies `P`.
abbrev pub Allows {ℓ} : {A : Type ℓ} → Option A → (A → Type 0) → Type 0
Allows none P = Unit
Allows (some a) P = P a

module _ {ℓ} {A : Type ℓ} where
  pub Yields-Allows :
      (P Q : A → Type 0) (r : Option A) → Yields r P → Allows r Q → Yields r (λ a. P a × Q a)
  Yields-Allows P Q none h k = h
  Yields-Allows P Q (some a) h k = (h, k)

  pub Allows-of_Yields : (P : A → Type 0) (r : Option A) → Yields r P → Allows r P
  Allows-of_Yields P none h = tt
  Allows-of_Yields P (some a) h = h

  pub Allows-mono :
      (P Q : A → Type 0) (r : Option A) → Allows r P → ((a : A) → P a → Q a) → Allows r Q
  Allows-mono P Q none h weaken = tt
  Allows-mono P Q (some a) h weaken = weaken a h

  pub Allows_some : (P : A → Type 0) (r : Option A) {a : A} → Allows r P → r ≡ some a → P a
  Allows_some P r h e = subst (λ o. Allows o P) e h

  pub Allows-bind {κ} :
      {B : Type κ} (P : A → Type 0) (Q : B → Type 0) (r : Option A) (k : A → Option B)
      → Allows r P
      → ((a : A) → P a → Allows (k a) Q)
      → Allows (r >>= k) Q
  Allows-bind P Q none k h next = tt
  Allows-bind P Q (some a) k h next = next a h

-- A first step about which nothing is said.
pub Allows-then {ℓ κ} :
    {A : Type ℓ} {B : Type κ} (Q : B → Type 0) (r : Option A) (k : A → Option B)
    → ((a : A) → Allows (k a) Q)
    → Allows (r >>= k) Q
Allows-then Q none k next = tt
Allows-then Q (some a) k next = next a

-- Code that does not fault, and then code that can.
pub Allows-after {ℓ κ} :
    {A : Type ℓ} {B : Type κ} (P : A → Type 0) (Q : B → Type 0) (r : Option A) (k : A → Option B)
    → Yields r P
    → ((a : A) → P a → Allows (k a) Q)
    → Allows (r >>= k) Q
Allows-after P Q none k h next = absurd h
Allows-after P Q (some a) k h next = next a h

pub Allows-assert {κ} :
    {B : Type κ} (Q : B → Type 0) (b : Bool) (r : Option B)
    → (b ≡ true → Allows r Q)
    → Allows (assert b >> r) Q
Allows-assert Q true r h = h refl
Allows-assert Q false r h = tt

-- The run ends without a fault, in a result that satisfies `P`, unless `F` holds.
abbrev pub Unless {ℓ} : {A : Type ℓ} → Type 0 → Option A → (A → Type 0) → Type 0
Unless F none P = F
Unless F (some a) P = P a

module _ {ℓ} {A : Type ℓ} (F : Type 0) where
  pub Unless-of_Yields : (P : A → Type 0) (r : Option A) → Yields r P → Unless F r P
  Unless-of_Yields P none h = absurd h
  Unless-of_Yields P (some a) h = h

  pub Yields-of_Unless : (P : A → Type 0) (r : Option A) → (F → ⊥) → Unless F r P → Yields r P
  Yields-of_Unless P none never h = never h
  Yields-of_Unless P (some a) never h = h

  pub Unless-weaken :
      (G : Type 0) (P : A → Type 0) (r : Option A) → (G → F) → Unless G r P → Unless F r P
  Unless-weaken G P none to h = to h
  Unless-weaken G P (some a) to h = h

  pub Unless-bind {κ} :
      {B : Type κ} (P : A → Type 0) (Q : B → Type 0) (r : Option A) (k : A → Option B)
      → Unless F r P
      → ((a : A) → P a → Unless F (k a) Q)
      → Unless F (r >>= k) Q
  Unless-bind P Q none k h next = h
  Unless-bind P Q (some a) k h next = next a h

  -- Code that does not fault, and then code that can.
  pub Unless-after {κ} :
      {B : Type κ} (P : A → Type 0) (Q : B → Type 0) (r : Option A) (k : A → Option B)
      → Yields r P
      → ((a : A) → P a → Unless F (k a) Q)
      → Unless F (r >>= k) Q
  Unless-after P Q none k h next = absurd h
  Unless-after P Q (some a) k h next = next a h
