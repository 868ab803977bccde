-- ===== src/Base/Outcome.antt =====
-- What a C function may do besides returning: touch memory outside its buffers, or stay in a
-- `while (1)` for ever.
use mathlib.Core.Path.{◌≡◌, refl, ap, subst}
use mathlib.Core.Option.{Option, none, some}

pub data Trap : Type 0 where
  out_of_bounds hang : Trap

pub data Result {ℓ} (A : Type ℓ) : Type ℓ where
  ok : A → Result A
  trap : Trap → Result A

infixl 5 ◌>>=◌
abbrev pub ◌>>=◌ {ℓ κ} : {B : Type κ} {A : Type ℓ} → Result A → (A → Result B) → Result B
trap t >>= next = trap t
ok a >>= next = next a

-- An access of memory, which is out of bounds when there is nothing there.
abbrev pub access {ℓ} : {A : Type ℓ} → Option A → Result A
access none = trap Trap.out_of_bounds
access (some a) = ok a

pub >>=-cong {ℓ κ} :
    {A : Type ℓ} {B : Type κ} (m : Result A) (f g : A → Result B)
    → ((a : A) → f a ≡ g a)
    → (m >>= f) ≡ (m >>= g)
>>=-cong (ok a) f g h = h a
>>=-cong (trap t) f g h = refl

-- What holds of the result of a function, if it returns.
abbrev pub IfReturns {ℓ} : {A : Type ℓ} → (A → Type 0) → Result A → Type 0
IfReturns P (ok a) = P a
IfReturns P (trap t) = Unit {0}

pub IfReturns->>= {ℓ κ} :
    {A : Type ℓ} {B : Type κ} (P : A → Type 0) (Q : B → Type 0) (m : Result A) (f : A → Result B)
    → IfReturns P m
    → ((a : A) → P a → IfReturns Q (f a))
    → IfReturns Q (m >>= f)
IfReturns->>= P Q (ok a) f h next = next a h
IfReturns->>= P Q (trap t) f h next = tt

pub IfReturns-any {ℓ} : {A : Type ℓ} (m : Result A) → IfReturns (λ a. Unit {0}) m
IfReturns-any (ok a) = tt
IfReturns-any (trap t) = tt

pub IfReturns-ok {ℓ} :
    {A : Type ℓ} (P : A → Type 0) {m : Result A} {a : A} → m ≡ ok a → IfReturns P m → P a
IfReturns-ok P e h = subst (IfReturns P) e h

pub IfReturns-map {ℓ} :
    {A : Type ℓ} (P Q : A → Type 0) (m : Result A)
    → IfReturns P m
    → ((a : A) → P a → Q a)
    → IfReturns Q m
IfReturns-map P Q (ok a) h next = next a h
IfReturns-map P Q (trap t) h next = tt

-- What holds of the result of a function that either returns or touches memory out of bounds.
abbrev pub IfInBounds {ℓ} : {A : Type ℓ} → (A → Type 0) → Result A → Type 0
IfInBounds P (ok a) = P a
IfInBounds P (trap t) = t ≡ Trap.out_of_bounds

pub IfInBounds->>= {ℓ κ} :
    {A : Type ℓ} {B : Type κ} (P : A → Type 0) (Q : B → Type 0) (m : Result A) (f : A → Result B)
    → IfInBounds P m
    → ((a : A) → P a → IfInBounds Q (f a))
    → IfInBounds Q (m >>= f)
IfInBounds->>= P Q (ok a) f h next = next a h
IfInBounds->>= P Q (trap t) f h next = h

-- What goes wrong at the end goes wrong in any case.
pub >>=-out_of_bounds {ℓ κ} :
    {A : Type ℓ} {B : Type κ} (P : A → Type 0) (m : Result A) (f : A → Result B)
    → IfInBounds P m
    → ((a : A) → P a → f a ≡ trap Trap.out_of_bounds)
    → (m >>= f) ≡ trap Trap.out_of_bounds
>>=-out_of_bounds P (ok a) f h next = next a h
>>=-out_of_bounds P (trap t) f h next = ap trap h
