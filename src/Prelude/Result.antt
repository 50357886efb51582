-- ===== src/Prelude/Result.antt =====
-- The value of fallible code: `Result<A, E>`. `stuck` is no value of the program: the fuel of a loop
-- ran out, or the program would panic.
use mathlib.Core.Path.{◌≡◌, refl, subst}
use mathlib.Core.Logic.{◌≢◌}
use mathlib.Core.Bool.{Bool, true, false}

pub data Result {ℓ κ} (E : Type ℓ) (A : Type κ) : Type (ℓ ⊔ κ) where
  ok : A → Result E A
  err : E → Result E A
  stuck : Result E A

infixl 5 ◌>>=◌ ◌>>◌
abbrev pub ◌>>=◌ {ℓ κ μ} :
    {E : Type ℓ} {A : Type κ} {B : Type μ} → Result E A → (A → Result E B) → Result E B
ok a >>= f = f a
err e >>= f = err e
stuck >>= f = stuck

abbrev pub ◌>>◌ {ℓ κ} : {E : Type ℓ} {B : Type κ} → Result E (Unit {0}) → Result E B → Result E B
m >> k = m >>= λ _. k

-- `if !test { return Err(e) }`
abbrev pub guard {ℓ} : {E : Type ℓ} → Bool → E → Result E (Unit {0})
guard true e = ok tt
guard false e = err e

module _ {ℓ κ μ} {E : Type ℓ} {A : Type κ} {B : Type μ} where
  pub >>=-eq-ok :
      (first : Result E A) (next : A → Result E B) {last : B}
      → first >>= next ≡ ok last
      → (x : A) × (first ≡ ok x) × (next x ≡ ok last)
  >>=-eq-ok (ok x) next = λ e. (x, refl, e)
  >>=-eq-ok (err d) next = λ e. cc
  >>=-eq-ok stuck next = λ e. cc

  pub >>=-ne-stuck :
      (m : Result E A) (f : A → Result E B)
      → m ≢ stuck
      → ((a : A) → m ≡ ok a → f a ≢ stuck)
      → (m >>= f) ≢ stuck
  >>=-ne-stuck (ok a) f h k = k a refl
  >>=-ne-stuck (err e) f h k = λ p. cc
  >>=-ne-stuck stuck f h k = absurd (h refl)

-- The run gave a value of the program, and `P` holds of the value if it is no error.
pub data Ensures {ℓ κ μ} {E : Type ℓ} {A : Type κ} (P : A → Type μ)
    : Result E A → Type (ℓ ⊔ κ ⊔ μ) where
  holds : {a : A} → P a → Ensures P (ok a)
  rejected : {e : E} → Ensures P (err e)

module _ {ℓ κ μ} {E : Type ℓ} {A : Type κ} {P : A → Type μ} where
  pub Ensures-ok : {r : Result E A} {a : A} → Ensures P r → r ≡ ok a → P a
  Ensures-ok (holds h) e = subst P (cc) h
  Ensures-ok rejected e = cc

  pub Ensures-ne-stuck : {r : Result E A} → Ensures P r → r ≢ stuck
  Ensures-ne-stuck (holds h) = cc
  Ensures-ne-stuck rejected = cc

  pub Ensures-intro : (r : Result E A) → r ≢ stuck → ((a : A) → r ≡ ok a → P a) → Ensures P r
  Ensures-intro (ok a) h k = holds (k a refl)
  Ensures-intro (err e) h k = rejected
  Ensures-intro stuck h k = absurd (h refl)

  pub Ensures-weaken {ν} :
      {Q : A → Type ν} {r : Result E A} → Ensures P r → ((a : A) → P a → Q a) → Ensures Q r
  Ensures-weaken (holds {a} h) k = holds (k a h)
  Ensures-weaken rejected k = rejected

module _ {ℓ κ μ} {E : Type ℓ} {A B : Type κ} {P : A → Type μ} {Q : B → Type μ} where
  pub Ensures->>= :
      (m : Result E A) (f : A → Result E B)
      → Ensures P m
      → ((a : A) → m ≡ ok a → P a → Ensures Q (f a))
      → Ensures Q (m >>= f)
  Ensures->>= (ok a) f h k = k a refl (Ensures-ok h refl)
  Ensures->>= (err e) f h k = rejected
  Ensures->>= stuck f h k = absurd (Ensures-ne-stuck h refl)

module _ {ℓ κ μ} {E : Type ℓ} {A : Type κ} {B : Type μ} where
  pub bind-Bool :
      (m : Result E Bool) (f : Bool → Result E B) (k : Bool → Result E A) (g : A → Result E B)
      → f true ≡ (k true >>= g)
      → f false ≡ (k false >>= g)
      → (m >>= f) ≡ (m >>= k >>= g)
  bind-Bool (ok true) f k g h l = h
  bind-Bool (ok false) f k g h l = l
  bind-Bool (err e) f k g h l = refl
  bind-Bool stuck f k g h l = refl

  pub bind-cases :
      {C : Type κ} (m : Result E C) (f : C → Result E B) (k : C → Result E A) (g : A → Result E B)
      → ((c : C) → f c ≡ (k c >>= g))
      → (m >>= f) ≡ (m >>= k >>= g)
  bind-cases (ok c) f k g h = h c
  bind-cases (err e) f k g h = refl
  bind-cases stuck f k g h = refl

  pub bind-after :
      {C : Type κ} (m : Result E C) (k : C → A) (f : A → Result E B) (g : C → Result E B)
      → ((c : C) → f (k c) ≡ g c)
      → (m >>= (λ c. ok (k c)) >>= f) ≡ (m >>= g)
  bind-after (ok c) k f g h = h c
  bind-after (err e) k f g h = refl
  bind-after stuck k f g h = refl

pub bind-ok {ℓ κ} : {E : Type ℓ} {A : Type κ} (m : Result E A) → (m >>= ok) ≡ m
bind-ok (ok a) = refl
bind-ok (err e) = refl
bind-ok stuck = refl
