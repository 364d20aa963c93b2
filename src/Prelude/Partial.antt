-- ===== src/Prelude/Partial.antt =====
-- Computations that may panic, where `none` is a panic: of plain arithmetic of u128, which the release
-- profile checks, of a division by zero, or of an index.
use Prim.Native.Nat.{ℕ, ◌+◌, ◌-◌, ◌*◌, ◌/◌, ◌≤◌, min}
use native.Mathlib.Omega.{arith}
use mathlib.Core.Path.{◌≡◌, refl, subst}
use mathlib.Core.Bool.{Bool, true, false}
use mathlib.Core.Option.{Option, none, some, some-injective}
use stellar_dex_agg.Prelude.Tests.{leb, ◌==◌, if◌then◌else◌}
use stellar_dex_agg.Prelude.Words.{u128_max}

-- Plain arithmetic and division of u128, and the saturating kind.
abbrev pub u128_in : ℕ → Option ℕ
u128_in a = if leb a u128_max then some a else none

abbrev pub u128_add : ℕ → ℕ → Option ℕ
u128_add a b = u128_in (a + b)

abbrev pub u128_mul : ℕ → ℕ → Option ℕ
u128_mul a b = u128_in (a * b)

abbrev pub u128_sub : ℕ → ℕ → Option ℕ
u128_sub a b = if leb b a then some (a - b) else none

abbrev pub u128_div : ℕ → ℕ → Option ℕ
u128_div a b = if b == 0 then none else some (a / b)

abbrev pub saturating_add : ℕ → ℕ → ℕ
saturating_add a b = min (a + b) u128_max

abbrev pub saturating_mul : ℕ → ℕ → ℕ
saturating_mul a b = min (a * b) u128_max

infixl 5 ◌>>=◌
unfoldable pub ◌>>=◌ : {A B : Type 0} → Option A → (A → Option B) → Option B
m >>= f = elim m [ none ↦ none | some a ↦ f a ]

-- What holds of the value of a computation, if it does not panic.
pub record Gives {A : Type 0} (P : A → Type 0) (m : Option A) : Type 0 where
  pub on_some : (a : A) → m ≡ some a → P a

module _ {A B : Type 0} {P : B → Type 0} where
  pub Gives-bind :
      (m : Option A) (f : A → Option B) → ((a : A) → m ≡ some a → Gives P (f a)) → Gives P (m >>= f)
  unfolding ◌>>=◌
  Gives-bind none f k = record { on_some = λ b e. cc }
  Gives-bind (some a) f k = k a refl

module _ {A : Type 0} {P : A → Type 0} where
  pub Gives-if :
      (c : Bool) (m n : Option A)
      → (c ≡ true → Gives P m)
      → (c ≡ false → Gives P n)
      → Gives P (if c then m else n)
  Gives-if true m n p q = p refl
  Gives-if false m n p q = q refl

  pub Gives-some : (a : A) → P a → Gives P (some a)
  Gives-some a p = record { on_some = λ b e. subst P (some-injective _ _ e) p }

-- Two computations that go on alike are equal.
module _ {A B : Type 0} where
  pub bind_ext :
      (m : Option A) (f g : A → Option B)
      → ((a : A) → m ≡ some a → f a ≡ g a)
      → (m >>= f) ≡ (m >>= g)
  unfolding ◌>>=◌
  bind_ext none f g h = refl
  bind_ext (some a) f g h = h a refl

pub if_ext {ℓ} :
    {A : Type ℓ} (c : Bool) (x y y' : A)
    → (c ≡ false → y ≡ y')
    → (if c then x else y) ≡ (if c then x else y')
if_ext true x y y' h = refl
if_ext false x y y' h = h refl

-- A computation that does not panic, and what holds of its value.
pub record Returns {A : Type 0} (P : A → Type 0) (m : Option A) : Type 0 where
  pub value : A
  pub is : m ≡ some value
  pub holds : P value

module _ {A B : Type 0} {P : A → Type 0} {Q : B → Type 0} where
  pub Returns-bind :
      (m : Option A) (f : A → Option B)
      → Returns P m
      → ((a : A) → m ≡ some a → P a → Returns Q (f a))
      → Returns Q (m >>= f)
  unfolding ◌>>=◌
  Returns-bind m f r k =
      let next = k r.value r.is r.holds in
      record { value = next.value; is = rw r.is next.is; holds = next.holds }

module _ {A : Type 0} {P : A → Type 0} where
  pub Returns-if :
      (c : Bool) (m n : Option A)
      → (c ≡ true → Returns P m)
      → (c ≡ false → Returns P n)
      → Returns P (if c then m else n)
  Returns-if true m n p q = p refl
  Returns-if false m n p q = q refl

  pub Returns-some : (a : A) → P a → Returns P (some a)
  Returns-some a p = record { value = a; is = refl; holds = p }

pub u128_in-Returns : (a : ℕ) → a ≤ u128_max → Returns (λ r. r ≡ a) (u128_in a)
u128_in-Returns a le = record { value = a; is = ground arith; holds = refl }

pub u128_in_within : (a b : ℕ) → a ≤ b → b ≤ u128_max → Returns (λ r. r ≤ b) (u128_in a)
u128_in_within a b le room = record { value = a; is = ground arith; holds = le }
