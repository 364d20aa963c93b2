-- ===== src/Soroban/Action.antt =====
-- An invocation of a contract. It reads and writes the contract's storage and the world outside, and
-- a panic anywhere rolls both back: a failure carries no state. `err` is a panic with one of the
-- contract's own error codes, `trap` any other (a failed call, an authorization that is missing, an
-- overflow that the release profile checks).
use stellar_dex_agg.Prelude.{◌≡◌, ap, some-injective, Bool, true, false, Option, none, some, arith}

pub data Result (E A : Type 0) : Type 0 where
  ok : A → Result E A
  err : E → Result E A
  trap : Result E A

pub record Env (S W : Type 0) : Type 0 where
  pub storage : S
  pub world : W

abbrev pub Action : (S E A : Type 0) → Type 0
Action S E A = S → Result E (A × S)

module _ {S E : Type 0} where
  unfoldable pub pure : {A : Type 0} → A → Action S E A
  pure a s = ok (a, s)

  -- `panic_with_error!`, behind a test: `assert_with_error!`
  unfoldable pub require : Bool → E → Action S E (Unit {0})
  require true e s = ok (tt, s)
  require false e s = err e

  -- `unwrap_or_else(|| panic_with_error!(…))`
  unfoldable pub unwrap_or_panic : {A : Type 0} → Option A → E → Action S E A
  unwrap_or_panic none e s = err e
  unwrap_or_panic (some a) e s = ok (a, s)

  -- `expect`, and arithmetic whose overflow panics
  unfoldable pub expect : {A : Type 0} → Option A → Action S E A
  expect none s = trap
  expect (some a) s = ok (a, s)

  -- `if`, between two ways to go on
  unfoldable pub branch : {A : Type 0} → Bool → Action S E A → Action S E A → Action S E A
  branch true m n = m
  branch false m n = n

  unfoldable pub assert : Bool → Action S E (Unit {0})
  assert true s = ok (tt, s)
  assert false s = trap

module _ {S W E : Type 0} where
  unfoldable pub load : {A : Type 0} → (S → A) → Action (Env S W) E A
  load f s = ok (f s.storage, s)

  unfoldable pub observe : {A : Type 0} → (W → A) → Action (Env S W) E A
  observe f s = ok (f s.world, s)

  unfoldable pub modify : (S → S) → Action (Env S W) E (Unit {0})
  modify f s = ok (tt, record { storage = f s.storage; world = s.world })

  -- a call that only changes the world, and cannot fail
  unfoldable pub effect : (W → W) → Action (Env S W) E (Unit {0})
  effect f s = ok (tt, record { storage = s.storage; world = f s.world })

  -- a call that leaves the contract and returns a value, or traps
  unfoldable pub call : {A : Type 0} → (W → Option (A × W)) → Action (Env S W) E A
  call f s = elim (f s.world) [
    | none ↦ trap
    | some (a, w) ↦ ok (a, record { storage = s.storage; world = w })
  ]

  unfoldable pub call_unit : (W → Option W) → Action (Env S W) E (Unit {0})
  call_unit f s = elim (f s.world) [
    | none ↦ trap
    | some w ↦ ok (tt, record { storage = s.storage; world = w })
  ]

infixl 5 ◌>>=◌ ◌>>◌
-- opening this opens the lines of a block too
unfoldable pub ◌>>=◌ : {S E A B : Type 0} → Action S E A → (A → Action S E B) → Action S E B
unfolding pure require unwrap_or_panic expect branch assert load observe modify effect call
    call_unit
◌>>=◌ m f s = elim (m s) [ ok (a, s') ↦ f a s' | err e ↦ err e | trap ↦ trap ]

abbrev pub ◌>>◌ : {S E A B : Type 0} → Action S E A → Action S E B → Action S E B
m >> k = m >>= λ _. k

module _ {S E A B : Type 0} where
  -- a line that succeeds
  pub >>=-ok :
      (m : Action S E A) (f : A → Action S E B) {s s' : S} {a : A}
      → m s ≡ ok (a, s')
      → (m >>= f) s ≡ f a s'
  unfolding ◌>>=◌
  >>=-ok m f e = ground arith

-- The state after an invocation, which a failure leaves as it was.
unfoldable pub settle : {S E A : Type 0} → Action S E A → S → S
settle m s = elim (m s) [ ok (_, s') ↦ s' | err _ ↦ s | trap ↦ s ]

-- The value of an invocation that succeeds.
unfoldable pub answer : {S E A : Type 0} → Action S E A → S → Option A
answer m s = elim (m s) [ ok (a, _) ↦ some a | err _ ↦ none | trap ↦ none ]

pub answer-ok :
    {S E A : Type 0} (m : Action S E A) (s : S) (a : A)
    → answer m s ≡ some a
    → m s ≡ ok (a, settle m s)
unfolding answer settle
answer-ok {S} {E} {A} m s a e = go (m s) e
  where
    go :
        (r : Result E (A × S))
        → (elim r [ ok (b, _) ↦ some b | err _ ↦ none | trap ↦ none ]) ≡ some a
        → r ≡ ok (a, elim r [ ok (_, s') ↦ s' | err _ ↦ s | trap ↦ s ])
    go (ok (b, s')) e = ap (λ x. ok (x, s')) (some-injective _ _ e)
    go (err _) e = cc
    go trap e = cc
