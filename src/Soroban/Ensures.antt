-- ===== src/Soroban/Ensures.antt =====
-- Postconditions of an invocation: what holds of the value and the state if it succeeds. One rule for
-- each kind of line, so that a proof follows its block.
use stellar_dex_agg.Prelude.{◌≡◌, refl, sym, subst, Bool, true, false, Option, none, some, arith}
use stellar_dex_agg.Soroban.Action.{
  Result, ok, err, trap, Env, Action, ◌>>=◌, pure, require, unwrap_or_panic, expect, branch, assert,
  load, observe, modify, effect, call, call_unit, settle,
}
use stellar_dex_agg.Soroban.Host.{Address, Host, require_auth}

pub record Ensures {E A S : Type 0} (P : A → S → Type 0) (m : Action S E A) (s : S) : Type 0 where
  pub on_success : (a : A) (s' : S) → m s ≡ ok (a, s') → P a s'

module _ {E A S : Type 0} {P : A → S → Type 0} where
  pub Ensures-pure : (a : A) {s : S} → P a s → Ensures {E = E} P (pure a) s
  unfolding pure
  Ensures-pure a p = record { on_success = λ b t e. ground arith }

  -- a last line
  pub Ensures-unwrapped :
      (o : Option A) (e : E) {s : S}
      → ((a : A) → o ≡ some a → P a s)
      → Ensures P (unwrap_or_panic o e) s
  unfolding unwrap_or_panic
  Ensures-unwrapped none e k = record { on_success = λ b t h. cc }
  Ensures-unwrapped (some a) e k = record { on_success = λ b t h. ground (arith, k a refl) }

  pub Ensures-expected :
      (o : Option A) {s : S} → ((a : A) → o ≡ some a → P a s) → Ensures {E = E} P (expect o) s
  unfolding expect
  Ensures-expected none k = record { on_success = λ b t h. cc }
  Ensures-expected (some a) k = record { on_success = λ b t h. ground (arith, k a refl) }

  pub Ensures-self :
      {m : Action S E A} {s : S} → ((a : A) (s' : S) → m s ≡ ok (a, s') → P a s') → Ensures P m s
  Ensures-self k = record { on_success = k }

  pub Ensures-weaken :
      {Q : A → S → Type 0} {m : Action S E A} {s : S}
      → Ensures Q m s
      → ((a : A) (s' : S) → Q a s' → P a s')
      → Ensures P m s
  Ensures-weaken q k = record { on_success = λ a s' e. k a s' (q.on_success a s' e) }

module _ {E A B S : Type 0} {P : B → S → Type 0} where
  -- the rest may use how the first line ended
  pub Ensures-bind_eq :
      (m : Action S E A) (f : A → Action S E B) {s : S}
      → ((a : A) (s' : S) → m s ≡ ok (a, s') → Ensures P (f a) s')
      → Ensures P (m >>= f) s
  unfolding ◌>>=◌
  Ensures-bind_eq m f {s} k = record { on_success = split (m s) k }
    where
      split :
          (r : Result E (A × S))
          → ((a : A) (s' : S) → r ≡ ok (a, s') → Ensures P (f a) s')
          → (b : B) (t : S)
          → ◌≡◌ {A = Result E (B × S)}
              (elim r [ ok (a, s') ↦ f a s' | err e ↦ err e | trap ↦ trap ])
              (ok (b, t))
          → P b t
      split (ok (a, s')) k b t e = (k a s' refl).on_success b t e
      split (err _) k b t e = cc
      split trap k b t e = cc

  pub Ensures-bind :
      {Q : A → S → Type 0} (m : Action S E A) (f : A → Action S E B) {s : S}
      → Ensures Q m s
      → ((a : A) (s' : S) → Q a s' → Ensures P (f a) s')
      → Ensures P (m >>= f) s
  Ensures-bind m f q k = Ensures-bind_eq m f (λ a s' e. k a s' (q.on_success a s' e))

module _ {E A B S : Type 0} {P : B → S → Type 0} where
  -- a line that leaves the state alone
  pub Ensures-bind_reads :
      {Q : A → Type 0} (m : Action S E A) (f : A → Action S E B) {s : S}
      → Ensures (λ a s'. Q a × (s' ≡ s)) m s
      → ((a : A) → Q a → Ensures P (f a) s)
      → Ensures P (m >>= f) s
  Ensures-bind_reads m f q k =
      Ensures-bind m f q (λ a s' (qa, e). subst (λ z. Ensures P (f a) z) (sym e) (k a qa))

module _ {E S : Type 0} {P : Unit {0} → S → Type 0} where
  -- a last line that is a test
  pub Ensures-required :
      (b : Bool) (e : E) {s : S} → (b ≡ true → P tt s) → Ensures P (require b e) s
  unfolding require
  Ensures-required true e k = record { on_success = λ _ t h. ground (arith, k refl) }
  Ensures-required false e k = record { on_success = λ _ t h. cc }

  -- a last line that always fails
  pub Ensures-refused : (e : E) {s : S} → Ensures P (require false e) s
  unfolding require
  Ensures-refused e = record { on_success = λ _ t h. cc }

module _ {E B S : Type 0} {P : B → S → Type 0} where
  pub Ensures-require :
      (b : Bool) (e : E) (f : Unit {0} → Action S E B) {s : S}
      → (b ≡ true → Ensures P (f tt) s)
      → Ensures P (require b e >>= f) s
  unfolding ◌>>=◌
  Ensures-require true e f k = record { on_success = (k refl).on_success }
  Ensures-require false e f k = record { on_success = λ b t e. cc }

  pub Ensures-assert :
      (b : Bool) (f : Unit {0} → Action S E B) {s : S}
      → (b ≡ true → Ensures P (f tt) s)
      → Ensures P (assert b >>= f) s
  unfolding ◌>>=◌
  Ensures-assert true f k = record { on_success = (k refl).on_success }
  Ensures-assert false f k = record { on_success = λ b t e. cc }

  pub Ensures-unwrap :
      {A : Type 0} (o : Option A) (e : E) (f : A → Action S E B) {s : S}
      → ((a : A) → o ≡ some a → Ensures P (f a) s)
      → Ensures P (unwrap_or_panic o e >>= f) s
  unfolding ◌>>=◌
  Ensures-unwrap none e f k = record { on_success = λ b t e. cc }
  Ensures-unwrap (some a) e f k = record { on_success = (k a refl).on_success }

  pub Ensures-expect :
      {A : Type 0} (o : Option A) (f : A → Action S E B) {s : S}
      → ((a : A) → o ≡ some a → Ensures P (f a) s)
      → Ensures P (expect o >>= f) s
  unfolding ◌>>=◌
  Ensures-expect none f k = record { on_success = λ b t e. cc }
  Ensures-expect (some a) f k = record { on_success = (k a refl).on_success }

  pub Ensures-branch :
      (b : Bool) (m n : Action S E B) {s : S}
      → (b ≡ true → Ensures P m s)
      → (b ≡ false → Ensures P n s)
      → Ensures P (branch b m n) s
  unfolding branch
  Ensures-branch true m n km kn = km refl
  Ensures-branch false m n km kn = kn refl

module _ {E S W : Type 0} {P : Unit {0} → Env S W → Type 0} where
  -- a last line
  pub Ensures-called_unit :
      (g : W → Option W) {s : Env S W}
      → ((w : W) → g s.world ≡ some w → P tt (record { storage = s.storage; world = w }))
      → Ensures {E = E} P (call_unit g) s
  unfolding call_unit
  Ensures-called_unit g {s} k = record { on_success = go (g s.world) k }
    where
      go :
          (o : Option W)
          → ((w : W) → o ≡ some w → P tt (record { storage = s.storage; world = w }))
          → (t : Unit {0}) (s' : Env S W)
          → ◌≡◌ {A = Result E (Unit {0} × Env S W)}
              (elim o [ none ↦ trap | some w ↦ ok (tt, record { storage = s.storage; world = w }) ])
              (ok (t, s'))
          → P t s'
      go none k t s' e = cc
      go (some w) k t s' e = ground (arith, k w refl)

  pub Ensures-modified :
      (g : S → S) {s : Env S W}
      → P tt (record { storage = g s.storage; world = s.world })
      → Ensures {E = E} P (modify g) s
  unfolding modify
  Ensures-modified g p = record { on_success = λ b t e. ground arith }

module _ {E B S W : Type 0} {P : B → Env S W → Type 0} where
  pub Ensures-load :
      {A : Type 0} (g : S → A) (f : A → Action (Env S W) E B) {s : Env S W}
      → Ensures P (f (g s.storage)) s
      → Ensures P (load g >>= f) s
  unfolding ◌>>=◌
  Ensures-load g f k = record { on_success = k.on_success }

  pub Ensures-observe :
      {A : Type 0} (g : W → A) (f : A → Action (Env S W) E B) {s : Env S W}
      → Ensures P (f (g s.world)) s
      → Ensures P (observe g >>= f) s
  unfolding ◌>>=◌
  Ensures-observe g f k = record { on_success = k.on_success }

  pub Ensures-modify :
      (g : S → S) (f : Unit {0} → Action (Env S W) E B) {s : Env S W}
      → Ensures P (f tt) (record { storage = g s.storage; world = s.world })
      → Ensures P (modify g >>= f) s
  unfolding ◌>>=◌
  Ensures-modify g f k = record { on_success = k.on_success }

  pub Ensures-effect :
      (g : W → W) (f : Unit {0} → Action (Env S W) E B) {s : Env S W}
      → Ensures P (f tt) (record { storage = s.storage; world = g s.world })
      → Ensures P (effect g >>= f) s
  unfolding ◌>>=◌
  Ensures-effect g f k = record { on_success = k.on_success }

  pub Ensures-call :
      {A : Type 0} (g : W → Option (A × W)) (f : A → Action (Env S W) E B) {s : Env S W}
      → ((a : A) (w : W)
          → g s.world ≡ some (a, w)
          → Ensures P (f a) (record { storage = s.storage; world = w }))
      → Ensures P (call g >>= f) s
  unfolding ◌>>=◌
  Ensures-call g f {s} k = record { on_success = split (g s.world) k }
    where
      split :
          {A : Type 0} (o : Option (A × W)) {f : A → Action (Env S W) E B}
          → ((a : A) (w : W)
              → o ≡ some (a, w)
              → Ensures P (f a) (record { storage = s.storage; world = w }))
          → (b : B) (t : Env S W)
          → ◌≡◌ {A = Result E (B × Env S W)} ((call (λ _. o) >>= f) s) (ok (b, t))
          → P b t
      split none k b t e = cc
      split (some (a, w)) k b t e = (k a w refl).on_success b t e

  pub Ensures-call_unit :
      (g : W → Option W) (f : Unit {0} → Action (Env S W) E B) {s : Env S W}
      → ((w : W)
          → g s.world ≡ some w
          → Ensures P (f tt) (record { storage = s.storage; world = w }))
      → Ensures P (call_unit g >>= f) s
  unfolding ◌>>=◌
  Ensures-call_unit g f {s} k = record { on_success = split (g s.world) k }
    where
      split :
          (o : Option W)
          → ((w : W) → o ≡ some w → Ensures P (f tt) (record { storage = s.storage; world = w }))
          → (b : B) (t : Env S W)
          → ◌≡◌ {A = Result E (B × Env S W)} ((call_unit (λ _. o) >>= f) s) (ok (b, t))
          → P b t
      split none k b t e = cc
      split (some w) k b t e = (k w refl).on_success b t e

  pub Ensures-require_auth :
      (h : Host W) (a : Address) (f : Unit {0} → Action (Env S W) E B) {s : Env S W}
      → (h.has_auth a s.world ≡ true → Ensures P (f tt) s)
      → Ensures P (require_auth h a >>= f) s
  unfolding require_auth
  Ensures-require_auth h a f {s} k = record { on_success = split (h.has_auth a s.world) k }
    where
      split :
          (b : Bool)
          → (b ≡ true → Ensures P (f tt) s)
          → (x : B) (t : Env S W)
          → ◌≡◌ {A = Result E (B × Env S W)} ((assert b >>= f) s) (ok (x, t))
          → P x t
      split true k x t e = (k refl).on_success x t e
      split false k x t e = cc

-- What holds of a successful invocation and of one that changes nothing holds of every invocation.
pub settle-holds :
    {S E A : Type 0} {P : S → Type 0} {m : Action S E A} {s : S}
    → P s
    → Ensures (λ _. P) m s
    → P (settle m s)
unfolding settle
settle-holds {S} {E} {A} {P} {m} {s} same q = go (m s) q.on_success
  where
    go :
        (r : Result E (A × S))
        → ((a : A) (s' : S) → r ≡ ok (a, s') → P s')
        → P (elim r [ ok (_, s') ↦ s' | err _ ↦ s | trap ↦ s ])
    go (ok (a, s')) k = k a s' refl
    go (err _) k = same
    go trap k = same
