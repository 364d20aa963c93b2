-- ===== src/Soroban/Laws.antt =====
-- What the token contracts promise (SEP-41), as far as the contracts rely on it.
use stellar_dex_agg.Prelude.{
  ℕ, ◌≡◌, ◌≢◌, ◌≤◌, false, u32_max, subst, arith, int_laws, Bool, ◌&&◌, some, ℤ, pos, ◌+ℤ◌, ◌-ℤ◌,
  ◌≤ℤ◌, ◌==◌, if◌then◌else◌,
}
use stellar_dex_agg.Soroban.Host.{Address, SubInvocation, Host, Pools}

-- The amount, at the account that is meant; nothing elsewhere.
abbrev pub at : (t a t' a' : Address) → ℤ → ℤ
at t a t' a' x = if t == t' && a == a' then x else pos 0

-- The amount, in the token that is meant.
abbrev pub on : (t t' : Address) → ℤ → ℤ
on t t' x = if t == t' then x else pos 0

pub at_same : (t a t' : Address) (x : ℤ) → at t a t' a x ≡ on t t' x
at_same t a t' x = ground arith

pub on_zero : (t t' : Address) → on t t' (pos 0) ≡ pos 0
on_zero t t' = ground arith

pub on_sub : (t t' : Address) (x y : ℤ) → on t t' (x -ℤ y) +ℤ on t t' y ≡ on t t' x
on_sub t t' x y = grind int_laws

pub at_nonneg : (t a t' a' : Address) (x : ℤ) → pos 0 ≤ℤ x → pos 0 ≤ℤ at t a t' a' x
at_nonneg t a t' a' x n = ground arith

pub at_other : (t a t' a' : Address) (x : ℤ) → a ≢ a' → at t a t' a' x ≡ pos 0
at_other t a t' a' x ne = ground arith

-- A transfer moves the amount from one account to the other and touches no third account and no
-- other token; it fails unless the amount is not negative and covered.
pub record TokenLaws {W : Type 0} (h : Host W) : Type 0 where
  pub transfer_balance :
      (t f g : Address) (x : ℤ) (w w' : W)
      → h.transfer t f g x w ≡ some w'
      → (t' a : Address) → h.balance t' a w' ≡ h.balance t' a w -ℤ at t f t' a x +ℤ at t g t' a x
  pub transfer_nonneg :
      (t f g : Address) (x : ℤ) (w w' : W) → h.transfer t f g x w ≡ some w' → pos 0 ≤ℤ x
  pub transfer_covered :
      (t f g : Address) (x : ℤ) (w w' : W) → h.transfer t f g x w ≡ some w' → x ≤ℤ h.balance t f w
  pub transfer_sequence :
      (t f g : Address) (x : ℤ) (w w' : W)
      → h.transfer t f g x w ≡ some w'
      → h.sequence w' ≡ h.sequence w
  pub authorize_balance :
      (i : SubInvocation) (w : W) (t a : Address)
      → h.balance t a (h.authorize_as_current_contract i w) ≡ h.balance t a w
  pub authorize_sequence :
      (i : SubInvocation) (w : W) → h.sequence (h.authorize_as_current_contract i w) ≡ h.sequence w

-- A transfer that is covered goes through: the token is not frozen and the accounts can hold it.
pub record TransferLaws {W : Type 0} (h : Host W) : Type 0 where
  pub transfer_succeeds :
      (t f g : Address) (x : ℤ) (w : W)
      → pos 0 ≤ℤ x
      → x ≤ℤ h.balance t f w
      → (w' : W) × (h.transfer t f g x w ≡ some w')

-- The ledger number is a u32, and no invocation carries an authorization of the contract itself.
pub record LedgerLaws {W : Type 0} (h : Host W) (self : Address) : Type 0 where
  pub clock : (w : W) → h.sequence w ≤ u32_max
  pub silent : (w : W) → h.has_auth self w ≡ false

-- An allowance changes no balance, and a transfer by allowance moves the amount like any other; it fails
-- for a negative amount.
pub record AllowanceLaws {W : Type 0} (h : Host W) : Type 0 where
  pub approve_balance :
      (t f s : Address) (x : ℤ) (n : ℕ) (w w' : W)
      → h.approve t f s x n w ≡ some w'
      → (t' a : Address) → h.balance t' a w' ≡ h.balance t' a w
  pub transfer_from_balance :
      (t s f g : Address) (x : ℤ) (w w' : W)
      → h.transfer_from t s f g x w ≡ some w'
      → (t' a : Address) → h.balance t' a w' ≡ h.balance t' a w -ℤ at t f t' a x +ℤ at t g t' a x
  pub transfer_from_nonneg :
      (t s f g : Address) (x : ℤ) (w w' : W) → h.transfer_from t s f g x w ≡ some w' → pos 0 ≤ℤ x

module _ {W : Type 0} (h : Host W) where
  -- No balance of the account has fallen.
  pub record Kept (a : Address) (w w' : W) : Type 0 where
    pub in_token : (t : Address) → h.balance t a w ≤ℤ h.balance t a w'

  -- What the host promises of a call into a pool, whatever code the pool runs: an account that is not
  -- the caller, that authorizes nothing below the call and has given the pool no allowance, loses
  -- nothing by it.
  pub record PoolLaws (pools : Pools W) (self a : Address) : Type 0 where
    pub aquarius_kept :
        (id i o n m r : ℕ) (w w' : W)
        → pools.aquarius_swap id self self i o n m w ≡ some (r, w')
        → Kept a w w'
    pub get_reserves_kept :
        (id : Address) (r : ℤ × ℤ) (w w' : W)
        → pools.get_reserves id self w ≡ some (r, w')
        → Kept a w w'
    pub pair_kept :
        (id : Address) (x y : ℤ) (w w' : W)
        → pools.pair_swap id self x y self w ≡ some w'
        → Kept a w w'
    pub phoenix_kept :
        (id t : Address) (x : ℤ) (w w' : W)
        → pools.phoenix_swap id self self t x w ≡ some w'
        → Kept a w w'
    pub hints_kept :
        (id : Address) (hints : ℕ) (w w' : W)
        → pools.get_oracle_hints id self w ≡ some (hints, w')
        → Kept a w w'
    pub sushi_kept :
        (id : Address) (z : Bool) (x : ℤ) (limit hints : ℕ) (w w' : W)
        → pools.sushi_swap id self self self z x limit hints w ≡ some w'
        → Kept a w w'
    pub comet_kept :
        (id t u : Address) (x y z : ℤ) (r : ℤ × ℤ) (w w' : W)
        → pools.swap_exact_amount_in id self t x u y z self w ≡ some (r, w')
        → Kept a w w'

  pub Kept-refl : (a : Address) (w : W) → Kept a w w
  Kept-refl a w = record { in_token = λ t. omega arith }

  pub Kept-trans : {a : Address} {u v w : W} → Kept a u v → Kept a v w → Kept a u w
  Kept-trans p q = record { in_token = λ t. omega (arith, p.in_token t, q.in_token t) }

  module _ (tokens : TokenLaws h) where
    -- A transfer between other accounts, or to the account, takes nothing from it.
    pub transfer-Kept :
        (t f g a : Address) (x : ℤ) {w w' : W}
        → h.transfer t f g x w ≡ some w'
        → f ≢ a
        → Kept a w w'
    transfer-Kept t f g a x {w} {w'} e ne = record {
      in_token = λ t'.
          rw (tokens.transfer_balance t f g x w w' e t' a, at_other t f t' a x ne)
            (omega (int_laws, at_nonneg t g t' a x (tokens.transfer_nonneg t f g x w w' e)));
    }

    pub authorize-Kept :
        (i : SubInvocation) (a : Address) (w : W) → Kept a w (h.authorize_as_current_contract i w)
    authorize-Kept i a w = record {
      in_token = λ t. rw (tokens.authorize_balance i w t a) (omega arith);
    }

    -- What a transfer takes from its source, and gives to its target, if the two are not the same.
    pub transfer-from :
        (t f g : Address) (x : ℤ) {w w' : W}
        → h.transfer t f g x w ≡ some w'
        → g ≢ f
        → (t' : Address) → h.balance t' f w' ≡ h.balance t' f w -ℤ on t t' x
    transfer-from t f g x {w} {w'} e ne t' =
        rw (tokens.transfer_balance t f g x w w' e t' f, at_other t g t' f x ne, at_same t f t' x)
          (omega int_laws)

    pub transfer-to :
        (t f g : Address) (x : ℤ) {w w' : W}
        → h.transfer t f g x w ≡ some w'
        → f ≢ g
        → (t' : Address) → h.balance t' g w' ≡ h.balance t' g w +ℤ on t t' x
    transfer-to t f g x {w} {w'} e ne t' =
        rw (tokens.transfer_balance t f g x w w' e t' g, at_other t f t' g x ne, at_same t g t' x)
          (omega int_laws)

    -- A transfer takes at most its amount from its source.
    pub transfer-least :
        (t f g : Address) (x : ℤ) {w w' : W}
        → h.transfer t f g x w ≡ some w'
        → (t' : Address) → h.balance t' f w ≤ℤ h.balance t' f w' +ℤ on t t' x
    transfer-least t f g x {w} {w'} e t' =
        rw (tokens.transfer_balance t f g x w w' e t' f, at_same t f t' x)
          (omega (int_laws, at_nonneg t g t' f x (tokens.transfer_nonneg t f g x w w' e)))

  -- The account has paid at most one amount, of one token, and received at least the other, of the
  -- other token; no other token's balance has fallen.
  pub record Traded (a token_in token_out : Address) (paid got : ℤ) (w w' : W) : Type 0 where
    pub in_token :
        (t : Address)
        → h.balance t a w +ℤ on token_out t got ≤ℤ h.balance t a w' +ℤ on token_in t paid

  -- An authorization changes no balance, so a trade after it is one from before it.
  pub authorize-Traded :
      (tokens : TokenLaws h) (i : SubInvocation) (a t u : Address) (x x' y : ℤ) (w : W) {w' : W}
      → x ≡ x'
      → Traded a t u x y (h.authorize_as_current_contract i w) w'
      → Traded a t u x' y w w'
  authorize-Traded tokens i a t u x x' y w {w'} e traded = record {
    in_token = λ t'.
        subst (λ z. h.balance t' a w +ℤ on u t' y ≤ℤ h.balance t' a w' +ℤ on t t' z) e
          (rw (tokens.authorize_balance i w t' a) at (traded.in_token t'));
  }
