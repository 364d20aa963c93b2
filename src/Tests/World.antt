-- ===== src/Tests/World.antt =====
-- A world with a ledger number and the balances of tokens, and one pool that trades one for one.
use stellar_dex_agg.Prelude.{
  ℕ, ◌≤◌, ◌≡◌, ◌≢◌, refl, sym, ap, subst, arith, int_laws, Bool, ◌&&◌, Option, none, some,
  some-injective, ℤ, pos, ◌+ℤ◌, ◌-ℤ◌, ◌≤ℤ◌, leb_ℤ, ltb, min, u32_max, if◌then◌else◌, leb→le, le→leb,
  true, false,
}
use stellar_dex_agg.Soroban.Host.{Address, Host, Pools}
use stellar_dex_agg.Soroban.Laws.{
  TokenLaws, AllowanceLaws, TransferLaws, LedgerLaws, PoolLaws, Kept, at, at_other, at_nonneg,
}

pub record World : Type 0 where
  pub now : ℕ
  pub holds : Address → Address → ℤ

abbrev pub moved : (t f g : Address) → ℤ → World → World
moved t f g x w = record w { holds = λ t' a. w.holds t' a -ℤ at t f t' a x +ℤ at t g t' a x }

abbrev pub send : (t f g : Address) → ℤ → World → Option World
send t f g x w = if leb_ℤ (pos 0) x && leb_ℤ x (w.holds t f) then some (moved t f g x w) else none

-- Addresses below 10 are users, who authorize everything; the rest are contracts.
abbrev pub host : Host World
host = record {
  sequence = λ w. min w.now u32_max;
  has_auth = λ a w. ltb a 10;
  authorize_as_current_contract = λ i w. w;
  balance = λ t a w. w.holds t a;
  transfer = send;
  approve = λ t f s x n w. some w;
  transfer_from = λ t s f g x. send t f g x;
}

-- The pool takes and gives the tokens whose addresses are its indices.
abbrev pub traded : (id self i o n : ℕ) → World → World
traded id self i o n w = record w {
  holds =
      λ t a. w.holds t a -ℤ at i self t a (pos n) +ℤ at i id t a (pos n) +ℤ at o self t a (pos n);
}

abbrev pub pools : Pools World
pools = record {
  aquarius_swap = λ id self user i o n m w. some (n, traded id self i o n w);
  get_reserves = λ id self w. none;
  pair_swap = λ id self x y to w. none;
  phoenix_swap = λ id self to t x w. none;
  get_oracle_hints = λ id self w. none;
  sushi_swap = λ id self s r z x l hints w. none;
  swap_exact_amount_in = λ id self t x u y z user w. none;
}

send-checked :
    (t f g : Address) (x : ℤ) (w w' : World)
    → send t f g x w ≡ some w'
    → (pos 0 ≤ℤ x) × (x ≤ℤ w.holds t f) × (moved t f g x w ≡ w')
send-checked t f g x w w' e = tested (leb_ℤ (pos 0) x) (leb_ℤ x (w.holds t f)) refl refl e
  where
    tested :
        (b c : Bool)
        → leb_ℤ (pos 0) x ≡ b
        → leb_ℤ x (w.holds t f) ≡ c
        → (if b && c then some (moved t f g x w) else none) ≡ some w'
        → (pos 0 ≤ℤ x) × (x ≤ℤ w.holds t f) × (moved t f g x w ≡ w')
    tested true true p q e = (leb→le _ _ p, leb→le _ _ q, some-injective _ _ e)
    tested true false p q e = cc
    tested false c p q e = cc

moved-holds :
    (t f g : Address) (x : ℤ) (w w' : World)
    → send t f g x w ≡ some w'
    → (t' a : Address) → w'.holds t' a ≡ w.holds t' a -ℤ at t f t' a x +ℤ at t g t' a x
moved-holds t f g x w w' e t' a = ap (λ z. z.holds t' a) (sym (send-checked t f g x w w' e).2)

pub tokens : TokenLaws host
tokens = record {
  transfer_balance = moved-holds;
  transfer_nonneg = λ t f g x w w' e. (send-checked t f g x w w' e).0;
  transfer_covered = λ t f g x w w' e. (send-checked t f g x w w' e).1;
  transfer_sequence =
      λ t f g x w w' e. ap (λ z. min z.now u32_max) (sym (send-checked t f g x w w' e).2);
  authorize_balance = λ i w t a. refl;
  authorize_sequence = λ i w. refl;
}

pub allowances : AllowanceLaws host
allowances = record {
  approve_balance = λ t f s x n w w' e t' a. ap (λ z. z.holds t' a) (sym (some-injective _ _ e));
  transfer_from_balance = λ t s f g x w w' e. moved-holds t f g x w w' e;
  transfer_from_nonneg = λ t s f g x w w' e. (send-checked t f g x w w' e).0;
}

pub transfers : TransferLaws host
transfers = record {
  transfer_succeeds = λ t f g x w n c. (moved t f g x w, rw (le→leb _ _ n, le→leb _ _ c) refl);
}

pub ledger : (a : Address) → 10 ≤ a → LedgerLaws host a
ledger a contract = record { clock = λ w. omega arith; silent = λ w. ground arith }

traded-Kept :
    (id self i o n : ℕ) (a : Address) (w : World)
    → self ≢ a
    → Kept host a w (traded id self i o n w)
traded-Kept id self i o n a w apart = record {
  in_token = λ t.
      rw (at_other i self t a (pos n) apart, at_other o self t a (pos n) apart)
        (omega (int_laws, at_nonneg i id t a (pos n) (omega arith)));
}

pub honest : (self a : Address) → self ≢ a → PoolLaws host pools self a
honest self a apart = record {
  aquarius_kept = λ id i o n m r w w' e.
      let same : traded id self i o n w ≡ w' = ap (λ z. z.1) (some-injective _ _ e) in
      subst (λ z. Kept host a w z) same (traded-Kept id self i o n a w apart);
  get_reserves_kept = λ id r w w' e. cc;
  pair_kept = λ id x y w w' e. cc;
  phoenix_kept = λ id t x w w' e. cc;
  hints_kept = λ id hints w w' e. cc;
  sushi_kept = λ id z x limit hints w w' e. cc;
  comet_kept = λ id t u x y z r w w' e. cc;
}
