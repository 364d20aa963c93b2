-- ===== src/Vault/Trips.antt =====
-- contracts/vault/src/execute.rs: what a round trip does to the vault, whatever contract it goes through.
use stellar_dex_agg.Prelude.{
  ℕ, ◌≡◌, ◌≢◌, ◌∙◌, refl, subst, some, true, arith, int_laws, List, ℤ, pos, ◌+ℤ◌, ◌≤ℤ◌, ◌<ℤ◌,
  ltb→lt, leb→le, parts_of_eq, i128_max,
}
use stellar_dex_agg.Soroban.Action.{Env}
use stellar_dex_agg.Soroban.Ensures.{
  Ensures, Ensures-pure, Ensures-bind_reads, Ensures-required, Ensures-require,
  Ensures-require_auth, Ensures-load, Ensures-observe, Ensures-call, Ensures-call_unit,
}
use stellar_dex_agg.Soroban.Host.{Address, Host}
use stellar_dex_agg.Soroban.Laws.{
  LedgerLaws, TokenLaws, AllowanceLaws, Kept, transfer-from, Traded, on, at_other, at_same,
}
use stellar_dex_agg.SharedTypes.{SubRoute}
use stellar_dex_agg.Vault.Storage
use stellar_dex_agg.Vault.Storage.{VaultError, is_caller, get_admin}
use stellar_dex_agg.Vault.Admin.{require_caller}
use stellar_dex_agg.Vault.Execute.{AggregatorClient, CallLaws, HonoursMinimum, execute_round_trip}

module _ {W : Type 0} (h : Host W) (vault : Address) where
  require_caller-allowed :
      (caller : Address) (s : Env Storage.Storage W)
      → Ensures
          (λ _ s'.
            ((h.has_auth caller s.world ≡ true) × (is_caller caller s.storage ≡ true)) × (s' ≡ s))
          (require_caller h caller)
          s
  unfolding require_caller
  require_caller-allowed caller s =
      Ensures-require_auth _ _ _
        λ auth. Ensures-load _ _ (Ensures-required _ _ λ allowed. ((auth, allowed), refl))

pub on_nonneg : (t t' : Address) (x : ℤ) → pos 0 ≤ℤ x → pos 0 ≤ℤ on t t' x
on_nonneg t t' x n = ground arith

pub on_mono : (t t' : Address) (x y : ℤ) → x ≤ℤ y → on t t' x ≤ℤ on t t' y
on_mono t t' x y le = ground arith

module _ {W : Type 0} (h : Host W) (client : AggregatorClient W) (vault : Address)
    (tokens : TokenLaws h) (allowances : AllowanceLaws h) (ledger : LedgerLaws h vault)
    (laws : CallLaws h client vault) where
  round_trip-Traded :
      (caller base : Address) (x total : ℤ) (n : ℕ) {w₀ w₁ w₂ w₃ w₄ : W}
      → caller ≢ vault
      → h.approve base caller vault i128_max n w₀ ≡ some w₁
      → h.transfer base vault caller x w₁ ≡ some w₂
      → Kept h vault w₂ w₃
      → h.transfer_from base vault caller vault total w₃ ≡ some w₄
      → Traded h vault base base x total w₀ w₄
  round_trip-Traded caller base x total n {w₀} {w₁} {w₂} {w₃} {w₄} apart a p k q = record {
    in_token = λ t.
        let approved =
          parts_of_eq _ _
            (allowances.approve_balance base caller vault i128_max n w₀ w₁ a t vault) in
        let lent = transfer-from h tokens base vault caller x p apart t in
        let held = k.in_token t in
        let back : h.balance t vault w₄ ≡ h.balance t vault w₃ +ℤ on base t total =
          allowances.transfer_from_balance base vault caller vault total w₃ w₄ q t vault
          ∙ rw (at_other base caller t vault total apart, at_same base vault t total)
              (omega int_laws) in
        omega (int_laws, approved, parts_of_eq _ _ lent, parts_of_eq _ _ back, held);
  }

  pub apart_from : (caller : Address) (w : W) → h.has_auth caller w ≡ true → caller ≢ vault
  apart_from caller w auth same = cc (subst (λ a. h.has_auth a w ≡ true) same auth, ledger.silent w)

  pub execute_round_trip-Traded :
      (caller aggregator base bridge : Address) (x : ℤ) (leg_out leg_back : List SubRoute)
      (min_out : ℤ) (expiry : ℕ) (s : Env Storage.Storage W)
      → Ensures
          (λ total s'.
            (is_caller caller s.storage ≡ true)
            × (h.has_auth caller s.world ≡ true)
            × (pos 0 <ℤ x)
            × (x ≤ℤ min_out)
            × (pos 0 ≤ℤ total)
            × Traded h vault base base x total s.world s'.world
            × (s'.storage ≡ s.storage)
            × (HonoursMinimum client aggregator → min_out ≤ℤ total))
          (execute_round_trip h client vault caller aggregator base bridge x leg_out leg_back
            min_out expiry)
          s
  unfolding execute_round_trip
  execute_round_trip-Traded caller aggregator base bridge x leg_out leg_back min_out expiry s =
      Ensures-bind_reads _ _ (require_caller-allowed h vault caller s) λ _ c.
        Ensures-require _ _ _ λ positive. Ensures-require _ _ _ λ floor. Ensures-observe _ _ (
          Ensures-require _ _ _ λ _. Ensures-call_unit _ _ λ w₁ a. Ensures-call_unit _ _ λ w₂ p.
            Ensures-call _ _ λ total w₃ c'. Ensures-call_unit _ _ λ w₄ q.
              let apart = apart_from caller s.world c.0 in
              let kept =
                laws.call_kept aggregator caller base bridge x leg_out leg_back min_out total w₂ w₃
                  apart c' in
              Ensures-pure _ (
                c.1,
                c.0,
                ltb→lt _ _ positive,
                leb→le _ _ floor,
                allowances.transfer_from_nonneg base vault caller vault total w₃ _ q,
                round_trip-Traded caller base x total expiry apart a p kept q,
                refl,
                λ honours.
                    honours.at_least caller base bridge x leg_out leg_back min_out total w₂ w₃ c',
              ))

  pub Traded-Kept :
      (t : Address) (x y : ℤ) {w w' : W} → x ≤ℤ y → Traded h vault t t x y w w' → Kept h vault w w'
  Traded-Kept t x y le traded = record {
    in_token = λ t'. let more = on_mono t t' x y le in omega (int_laws, traded.in_token t', more);
  }
