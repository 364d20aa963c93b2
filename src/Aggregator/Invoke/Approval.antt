-- ===== src/Aggregator/Invoke/Approval.antt =====
-- contracts/aggregator/src/invoke.rs, `comet_approval_ledger`: the ledger at which an approval expires.
use stellar_dex_agg.Prelude.{ℕ, ◌+◌, ◌*◌, ◌/◌, ◌≤◌, ◌<◌, ◌≡◌, arith}
use stellar_dex_agg.Aggregator.Invoke.{comet_approval_ledger}

comet_approval_ledger-eq :
    (seq : ℕ) → seq < 4_294_900_000 → comet_approval_ledger seq ≡ (seq / 100_000 + 1) * 100_000
unfolding comet_approval_ledger
comet_approval_ledger-eq seq small = omega arith

-- Before the last window of the range of a u32: the approval expires behind the current ledger, at
-- most 100,000 ledgers behind it, and a transaction that is simulated at one ledger and included at a
-- later one, before the expiry that was simulated, asks for the same expiry.
comet_approval_ledger_stable :
    (seq later : ℕ)
    → seq < 4_294_900_000
    → seq ≤ later
    → later < comet_approval_ledger seq
    → (seq < comet_approval_ledger seq)
      × (comet_approval_ledger seq ≤ seq + 100_000)
      × (comet_approval_ledger later ≡ comet_approval_ledger seq)
comet_approval_ledger_stable seq later small le before =
    let at_first = comet_approval_ledger-eq seq small in
    let window : later / 100_000 ≡ seq / 100_000 = omega (arith, at_first) in
    let at_later = comet_approval_ledger-eq later (omega (arith, at_first)) in
    (omega (arith, at_first), omega (arith, at_first), omega (arith, at_first, at_later, window))
