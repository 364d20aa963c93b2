-- ===== src/Escrow/Lifecycle.antt =====
-- contracts/order-escrow/src/lib.rs: how an order may change. Its terms are fixed, what is left of it
-- never grows, its next fill never comes earlier, and a closed order is never touched again.
use stellar_dex_agg.Prelude.{
  ℕ, ◌≤◌, ◌≡◌, ◌∙◌, refl, sym, subst, false, arith, ℤ, ◌≤ℤ◌, Evolve, Evolve-refl, Evolve-trans,
}
use stellar_dex_agg.Escrow.Storage.{is_open, LimitOrder, DcaOrder, Storage}

-- The parts of an order that its owner has chosen.
abbrev limit_terms :
    LimitOrder → record { owner : ℕ; token_in : ℕ; token_out : ℕ; limit : ℤ; expires : ℕ }
limit_terms o = record {
  owner = o.owner;
  token_in = o.token_in;
  token_out = o.token_out;
  limit = o.limit_out_per_in_e7;
  expires = o.expires_ledger;
}

pub record LimitEvolves (o o' : LimitOrder) : Type 0 where
  pub same_terms : limit_terms o' ≡ limit_terms o
  pub shrinks : o'.amount_in_remaining ≤ℤ o.amount_in_remaining
  pub frozen : is_open o.status ≡ false → o' ≡ o

pub LimitEvolves-refl : (o : LimitOrder) → LimitEvolves o o
LimitEvolves-refl o = record { same_terms = refl; shrinks = omega arith; frozen = λ _. refl }

LimitEvolves-trans : (o p q : LimitOrder) → LimitEvolves o p → LimitEvolves p q → LimitEvolves o q
LimitEvolves-trans o p q a b = record {
  same_terms = b.same_terms ∙ a.same_terms;
  shrinks = omega (arith, a.shrinks, b.shrinks);
  frozen = λ closed.
      b.frozen (subst (λ x. is_open x.status ≡ false) (sym (a.frozen closed)) closed)
      ∙ a.frozen closed;
}

abbrev dca_terms : DcaOrder → record {
  owner : ℕ;
  token_in : ℕ;
  token_out : ℕ;
  chunk : ℤ;
  interval : ℕ;
  rate : ℤ;
  expires : ℕ;
}
dca_terms o = record {
  owner = o.owner;
  token_in = o.token_in;
  token_out = o.token_out;
  chunk = o.chunk_amount;
  interval = o.interval_ledgers;
  rate = o.min_out_per_in_e7;
  expires = o.expires_ledger;
}

pub record DcaEvolves (o o' : DcaOrder) : Type 0 where
  pub same_terms : dca_terms o' ≡ dca_terms o
  pub shrinks : o'.amount_in_remaining ≤ℤ o.amount_in_remaining
  pub later : o.next_executable_ledger ≤ o'.next_executable_ledger
  pub frozen : is_open o.status ≡ false → o' ≡ o

pub DcaEvolves-refl : (o : DcaOrder) → DcaEvolves o o
DcaEvolves-refl o = record {
  same_terms = refl;
  shrinks = omega arith;
  later = omega arith;
  frozen = λ _. refl;
}

DcaEvolves-trans : (o p q : DcaOrder) → DcaEvolves o p → DcaEvolves p q → DcaEvolves o q
DcaEvolves-trans o p q a b = record {
  same_terms = b.same_terms ∙ a.same_terms;
  shrinks = omega (arith, a.shrinks, b.shrinks);
  later = omega (arith, a.later, b.later);
  frozen = λ closed.
      b.frozen (subst (λ x. is_open x.status ≡ false) (sym (a.frozen closed)) closed)
      ∙ a.frozen closed;
}

-- No stored order disappears, and each changes only so.
pub record Evolves (st st' : Storage) : Type 0 where
  pub limits : Evolve LimitEvolves st.orders st'.orders
  pub dcas : Evolve DcaEvolves st.dca_orders st'.dca_orders

pub Evolves-refl : (st : Storage) → Evolves st st
Evolves-refl st = record {
  limits = Evolve-refl LimitEvolves-refl st.orders;
  dcas = Evolve-refl DcaEvolves-refl st.dca_orders;
}

pub Evolves-trans : {a b c : Storage} → Evolves a b → Evolves b c → Evolves a c
Evolves-trans p q = record {
  limits = Evolve-trans LimitEvolves-trans p.limits q.limits;
  dcas = Evolve-trans DcaEvolves-trans p.dcas q.dcas;
}
