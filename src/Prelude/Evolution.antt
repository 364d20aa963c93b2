-- ===== src/Prelude/Evolution.antt =====
-- Maps whose entries change by a relation: none disappears.
use Prim.Native.Nat.{ℕ}
use mathlib.Core.Path.{◌≡◌, ◌∙◌}
use mathlib.Core.Logic.{inl, inr}
use mathlib.Core.Option.{some}
use stellar_dex_agg.Prelude.Tests.{◌==◌, ==→eq, Bool-cases}
use stellar_dex_agg.Prelude.Maps.{Dict, lookup, insert, lookup-insert}
use mathlib.Core.Path.{subst}

module _ {V : Type 0} (R : V → V → Type 0) where
  pub record Evolve (d d' : Dict V) : Type 0 where
    pub entry : (k : ℕ) (v : V) → lookup k d ≡ some v → (v' : V) × (lookup k d' ≡ some v') × R v v'

module _ {V : Type 0} {R : V → V → Type 0} (R-refl : (v : V) → R v v) where
  pub Evolve-refl : (d : Dict V) → Evolve R d d
  Evolve-refl d = record { entry = λ k v e. (v, e, R-refl v) }

  -- Every other entry stays as it is; the one that is written changes by the relation, if it was there.
  pub Evolve-insert :
      (k : ℕ) (new : V) (d : Dict V)
      → ((old : V) → lookup k d ≡ some old → R old new)
      → Evolve R d (insert k new d)
  Evolve-insert k new d step = record {
    entry = λ j v e. elim (Bool-cases (j == k)) [
      | inl same ↦ (
        new,
        lookup-insert j k new d ∙ rw same,
        step v (subst (λ i. lookup i d ≡ some v) (==→eq j k same) e),
      )
      | inr other ↦ (v, lookup-insert j k new d ∙ rw other e, R-refl v)
    ];
  }

module _ {V : Type 0} {R : V → V → Type 0} (R-trans : (u v w : V) → R u v → R v w → R u w) where
  pub Evolve-trans : {c d e : Dict V} → Evolve R c d → Evolve R d e → Evolve R c e
  Evolve-trans p q = record {
    entry = λ k v found.
        let (v', found', r) = p.entry k v found in
        let (v'', found'', r') = q.entry k v' found' in (v'', found'', R-trans v v' v'' r r');
  }
