-- ===== src/Prelude/Maps.antt =====
-- Maps from numbers, as association lists.
use Prim.Native.Nat.{ℕ, ◌≤◌, ◌<◌}
use mathlib.Core.Path.{◌≡◌, refl, sym, subst₂}
use mathlib.Core.Logic.{inl, inr}
use mathlib.Core.List.{List, [], ◌∷◌}
use mathlib.Core.Option.{Option, none, some, some-injective}
use native.Mathlib.Omega.{arith}
use stellar_dex_agg.Prelude.Tests.{◌==◌, if◌then◌else◌, ==→eq, Bool-cases}
use stellar_dex_agg.Prelude.Lists.{All}
use stellar_dex_agg.Prelude.Int.{ℤ, pos, ◌+ℤ◌, ◌≤ℤ◌, int_laws}

abbrev pub Dict {ℓ} : Type ℓ → Type ℓ
Dict V = List (ℕ × V)

module _ {ℓ} {V : Type ℓ} where
  abbrev pub lookup : ℕ → Dict V → Option V
  lookup k [] = none
  lookup k ((j, v) ∷ d) = if k == j then some v else lookup k d

  abbrev pub insert : ℕ → V → Dict V → Dict V
  insert k v [] = (k, v) ∷ []
  insert k v (e ∷ d) = if k == e.0 then (k, v) ∷ d else e ∷ insert k v d

  pub lookup-insert :
      (j k : ℕ) (v : V) (d : Dict V)
      → lookup j (insert k v d) ≡ (if j == k then some v else lookup j d)
  lookup-insert j k v [] = refl
  lookup-insert j k v (e ∷ d) = ground (arith, lookup-insert j k v d)

module _ {ℓ κ} {V : Type ℓ} (P : ℕ × V → Type κ) where
  pub All-insert : (k : ℕ) (v : V) (d : Dict V) → All P d → P (k, v) → All P (insert k v d)
  All-insert k v [] h p = (p, tt)
  All-insert k v (e ∷ d) (h, hs) p = elim (Bool-cases (k == e.0)) [
    | inl same ↦ rw same (p, hs)
    | inr other ↦ rw other (h, All-insert k v d hs p)
  ]

  pub All-lookup : (k : ℕ) (v : V) (d : Dict V) → All P d → lookup k d ≡ some v → P (k, v)
  All-lookup k v [] h e = cc
  All-lookup k v ((j, u) ∷ d) (h, hs) e = elim (Bool-cases (k == j)) [
    | inl same ↦
        let e' : some u ≡ some v = rw same at e in
        subst₂ (λ x y. P (x, y)) (sym (==→eq k j same)) (some-injective _ _ e') h
    | inr other ↦ All-lookup k v d hs (rw other at e)
  ]

-- All keys are below the number.
abbrev pub Below {ℓ} : {V : Type ℓ} → ℕ → Dict V → Type 0
Below n d = All (λ e. e.0 < n) d

module _ {ℓ} {V : Type ℓ} where
  pub lookup-Below : (n k : ℕ) (d : Dict V) → Below n d → n ≤ k → lookup k d ≡ none
  lookup-Below n k [] h le = refl
  lookup-Below n k (e ∷ d) (h, hs) le = ground (arith, lookup-Below n k d hs)

  pub Below-mono : (n m : ℕ) (d : Dict V) → n ≤ m → Below n d → Below m d
  Below-mono n m [] le h = tt
  Below-mono n m (e ∷ d) le (h, hs) = (omega arith, Below-mono n m d le hs)

-- The sum of a quantity over the entries.
module _ {ℓ} {V : Type ℓ} (f : V → ℤ) where
  abbrev pub sum_by : Dict V → ℤ
  sum_by [] = pos 0
  sum_by ((_, v) ∷ d) = f v +ℤ sum_by d

  pub sum_by-insert :
      (k : ℕ) (v old : V) (d : Dict V)
      → lookup k d ≡ some old
      → sum_by (insert k v d) +ℤ f old ≡ sum_by d +ℤ f v
  sum_by-insert k v old [] e = cc
  sum_by-insert k v old (x ∷ d) e = grind (int_laws, sum_by-insert k v old d)

  pub sum_by-insert_new :
      (k : ℕ) (v : V) (d : Dict V) → lookup k d ≡ none → sum_by (insert k v d) ≡ sum_by d +ℤ f v
  sum_by-insert_new k v [] e = omega int_laws
  sum_by-insert_new k v (x ∷ d) e = grind (int_laws, sum_by-insert_new k v d)

  pub sum_by-nonneg : (d : Dict V) → All (λ (e : ℕ × V). pos 0 ≤ℤ f e.1) d → pos 0 ≤ℤ sum_by d
  sum_by-nonneg [] n = omega arith
  sum_by-nonneg ((_, v) ∷ d) (n, ns) = let rest = sum_by-nonneg d ns in omega (int_laws, rest)

  -- A stored entry counts at most as much as all of them, if none counts less than zero.
  pub lookup-sum_by :
      (k : ℕ) (v : V) (d : Dict V)
      → All (λ (e : ℕ × V). pos 0 ≤ℤ f e.1) d
      → lookup k d ≡ some v
      → f v ≤ℤ sum_by d
  lookup-sum_by k v [] n e = cc
  lookup-sum_by k v ((j, u) ∷ d) (n, ns) e = elim (Bool-cases (k == j)) [
    | inl same ↦
        let e' : u ≡ v = some-injective _ _ (rw same at e) in
        let rest = sum_by-nonneg d ns in rw (sym e') (omega int_laws)
    | inr other ↦ let least = lookup-sum_by k v d ns (rw other at e) in omega (int_laws, least)
  ]
