-- ===== src/Router/Paths/Order.antt =====
-- The caps and the order of the results.
use stellar_dex_agg.Prelude.{
  ℕ, zero, suc, ◌≤◌, ltb, leb, leb→le, Bool-cases, List, [], ◌∷◌, inl, inr, arith, length, All,
  All-map, ◌&&◌,
}
use stellar_dex_agg.Router.Paths.{RoutePath, take, cap_direct, insert_by_hops, sort_by_hops}
use native.Mathlib.Nat.{le_trans}

module _ (P : RoutePath → Type 0) where
  pub take-All : (n : ℕ) (ps : List RoutePath) → All P ps → All P (take n ps)
  unfolding take
  take-All zero ps h = tt
  take-All (suc n) [] h = tt
  take-All (suc n) (p ∷ ps) (h, hs) = (h, take-All n ps hs)

  pub cap_direct-All : (most : ℕ) (ps : List RoutePath) → All P ps → All P (cap_direct most ps)
  unfolding cap_direct
  cap_direct-All most ps h = elim (Bool-cases (ltb 0 most && ltb most (length ps))) [
    | inl long ↦ rw long (take-All most ps h)
    | inr short ↦ rw short h
  ]

-- The paths come in the order of their hops.
abbrev pub IsSorted : List RoutePath → Type 0
IsSorted [] = Unit
IsSorted (p ∷ ps) = All (λ q. p.hops ≤ q.hops) ps × IsSorted ps

module _ (P : RoutePath → Type 0) where
  insert-All : (p : RoutePath) (ps : List RoutePath) → P p → All P ps → All P (insert_by_hops p ps)
  unfolding insert_by_hops
  insert-All p [] h hs = (h, tt)
  insert-All p (q ∷ qs) h (k, ks) = elim (Bool-cases (leb p.hops q.hops)) [
    | inl first ↦ rw first (h, (k, ks))
    | inr later ↦ rw later (k, insert-All p qs h ks)
  ]

  pub sort-All : (ps : List RoutePath) → All P ps → All P (sort_by_hops ps)
  unfolding sort_by_hops
  sort-All [] h = tt
  sort-All (p ∷ ps) (h, hs) = insert-All p (sort_by_hops ps) h (sort-All ps hs)

insert-IsSorted :
    (p : RoutePath) (ps : List RoutePath) → IsSorted ps → IsSorted (insert_by_hops p ps)
unfolding insert_by_hops
insert-IsSorted p [] h = (tt, tt)
insert-IsSorted p (q ∷ qs) (h, hs) = elim (Bool-cases (leb p.hops q.hops)) [
  | inl first ↦
      let le = leb→le _ _ first in rw first ((le, All-map (λ r k. le_trans le k) qs h), (h, hs))
  | inr later ↦
      rw later (insert-All (λ r. q.hops ≤ r.hops) p qs (ground arith) h, insert-IsSorted p qs hs)
]

pub sort-IsSorted : (ps : List RoutePath) → IsSorted (sort_by_hops ps)
unfolding sort_by_hops
sort-IsSorted [] = tt
sort-IsSorted (p ∷ ps) = insert-IsSorted p (sort_by_hops ps) (sort-IsSorted ps)
