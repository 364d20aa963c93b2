-- ===== src/Router/Split/Best.antt =====
-- The order of the quoted paths puts a best one first.
use stellar_dex_agg.Prelude.{
  ◌≤◌, leb, leb→le, Bool-cases, List, [], ◌∷◌, ◌≡◌, ◌≢◌, refl, ap, ◌∙◌, suc, length, subst, inl,
  inr, arith, All, All-map,
}
use native.Mathlib.Nat.{le_trans}
use stellar_dex_agg.Router.Split.{QuotedPath, insert_by_out, sort_by_out}

module _ (P : QuotedPath → Type 0) where
  insert-All : (p : QuotedPath) (ps : List QuotedPath) → P p → All P ps → All P (insert_by_out p ps)
  unfolding insert_by_out
  insert-All p [] h hs = (h, tt)
  insert-All p (q ∷ qs) h (k, ks) = elim (Bool-cases (leb q.quote.amount_out p.quote.amount_out)) [
    | inl first ↦ rw first (h, (k, ks))
    | inr later ↦ rw later (k, insert-All p qs h ks)
  ]

  pub sort-All : (ps : List QuotedPath) → All P ps → All P (sort_by_out ps)
  unfolding sort_by_out
  sort-All [] h = tt
  sort-All (p ∷ ps) (h, hs) = insert-All p (sort_by_out ps) h (sort-All ps hs)

  All-insert_back :
      (p : QuotedPath) (ps : List QuotedPath) → All P (insert_by_out p ps) → P p × All P ps
  unfolding insert_by_out
  All-insert_back p [] h = h
  All-insert_back p (q ∷ qs) h = elim (Bool-cases (leb q.quote.amount_out p.quote.amount_out)) [
    | inl first ↦ rw first at h
    | inr later ↦
        let (k, ks) : P q × All P (insert_by_out p qs) = rw later at h in
        let (hp, hqs) = All-insert_back p qs ks in (hp, (k, hqs))
  ]

  All-sort_back : (ps : List QuotedPath) → All P (sort_by_out ps) → All P ps
  unfolding sort_by_out
  All-sort_back [] h = tt
  All-sort_back (p ∷ ps) h =
      let (hp, hs) = All-insert_back p (sort_by_out ps) h in (hp, All-sort_back ps hs)

-- No path of the list puts out more than the first.
abbrev pub IsBestFirst : List QuotedPath → Type 0
IsBestFirst [] = Unit
IsBestFirst (best ∷ others) = All (λ q. q.quote.amount_out ≤ best.quote.amount_out) others

insert-IsBestFirst :
    (p : QuotedPath) (ps : List QuotedPath) → IsBestFirst ps → IsBestFirst (insert_by_out p ps)
unfolding insert_by_out
insert-IsBestFirst p [] h = tt
insert-IsBestFirst p (q ∷ qs) h = elim (Bool-cases (leb q.quote.amount_out p.quote.amount_out)) [
  | inl first ↦ let le = leb→le _ _ first in rw first (le, All-map (λ r k. le_trans k le) qs h)
  | inr later ↦
      rw later (insert-All (λ r. r.quote.amount_out ≤ q.quote.amount_out) p qs (ground arith) h)
]

sort-IsBestFirst : (ps : List QuotedPath) → IsBestFirst (sort_by_out ps)
unfolding sort_by_out
sort-IsBestFirst [] = tt
sort-IsBestFirst (p ∷ ps) = insert-IsBestFirst p (sort_by_out ps) (sort-IsBestFirst ps)

-- No quoted path puts out more than the first of the sorted ones.
pub sort-best :
    (ps : List QuotedPath) (best : QuotedPath) (others : List QuotedPath)
    → sort_by_out ps ≡ best ∷ others
    → All (λ q. q.quote.amount_out ≤ best.quote.amount_out) ps
sort-best ps best others e =
    let top : IsBestFirst (best ∷ others) = subst IsBestFirst e (sort-IsBestFirst ps) in
    All-sort_back (λ q. q.quote.amount_out ≤ best.quote.amount_out) ps (rw e (omega arith, top))

insert-nil : (p : QuotedPath) (ps : List QuotedPath) → insert_by_out p ps ≢ []
unfolding insert_by_out
insert-nil p [] e = absurd (ground arith)
insert-nil p (q ∷ qs) e = absurd (ground arith)

pub sort-nil : (p : QuotedPath) (ps : List QuotedPath) → sort_by_out (p ∷ ps) ≢ []
unfolding sort_by_out
sort-nil p ps e = insert-nil p (sort_by_out ps) e

insert-length :
    (p : QuotedPath) (ps : List QuotedPath) → length (insert_by_out p ps) ≡ suc (length ps)
unfolding insert_by_out
insert-length p [] = refl
insert-length p (q ∷ qs) = ground (arith, insert-length p qs)

pub sort-length : (ps : List QuotedPath) → length (sort_by_out ps) ≡ length ps
unfolding sort_by_out
sort-length [] = refl
sort-length (p ∷ ps) = insert-length p (sort_by_out ps) ∙ ap suc (sort-length ps)
