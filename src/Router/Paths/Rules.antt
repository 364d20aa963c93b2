-- ===== src/Router/Paths/Rules.antt =====
-- The rules by which a property passes through the loops of the search.
use stellar_dex_agg.Prelude.{
  ℕ, zero, suc, ◌<◌, true, false, ltb, leb, ltb→lt, Bool-cases, some, List, [], ◌∷◌, ◌≡◌, refl,
  subst, ◌⊎◌, inl, inr, arith, Text, text_eq, Option-cases, length, List-cases,
}
use stellar_dex_agg.Router.Token.{TokenId, canonical}
use stellar_dex_agg.Router.Graph.{Edge, Adjacency, TokenGraph}
use stellar_dex_agg.Router.Paths.{
  Partial, Search, Flow, after, go, stop, offer, scan, expand, search_loop, RoutePath, sort_by_hops,
  run_search, find_paths,
}
use stellar_dex_agg.Router.Paths.Routes.{OneOf}

module _ (P : Search → Type 0) where
  pub flow_rule :
      (f : Flow) (rest : Search → Search)
      → ((s : Search) → f ≡ go s → P (rest s))
      → ((s : Search) → f ≡ stop s → P s)
      → P (elim f [ go next ↦ rest next | stop last ↦ last ])
  flow_rule (go s) rest goes stops = goes s refl
  flow_rule (stop s) rest goes stops = stops s refl

module _ (P : Search → Type 0) (end_key : Text) (most : ℕ) where
  pub scan_rule :
      (at : Partial) (edges : List Edge) (s : Search)
      → ((edge : Edge) (t : Search)
          → OneOf edge edges
          → P t
          → P (after (offer end_key most at edge t)))
      → P s
      → P (scan end_key most at edges s)
  unfolding scan
  scan_rule at [] s step p = p
  scan_rule at (edge ∷ edges) s step p =
      let here = step edge s (inl refl) p in
      flow_rule P (offer end_key most at edge s) (scan end_key most at edges)
        (λ t e. scan_rule at edges t (λ x u m. step x u (inr m)) (subst (λ f. P (after f)) e here))
        (λ t e. subst (λ f. P (after f)) e here)

-- `P` holds at the start of every round, and `Q` where the loop ends: by an empty queue, or by a break.
module _ (P Q : Search → Type 0) (end_key : Text) (most : ℕ) (adjacency : Adjacency)
    (max_hops : ℕ) where
  pub search_loop_rule :
      ((s : Search) → s.queue ≡ [] → P s → Q s)
      → ((s : Search) (at : Partial) (rest : List Partial)
          → s.queue ≡ at ∷ rest
          → (leb most s.multi_hop_count ≡ true) ⊎ (10_000 < length rest)
          → P s
          → Q (record s { queue = rest }))
      → ((s : Search) (at : Partial) (rest : List Partial)
          → s.queue ≡ at ∷ rest
          → P s
          → P (expand end_key most adjacency max_hops at (record s { queue = rest })))
      → (fuel : ℕ) (s t : Search) → P s
      → search_loop end_key most adjacency max_hops fuel s ≡ some t
      → Q t
  unfolding search_loop
  search_loop_rule done broken keep zero s t p e = elim (List-cases s.queue) [
    | inl empty ↦ let same : s ≡ t = ground arith in subst Q same (done s empty p)
    | inr (at, rest, q) ↦ absurd (ground arith)
  ]
  search_loop_rule done broken keep (suc fuel) s t p e = elim (List-cases s.queue) [
    | inl empty ↦ let same : s ≡ t = ground arith in subst Q same (done s empty p)
    | inr (at, rest, q) ↦
        let popped = record s { queue = rest } in
        let go_on =
          search_loop end_key most adjacency max_hops fuel
            (expand end_key most adjacency max_hops at popped) in
        elim (Bool-cases (leb most s.multi_hop_count)) [
          | inl enough ↦
              let same : popped ≡ t = ground arith in
              subst Q same (broken s at rest q (inl enough) p)
          | inr more ↦ elim (Bool-cases (ltb 10_000 (length rest))) [
            | inl crowded ↦
                let same : popped ≡ t = ground arith in
                subst Q same (broken s at rest q (inr (ltb→lt _ _ crowded)) p)
            | inr room ↦
                let on : go_on ≡ some t = ground arith in
                search_loop_rule done broken keep fuel
                  (expand end_key most adjacency max_hops at popped) t (keep s at rest q p) on
          ]
        ]
  ]

module _ (g : TokenGraph) (start end_token : TokenId)
    (max_hops max_multi_hop_paths max_direct_paths : ℕ) where
  -- Between two tokens the paths are the sorted results of the loop.
  pub find_paths_searched :
      (paths : List RoutePath)
      → text_eq (canonical start) (canonical end_token) ≡ false
      → find_paths g start end_token max_hops max_multi_hop_paths max_direct_paths ≡ some paths
      → (s : Search) × ((run_search g start end_token max_hops max_multi_hop_paths max_direct_paths
            ≡ some s)
          × (sort_by_hops s.results ≡ paths))
  unfolding find_paths
  find_paths_searched paths apart e =
      elim (Option-cases
        (run_search g start end_token max_hops max_multi_hop_paths max_direct_paths)) [
          | inl out ↦ absurd (ground arith)
          | inr (s, ran) ↦ (s, (ran, ground arith))
        ]
