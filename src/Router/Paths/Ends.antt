-- ===== src/Router/Paths/Ends.antt =====
-- The search for paths ends: a round takes one partial path from the queue, and the partial paths
-- that it adds are one edge longer.
use stellar_dex_agg.Prelude.{
  ℕ, zero, suc, false, ◌+◌, ◌*◌, ◌-◌, ◌≤◌, ◌<◌, ltb, leb, Bool-cases, some, List, [], ◌∷◌, ◌++◌,
  ◌≡◌, refl, ap, ◌⊎◌, inl, inr, arith, Text, text_eq, length, length-append, List-cases,
}
use stellar_dex_agg.Router.Token.{TokenId, canonical}
use stellar_dex_agg.Router.Graph.{Edge, Adjacency, TokenGraph, edges_of}
use stellar_dex_agg.Router.Paths.{
  after, Partial, RoutePath, sort_by_hops, Search, Flow, go, stop, extend, offer, scan, expand,
  search_loop, degree, rounds, origin, first_search, run_search, find_paths,
}

pub length-edges_of-le :
    (key : Text) (adjacency : Adjacency) → length (edges_of key adjacency) ≤ degree adjacency
unfolding edges_of degree
length-edges_of-le key [] = omega arith
length-edges_of-le key ((k, edges) ∷ rest) = ground (arith, length-edges_of-le key rest)

pub Flow-cases : (f : Flow) → ((s : Search) × (f ≡ go s)) ⊎ ((s : Search) × (f ≡ stop s))
Flow-cases (go s) = inl (s, refl)
Flow-cases (stop s) = inr (s, refl)

not_leb : (a b : ℕ) → leb a b ≡ false → b < a
not_leb a b h = ground arith

rounds_pos : (branches n : ℕ) → 0 < rounds branches n
unfolding rounds
rounds_pos branches zero = omega arith
rounds_pos branches (suc n) = omega arith

mul_mono_left : (a b c : ℕ) → a ≤ b → a * c ≤ b * c
mul_mono_left a b c h = grind arith

rounds-suc : (branches n : ℕ) → rounds branches (suc n) ≡ 1 + branches * rounds branches n
unfolding rounds
rounds-suc branches n = refl

-- The partial paths one edge further weigh less together, if there are no more than `branches`.
rounds_step :
    (branches max_hops depth edges : ℕ)
    → depth < max_hops
    → edges ≤ branches
    → edges * rounds branches (max_hops - (depth + 1)) < rounds branches (max_hops - depth)
rounds_step branches max_hops depth edges lt le =
    let e : max_hops - depth ≡ suc (max_hops - (depth + 1)) = omega arith in
    rw e (
      omega (
        arith,
        rounds-suc branches (max_hops - (depth + 1)),
        mul_mono_left edges branches (rounds branches (max_hops - (depth + 1))) le,
      ))

module _ (branches max_hops : ℕ) where
  -- the rounds that a partial path can still cause
  abbrev weight : Partial → ℕ
  weight at = rounds branches (max_hops - length at.pool_path)

  abbrev work : List Partial → ℕ
  work [] = 0
  work (at ∷ rest) = weight at + work rest

  work-append : (xs ys : List Partial) → work (xs ++ ys) ≡ work xs + work ys
  work-append [] ys = omega arith
  work-append (x ∷ xs) ys = omega (arith, work-append xs ys)

  weight-extend :
      (at : Partial) (edge : Edge)
      → weight (extend at edge) ≡ rounds branches (max_hops - (length at.pool_path + 1))
  weight-extend at edge = rw (length-append at.pool_path (edge.pool_address ∷ [])) refl

  weight-origin : (start : TokenId) → weight (origin start) ≡ rounds branches max_hops
  weight-origin start = ap (rounds branches) (omega arith)

  module _ (end_key : Text) (max_multi_hop_paths : ℕ) where
    offer-work :
        (at : Partial) (edge : Edge) (s : Search)
        → work (after (offer end_key max_multi_hop_paths at edge s)).queue
          ≤ work s.queue + rounds branches (max_hops - (length at.pool_path + 1))
    unfolding offer
    offer-work at edge s =
        ground (arith, work-append s.queue (extend at edge ∷ []), weight-extend at edge)

    scan-work :
        (at : Partial) (edges : List Edge) (s : Search)
        → work (scan end_key max_multi_hop_paths at edges s).queue
          ≤ work s.queue + length edges * rounds branches (max_hops - (length at.pool_path + 1))
    unfolding scan
    scan-work at [] s = omega arith
    scan-work at (edge ∷ edges) s =
        let each = rounds branches (max_hops - (length at.pool_path + 1)) in
        ground (
          arith,
          offer-work at edge s,
          scan-work at edges (after (offer end_key max_multi_hop_paths at edge s)),
        )

    expand-work :
        (adjacency : Adjacency) (at : Partial) (s : Search)
        → degree adjacency ≤ branches
        → work (expand end_key max_multi_hop_paths adjacency max_hops at s).queue + 1
          ≤ work s.queue + weight at
    unfolding expand
    expand-work adjacency at s h = elim (Bool-cases (leb max_hops (length at.pool_path))) [
      | inl long ↦ rw long (omega (arith, rounds_pos branches (max_hops - length at.pool_path)))
      | inr short ↦ rw short (
          omega (
            arith,
            scan-work at (edges_of at.current_key adjacency) s,
            rounds_step branches max_hops (length at.pool_path)
                (length (edges_of at.current_key adjacency)) (not_leb _ _ short)
                (omega (arith, length-edges_of-le at.current_key adjacency)),
          ))
    ]

    search_loop_ends :
        (adjacency : Adjacency) (fuel : ℕ) (s : Search)
        → degree adjacency ≤ branches
        → work s.queue ≤ fuel
        → (t : Search) × (search_loop end_key max_multi_hop_paths adjacency max_hops fuel s
            ≡ some t)
    unfolding search_loop
    search_loop_ends adjacency zero s d h = elim (List-cases s.queue) [
      | inl empty ↦ (s, ground arith)
      | inr (at, rest, e) ↦
          absurd (omega (arith, ap work e, rounds_pos branches (max_hops - length at.pool_path)))
    ]
    search_loop_ends adjacency (suc fuel) s d h = elim (List-cases s.queue) [
      | inl empty ↦ (s, ground arith)
      | inr (at, rest, e) ↦
          let popped = record s { queue = rest } in
          let next = expand end_key max_multi_hop_paths adjacency max_hops at popped in
          let (t, ends) =
            search_loop_ends adjacency fuel next d
              (omega (arith, ap work e, expand-work adjacency at popped d)) in
          elim (Bool-cases (leb max_multi_hop_paths s.multi_hop_count)) [
            | inl enough ↦ (popped, ground arith)
            | inr more ↦ elim (Bool-cases (ltb 10_000 (length rest))) [
              | inl crowded ↦ (popped, ground arith)
              | inr room ↦ (t, ground arith)
            ]
          ]
    ]

module _ (g : TokenGraph) (start end_token : TokenId)
    (max_hops max_multi_hop_paths max_direct_paths : ℕ) where
  pub run_search_ends :
      (t : Search) × (run_search g start end_token max_hops max_multi_hop_paths max_direct_paths
        ≡ some t)
  unfolding run_search first_search
  run_search_ends =
      search_loop_ends (degree g.adjacency) max_hops (canonical end_token) max_multi_hop_paths
        g.adjacency (rounds (degree g.adjacency) max_hops)
        (first_search g start end_token max_direct_paths) (omega arith)
        (omega (arith, weight-origin (degree g.adjacency) max_hops start))

  -- The search for paths ends and returns a list of paths, in any graph and under any limits.
  pub find_paths_ends :
      (paths : List RoutePath) × (find_paths g start end_token max_hops max_multi_hop_paths
          max_direct_paths
        ≡ some paths)
  unfolding find_paths
  find_paths_ends = elim (Bool-cases (text_eq (canonical start) (canonical end_token))) [
    | inl same ↦ ([], ground arith)
    | inr apart ↦ let (t, e) = run_search_ends in (sort_by_hops t.results, ground arith)
  ]
