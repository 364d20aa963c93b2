-- ===== src/Router/Paths/Complete.antt =====
-- A search that is not cut finds every path.
use stellar_dex_agg.Prelude.{
  ℕ, ◌<◌, true, false, leb, Bool-cases, some, some-injective, List, [], ◌∷◌, ◌≡◌, refl, sym, ap,
  ◌∙◌, ◌⊎◌, inl, inr, arith, Text, text_eq, eq→text_eq, contains, Any,
}
use stellar_dex_agg.Router.Token.{TokenId, canonical}
use stellar_dex_agg.Router.Graph.{Edge, TokenGraph}
use stellar_dex_agg.Router.Paths.{
  RoutePath, Search, origin, first_search, direct_paths, direct_path, cap_direct, insert_by_hops,
  sort_by_hops, run_search, find_paths,
}
use stellar_dex_agg.Router.Paths.Rules.{find_paths_searched}
use stellar_dex_agg.Router.Paths.Routes.{OneOf, path_along, IsSimple}
use stellar_dex_agg.Router.Paths.Held.{Held, search_loop-finds}
use stellar_dex_agg.Router.Paths.Ahead.{IsAhead-Completes, path_of-along}

module _ (P : RoutePath → Type 0) where
  Any-insert : (p : RoutePath) (ps : List RoutePath) → P p ⊎ Any P ps → Any P (insert_by_hops p ps)
  unfolding insert_by_hops
  Any-insert p [] h = h
  Any-insert p (q ∷ qs) h = elim (Bool-cases (leb p.hops q.hops)) [
    | inl first ↦ rw first h
    | inr later ↦ rw later (elim h [
      | inl new ↦ inr (Any-insert p qs (inl new))
      | inr (inl head) ↦ inl head
      | inr (inr tail) ↦ inr (Any-insert p qs (inr tail))
    ])
  ]

  Any-sort : (ps : List RoutePath) → Any P ps → Any P (sort_by_hops ps)
  unfolding sort_by_hops
  Any-sort [] h = h
  Any-sort (p ∷ ps) (inl h) = Any-insert p (sort_by_hops ps) (inl h)
  Any-sort (p ∷ ps) (inr h) = Any-insert p (sort_by_hops ps) (inr (Any-sort ps h))

direct_paths-finds :
    (start : TokenId) (end_key : Text) (edge : Edge) (edges : List Edge)
    → OneOf edge edges
    → text_eq (canonical edge.target) end_key ≡ true
    → OneOf (direct_path start edge) (direct_paths start end_key edges)
unfolding direct_paths
direct_paths-finds start end_key edge [] m arrived = m
direct_paths-finds start end_key edge (x ∷ xs) m arrived =
    let rest = direct_paths-finds start end_key edge xs in
    elim (Bool-cases (text_eq (canonical x.target) end_key)) [
      | inl here ↦ rw here (elim m [
        | inl same ↦ inl (ap (direct_path start) same)
        | inr later ↦ inr (rest later arrived)
      ])
      | inr other ↦
          rw other (elim m [ inl same ↦ absurd (ground arith) | inr later ↦ rest later arrived ])
    ]

module _ (g : TokenGraph) (start end_token : TokenId) (max_hops max_multi_hop_paths : ℕ) where
  first_search-Held :
      (edge : Edge) (edges : List Edge)
      → IsSimple g start end_token max_hops (edge ∷ edges)
      → Held g.adjacency
          (canonical end_token)
          max_hops
          max_multi_hop_paths
          (path_along start (edge ∷ edges))
          (first_search g start end_token 0)
  unfolding first_search Held cap_direct contains
  first_search-Held edge [] simple = inl (
      direct_paths-finds start (canonical end_token) edge _ simple.chain.0
        (eq→text_eq _ _ simple.chain.1))
  first_search-Held edge (next ∷ edges) simple = inr (
      inl (
        inl (record {
          first = edge;
          others = next ∷ edges;
          completes =
              IsAhead-Completes g (canonical end_token) max_hops (origin start) edge (next ∷ edges)
                (omega arith)
                (record {
                  chain = simple.chain;
                  tokens = simple.tokens_once;
                  addresses = simple.pools_once;
                  short = omega (arith, simple.short);
                  visited = λ x. refl;
                });
          makes = ground (
            arith,
            path_of-along g (canonical end_token) max_hops (origin start) edge (next ∷ edges),
          );
        })))

  -- If no cap cuts the search, so that the direct paths are not capped, the queue is empty at the end and
  -- the cap on indirect paths is not reached, then between two different tokens the path along any edges
  -- that follow one another from the one to the other, pass no token and no pool twice and are at most
  -- `max_hops`, is found.
  pub find_paths_complete :
      (edges : List Edge) (s : Search) (paths : List RoutePath)
      → text_eq (canonical start) (canonical end_token) ≡ false
      → run_search g start end_token max_hops max_multi_hop_paths 0 ≡ some s
      → s.queue ≡ []
      → s.multi_hop_count < max_multi_hop_paths
      → IsSimple g start end_token max_hops edges
      → find_paths g start end_token max_hops max_multi_hop_paths 0 ≡ some paths
      → OneOf (path_along start edges) paths
  unfolding run_search
  find_paths_complete [] s paths apart ran empty uncut simple e =
      absurd (ground (arith, eq→text_eq _ _ simple.chain))
  find_paths_complete (edge ∷ edges) s paths apart ran empty uncut simple e =
      let p = path_along start (edge ∷ edges) in
      let found =
        search_loop-finds g.adjacency (canonical end_token) max_hops max_multi_hop_paths p _ _ s
          (first_search-Held edge edges simple) ran empty uncut in
      let (t, (ran', sorted)) =
        find_paths_searched g start end_token max_hops max_multi_hop_paths 0 paths apart e in
      let same : t ≡ s = some-injective _ _ (sym ran' ∙ ran) in
      rw (← sorted) (rw same (Any-sort (λ q. p ≡ q) s.results found))
