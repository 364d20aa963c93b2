-- ===== src/Router/Paths/Sound.antt =====
-- Every path that is found is a path through the graph.
use stellar_dex_agg.Prelude.{
  ℕ, ◌+◌, ◌<◌, max, Bool, true, false, ltb, leb, Bool-cases, if◌then◌else◌, some, some-injective,
  List, [], ◌∷◌, map, ◌≡◌, refl, subst, inl, inr, arith, text_eq, text_eq→eq, contains, length, All,
  All-append,
}
use stellar_dex_agg.Router.Token.{TokenId, canonical}
use stellar_dex_agg.Router.Graph.{Edge, TokenGraph, edges_of}
use stellar_dex_agg.Router.Paths.{
  RoutePath, Partial, Search, direct_path, direct_paths, after, go, stop, offer, expand,
  search_loop, first_search, run_search, find_paths,
}
use stellar_dex_agg.Router.Paths.Rules.{scan_rule, search_loop_rule, find_paths_searched}
use stellar_dex_agg.Router.Paths.Routes.{OneOf, Walk, here, along, IsRoute}
use stellar_dex_agg.Router.Paths.Order.{IsSorted, cap_direct-All, sort-All, sort-IsSorted}
use stellar_dex_agg.Router.Paths.Partials.{
  IsSound, IsFound, Inv, origin-IsSound, extend-IsSound, arrive-IsFound,
}

module _ (g : TokenGraph) (start end_token : TokenId) (max_hops : ℕ) where
  module _ (max_multi_hop_paths : ℕ) where
    offer-Inv :
        (at : Partial) (edge : Edge) (s : Search)
        → (IsSound g start end_token max_hops) at
        → length at.pool_path < max_hops
        → OneOf edge (edges_of at.current_key g.adjacency)
        → (Inv g start end_token max_hops) s
        → (Inv g start end_token max_hops)
            (after (offer (canonical end_token) max_multi_hop_paths at edge s))
    unfolding offer
    offer-Inv at edge s sound room edge_of inv =
        elim (Bool-cases (contains edge.pool_address at.visited_pools)) [
          | inl again ↦ rw again inv
          | inr fresh ↦
              rw fresh (elim (Bool-cases (text_eq (canonical edge.target) (canonical end_token))) [
                | inl arrived ↦ rw arrived (elim (Bool-cases (ltb (length at.pool_path + 1) 2)) [
                  | inl direct ↦ rw direct inv
                  | inr far ↦ rw far (
                      stops_or_goes _ _ (record {
                        queued = inv.queued;
                        found =
                            All-append (IsFound g start end_token max_hops) s.results _ inv.found (
                              (arrive-IsFound g start end_token max_hops) at edge sound room edge_of
                                  fresh arrived,
                              tt,
                            );
                      }))
                ])
                | inr other ↦
                    rw other
                      (elim (Bool-cases
                        (contains (canonical edge.target) (map canonical at.token_path))) [
                          | inl back ↦ rw back inv
                          | inr off ↦ rw off (record {
                            queued =
                                All-append (IsSound g start end_token max_hops) s.queue _ inv.queued
                                  (
                                    (extend-IsSound g start end_token max_hops) at edge sound room
                                        edge_of fresh other off,
                                    tt,
                                  );
                            found = inv.found;
                          })
                        ])
              ])
        ]
      where
        stops_or_goes :
            (b : Bool) (t : Search)
            → (Inv g start end_token max_hops) t
            → (Inv g start end_token max_hops) (after (if b then stop t else go t))
        stops_or_goes true t i = i
        stops_or_goes false t i = i

    expand-Inv :
        (s : Search) (at : Partial) (rest : List Partial)
        → s.queue ≡ at ∷ rest
        → (Inv g start end_token max_hops) s
        → (Inv g start end_token max_hops) (
            expand
              (canonical end_token)
              max_multi_hop_paths
              g.adjacency
              max_hops
              at
              (record s { queue = rest }))
    unfolding expand
    expand-Inv s at rest e inv =
        let (sound, sounds) = subst (All (IsSound g start end_token max_hops)) e inv.queued in
        let popped : (Inv g start end_token max_hops) (record s { queue = rest }) = record {
          queued = sounds;
          found = inv.found;
        } in
        elim (Bool-cases (leb max_hops (length at.pool_path))) [
          | inl long ↦ rw long popped
          | inr short ↦ rw short (
              scan_rule (Inv g start end_token max_hops) (canonical end_token) max_multi_hop_paths
                at (edges_of at.current_key g.adjacency) _
                (λ edge t m i. offer-Inv at edge t sound (ground arith) m i) popped)
        ]

    pub search_loop-Inv :
        (fuel : ℕ) (s t : Search)
        → (Inv g start end_token max_hops) s
        → search_loop (canonical end_token) max_multi_hop_paths g.adjacency max_hops fuel s ≡ some t
        → (Inv g start end_token max_hops) t
    search_loop-Inv =
        search_loop_rule (Inv g start end_token max_hops) (Inv g start end_token max_hops)
          (canonical end_token) max_multi_hop_paths g.adjacency max_hops (λ s empty inv. inv)
          (λ s at rest e _ inv. record {
            queued = (subst (All (IsSound g start end_token max_hops)) e inv.queued).1;
            found = inv.found;
          })
          (λ s at rest e inv. expand-Inv s at rest e inv)

  module _ (apart : text_eq (canonical start) (canonical end_token) ≡ false) where
    direct_path-IsFound :
        (edge : Edge)
        → OneOf edge (edges_of (canonical start) g.adjacency)
        → text_eq (canonical edge.target) (canonical end_token) ≡ true
        → (IsFound g start end_token max_hops) (direct_path start edge)
    unfolding contains
    direct_path-IsFound edge edge_of arrived =
        let e = text_eq→eq (canonical edge.target) (canonical end_token) arrived in
        record {
          walk =
              subst
                (λ key.
                  Walk g start key (start ∷ edge.target ∷ []) (edge.source ∷ [])
                    (edge.pool_address ∷ []))
                e (along here edge edge_of);
          tokens_once = (rw e (rw apart refl), (refl, tt));
          pools_once = (refl, tt);
          counted = refl;
          moves = omega arith;
          bounded = omega arith;
        }

    direct_paths-IsFound :
        (edges : List Edge)
        → ((edge : Edge) → OneOf edge edges → OneOf edge (edges_of (canonical start) g.adjacency))
        → All (IsFound g start end_token max_hops) (direct_paths start (canonical end_token) edges)
    unfolding direct_paths
    direct_paths-IsFound [] within = tt
    direct_paths-IsFound (edge ∷ edges) within =
        let rest = direct_paths-IsFound edges (λ e m. within e (inr m)) in
        elim (Bool-cases (text_eq (canonical edge.target) (canonical end_token))) [
          | inl arrived ↦
              rw arrived (direct_path-IsFound edge (within edge (inl refl)) arrived, rest)
          | inr other ↦ rw other rest
        ]

    pub first_search-Inv :
        (max_direct_paths : ℕ)
        → (Inv g start end_token max_hops) (first_search g start end_token max_direct_paths)
    unfolding first_search
    first_search-Inv max_direct_paths = record {
      queued = ((origin-IsSound g start end_token max_hops) apart, tt);
      found =
          cap_direct-All (IsFound g start end_token max_hops) max_direct_paths _
            (direct_paths-IsFound (edges_of (canonical start) g.adjacency) (λ e m. m));
    }

module _ (g : TokenGraph) (start end_token : TokenId)
    (max_hops max_multi_hop_paths max_direct_paths : ℕ) where
  -- Every path that is found leads from the one token to the other along edges of the graph, passes no
  -- token and no pool twice, and has as many hops as pools, one at least and at most `max_hops`, or a single one. The
  -- paths are in the order of their hops.
  pub find_paths_sound :
      (paths : List RoutePath)
      → find_paths g start end_token max_hops max_multi_hop_paths max_direct_paths ≡ some paths
      → All (IsRoute g start end_token (max 1 max_hops)) paths × IsSorted paths
  unfolding find_paths run_search
  find_paths_sound paths e = elim (Bool-cases (text_eq (canonical start) (canonical end_token))) [
    | inl same ↦ rw (← some-injective _ _ (rw same at e)) (tt, tt)
    | inr apart ↦
        let (t, (ran, sorted)) =
          find_paths_searched g start end_token max_hops max_multi_hop_paths max_direct_paths paths
            apart e in
        let inv =
          search_loop-Inv g start end_token max_hops max_multi_hop_paths _ _ t
            (first_search-Inv g start end_token max_hops apart max_direct_paths) ran in
        rw (← sorted) (
          sort-All (IsRoute g start end_token (max 1 max_hops)) t.results inv.found,
          sort-IsSorted t.results,
        )
  ]
