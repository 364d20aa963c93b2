-- ===== src/Router/Paths/Partials.antt =====
-- What holds of a partial path, and of a path that is found.
use stellar_dex_agg.Prelude.{
  ℕ, ◌≤◌, ◌<◌, max, true, false, [], ◌∷◌, ◌++◌, map, ◌≡◌, refl, sym, subst, ◌∙◌, arith, Text,
  text_eq, text_eq→eq, text_eq_comm, contains, contains-append, Distinct, Distinct-snoc, length,
  length-append, All, map-snoc,
}
use stellar_dex_agg.Router.Token.{TokenId, canonical}
use stellar_dex_agg.Router.Graph.{Edge, TokenGraph, edges_of}
use stellar_dex_agg.Router.Paths.{RoutePath, Partial, Search, extend, arrive, origin}
use stellar_dex_agg.Router.Paths.Routes.{OneOf, Walk, here, along, IsRoute}

module _ (g : TokenGraph) (start end_token : TokenId) (max_hops : ℕ) where
  -- what holds of an element of the queue
  pub record IsSound (at : Partial) : Type 0 where
    pub walk : Walk g start at.current_key at.token_path at.source_path at.pool_path
    pub tokens_once : Distinct (map canonical at.token_path)
    pub pools_once : Distinct at.pool_path
    pub visited : (x : Text) → contains x at.visited_pools ≡ contains x at.pool_path
    pub away : contains (canonical end_token) (map canonical at.token_path) ≡ false
    pub short : length at.pool_path ≤ max_hops
    pub even : length at.source_path ≡ length at.pool_path

  abbrev pub IsFound : RoutePath → Type 0
  IsFound = IsRoute g start end_token (max 1 max_hops)

  pub record Inv (s : Search) : Type 0 where
    pub queued : All IsSound s.queue
    pub found : All IsFound s.results

  pub origin-IsSound :
      text_eq (canonical start) (canonical end_token) ≡ false → IsSound (origin start)
  unfolding contains
  origin-IsSound apart = record {
    walk = here;
    tokens_once = (refl, tt);
    pools_once = tt;
    visited = λ x. refl;
    away = ground (arith, text_eq_comm (canonical start) (canonical end_token));
    short = omega arith;
    even = refl;
  }

  module _ (at : Partial) (edge : Edge) (sound : IsSound at) (room : length at.pool_path < max_hops)
      (edge_of : OneOf edge (edges_of at.current_key g.adjacency))
      (fresh : contains edge.pool_address at.visited_pools ≡ false) where
    pub extend-IsSound :
        text_eq (canonical edge.target) (canonical end_token) ≡ false
        → contains (canonical edge.target) (map canonical at.token_path) ≡ false
        → IsSound (extend at edge)
    unfolding contains
    extend-IsSound other off = record {
      walk = along sound.walk edge edge_of;
      tokens_once =
          rw (map-snoc canonical at.token_path edge.target)
            (Distinct-snoc _ _ sound.tokens_once off);
      pools_once =
          Distinct-snoc _ _ sound.pools_once (sym (sound.visited edge.pool_address) ∙ fresh);
      visited = λ x.
          ground (arith, contains-append x at.pool_path (edge.pool_address ∷ []), sound.visited x);
      away = rw (map-snoc canonical at.token_path edge.target) (
          ground (
            arith,
            sound.away,
            contains-append (canonical end_token) (map canonical at.token_path)
                (canonical edge.target ∷ []),
            text_eq_comm (canonical edge.target) (canonical end_token),
          ));
      short = omega (arith, length-append at.pool_path (edge.pool_address ∷ []));
      even = omega (
        arith,
        sound.even,
        length-append at.pool_path (edge.pool_address ∷ []),
        length-append at.source_path (edge.source ∷ []),
      );
    }

    pub arrive-IsFound :
        text_eq (canonical edge.target) (canonical end_token) ≡ true → IsFound (arrive at edge)
    arrive-IsFound arrived = record {
      walk =
          subst
            (λ key.
              Walk g start key (at.token_path ++ edge.target ∷ [])
                (at.source_path ++ edge.source ∷ []) (at.pool_path ++ edge.pool_address ∷ []))
            (text_eq→eq _ _ arrived) (along sound.walk edge edge_of);
      tokens_once =
          rw (map-snoc canonical at.token_path edge.target)
            (Distinct-snoc _ _ sound.tokens_once (rw (text_eq→eq _ _ arrived) sound.away));
      pools_once =
          Distinct-snoc _ _ sound.pools_once (sym (sound.visited edge.pool_address) ∙ fresh);
      counted = omega (
        arith,
        sound.even,
        length-append at.pool_path (edge.pool_address ∷ []),
        length-append at.source_path (edge.source ∷ []),
      );
      moves = omega (arith, length-append at.source_path (edge.source ∷ []));
      bounded = omega (arith, sound.even, length-append at.source_path (edge.source ∷ []));
    }
