-- ===== src/Router/Paths/Routes.antt =====
-- What a path through the graph is.
use stellar_dex_agg.Prelude.{ℕ, ◌≤◌, List, [], ◌∷◌, ◌++◌, map, ◌≡◌, Any, Text, Distinct, length}
use stellar_dex_agg.Router.Token.{TokenId, canonical}
use stellar_dex_agg.Router.Graph.{Edge, TokenGraph, edges_of}
use stellar_dex_agg.Router.Paths.{RoutePath}

-- The element is one of the list.
abbrev pub OneOf : {A : Type 0} → A → List A → Type 0
OneOf x = Any (λ y. x ≡ y)

-- A walk along edges of the graph from `start`: the token it leads to, by its canonical form, the
-- tokens that it passes, and the venues and pools of its edges.
pub data Walk (g : TokenGraph) (start : TokenId)
    : Text → List TokenId → List Text → List Text → Type 0 where
  here : Walk g start (canonical start) (start ∷ []) [] []
  along :
      {at : Text} {tokens : List TokenId} {sources pools : List Text}
      → Walk g start at tokens sources pools
      → (edge : Edge) → OneOf edge (edges_of at g.adjacency)
      → Walk g start
          (canonical edge.target)
          (tokens ++ edge.target ∷ [])
          (sources ++ edge.source ∷ [])
          (pools ++ edge.pool_address ∷ [])

-- Edges of the graph that follow one another, from the one token to the other.
abbrev pub Chain : TokenGraph → Text → List Edge → Text → Type 0
Chain g at [] to = at ≡ to
Chain g at (edge ∷ edges) to =
    OneOf edge (edges_of at g.adjacency) × Chain g (canonical edge.target) edges to

-- The tokens that the edges lead to, the venues and the pools.
abbrev pub targets : List Edge → List TokenId
targets = map (λ e. e.target)

abbrev pub venues : List Edge → List Text
venues = map (λ e. e.source)

abbrev pub pools : List Edge → List Text
pools = map (λ e. e.pool_address)

-- The path along edges.
abbrev pub path_along : TokenId → List Edge → RoutePath
path_along start edges = record {
  tokens = start ∷ targets edges;
  sources = venues edges;
  pool_addresses = pools edges;
  hops = length edges;
}

-- A path from `start` to `end_token`: a walk along edges of the graph that passes no token twice, in
-- the canonical form, and no pool twice, with one hop at least and at most so many.
pub record IsRoute (g : TokenGraph) (start end_token : TokenId) (most : ℕ) (p : RoutePath)
    : Type 0 where
  pub walk : Walk g start (canonical end_token) p.tokens p.sources p.pool_addresses
  pub tokens_once : Distinct (map canonical p.tokens)
  pub pools_once : Distinct p.pool_addresses
  pub counted : p.hops ≡ length p.pool_addresses
  pub moves : 1 ≤ p.hops
  pub bounded : p.hops ≤ most

-- What is asked of edges that the search is to find: they follow one another from the one token to
-- the other, pass no token and no pool twice, and are not too many.
pub record IsSimple (g : TokenGraph) (start end_token : TokenId) (max_hops : ℕ) (edges : List Edge)
    : Type 0 where
  pub chain : Chain g (canonical start) edges (canonical end_token)
  pub tokens_once : Distinct (map canonical (start ∷ targets edges))
  pub pools_once : Distinct (pools edges)
  pub short : length edges ≤ max_hops
