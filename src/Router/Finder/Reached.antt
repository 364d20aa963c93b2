-- ===== src/Router/Finder/Reached.antt =====
-- What a finder goes through, and what holds of it.
use stellar_dex_agg.Prelude.{ℕ, max, some, List, ◌≡◌, Text, All}
use stellar_dex_agg.Router.Token.{TokenId, canonical}
use stellar_dex_agg.Router.Graph.{TokenGraph}
use stellar_dex_agg.Router.Paths.{RoutePath}
use stellar_dex_agg.Router.Paths.Routes.{IsRoute}
use stellar_dex_agg.Router.Finder.{
  PathFinderConfig, TradingPair, CachedPaths, PathFinder, new, update_from_source,
  find_paths_with_limits, invalidate, clear_cache,
}
use stellar_dex_agg.Router.Finder.Clean.{IsClean}

-- The operations on a finder; those that only read it are left out.
pub data Step (f f' : PathFinder) : Type 0 where
  updated :
      (source : Text) (pairs : List (ℕ × TradingPair))
      → f' ≡ update_from_source source pairs f
      → Step f f'
  searched :
      (now : ℕ) (token_in token_out : TokenId) (max_hops max_multi_hop_paths max_direct_paths : ℕ)
      (paths : List RoutePath)
      → find_paths_with_limits now token_in token_out max_hops max_multi_hop_paths max_direct_paths
          f
        ≡ some (f', paths)
      → Step f f'
  invalidated : (token_a token_b : TokenId) → f' ≡ invalidate token_a token_b f → Step f f'
  cleared : f' ≡ clear_cache f → Step f f'

pub data Reached (config : PathFinderConfig) : PathFinder → Type 0 where
  started : Reached config (new config)
  followed_by : {f f' : PathFinder} → Reached config f → Step f f' → Reached config f'

-- A path of the graph between tokens of these canonical forms.
pub record Joins (g : TokenGraph) (key : Text × Text) (most : ℕ) (p : RoutePath) : Type 0 where
  pub token_in : TokenId
  pub token_out : TokenId
  pub from_key : canonical token_in ≡ key.0
  pub to_key : canonical token_out ≡ key.1
  pub route : IsRoute g token_in token_out most p

abbrev pub IsFresh : TokenGraph → ℕ → (Text × Text) × CachedPaths → Type 0
IsFresh g most entry = All (Joins g entry.0 most) entry.1.paths

pub record IsValid (f : PathFinder) : Type 0 where
  pub clean : IsClean f.excluded_tokens f.graph.adjacency
  pub fresh : All (IsFresh f.graph (max 1 f.config.max_hops)) f.cache
