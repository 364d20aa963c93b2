-- ===== src/Router/Finder.antt =====
-- crates/router-engine/src/path_finder.rs: the graph with the excluded tokens and the cached paths.
pub mod Clean
pub mod Reached
pub mod Answers
pub mod Current
use stellar_dex_agg.Prelude.{
  ℕ, ◌+◌, ◌-◌, Bool, true, false, not, ◌&&◌, ◌||◌, ltb, ◌==◌, if◌then◌else◌, Option, none, some,
  List, [], ◌∷◌, map, Text, text_eq, contains,
}
use stellar_dex_agg.Router.Token.{TokenId, canonical}
use stellar_dex_agg.Router.Graph
use stellar_dex_agg.Router.Graph.{TokenGraph, add_pair, remove_source, token_count, edge_count}
use stellar_dex_agg.Router.Paths
use stellar_dex_agg.Router.Paths.{RoutePath}

-- `bridge_tokens` is not read by the finder.
pub record PathFinderConfig : Type 0 where
  pub max_hops : ℕ
  pub max_multi_hop_paths : ℕ
  pub max_direct_paths : ℕ
  pub bridge_tokens : List TokenId
  pub excluded_tokens : List TokenId

-- `TradingPair` of types.rs, without the reserves, which the finder does not read
pub record TradingPair : Type 0 where
  pub token_a : TokenId
  pub token_b : TokenId
  pub source : Text
  pub pool_address : Text
  pub fee_bps : ℕ

pub record CachedPaths : Type 0 where
  pub paths : List RoutePath
  pub cached_at_ms : ℕ

-- `HashMap<(String, String), CachedPaths>`
abbrev pub Cache : Type 0
Cache = List ((Text × Text) × CachedPaths)

pub record PathFinder : Type 0 where
  pub graph : TokenGraph
  pub config : PathFinderConfig
  -- a set
  pub excluded_tokens : List Text
  pub cache : Cache

abbrev pub cache_ttl_ms : ℕ
cache_ttl_ms = 30_000

abbrev pub same_key : Text × Text → Text × Text → Bool
same_key (a, b) (c, d) = text_eq a c && text_eq b d

unfoldable pub cached : Text × Text → Cache → Option CachedPaths
cached key [] = none
cached key ((k, paths) ∷ rest) =
    let others = cached key rest in if same_key key k then some paths else others

unfoldable pub cache_insert : Text × Text → CachedPaths → Cache → Cache
cache_insert key paths [] = (key, paths) ∷ []
cache_insert key paths ((k, old) ∷ rest) =
    let others = cache_insert key paths rest in
    if same_key key k then (key, paths) ∷ rest else (k, old) ∷ others

unfoldable pub new : PathFinderConfig → PathFinder
new config = record {
  graph = Graph.empty;
  config = config;
  excluded_tokens = map canonical config.excluded_tokens;
  cache = [];
}

unfoldable pub is_empty : List Text → Bool
is_empty [] = true
is_empty (_ ∷ _) = false

unfoldable pub token_allowed : PathFinder → TokenId → Bool
unfolding is_empty
token_allowed f token =
    is_empty f.excluded_tokens || not (contains (canonical token) f.excluded_tokens)

unfoldable pub all_allowed : PathFinder → List TokenId → Bool
all_allowed f [] = true
all_allowed f (token ∷ tokens) = token_allowed f token && all_allowed f tokens

unfoldable pub path_allowed : PathFinder → RoutePath → Bool
unfolding all_allowed
path_allowed f path = all_allowed f path.tokens

-- the loop over the pairs, each with the clock's time when it is added
unfoldable pub add_pairs : PathFinder → Text → List (ℕ × TradingPair) → TokenGraph → TokenGraph
add_pairs f source [] g = g
add_pairs f source ((now, pair) ∷ pairs) g = add_pairs f source pairs (
    if not (token_allowed f pair.token_a) || not (token_allowed f pair.token_b)
    then g
    else add_pair now pair.token_a pair.token_b source pair.pool_address pair.fee_bps g)

unfoldable pub update_from_source : Text → List (ℕ × TradingPair) → PathFinder → PathFinder
update_from_source source pairs f = record f {
  graph = add_pairs f source pairs (remove_source source f.graph);
  cache = [];
}

abbrev pub use_cache : PathFinder → ℕ → ℕ → ℕ → Bool
use_cache f max_hops max_multi_hop_paths max_direct_paths =
    max_hops == f.config.max_hops
    && max_multi_hop_paths == f.config.max_multi_hop_paths
    && max_direct_paths == f.config.max_direct_paths

-- What the first half looks up: no answer, or the paths that are still valid, or `none` where the
-- subtraction of the times overflows, which panics.
pub data Hit : Type 0 where
  miss clock_went_back : Hit
  hit : List RoutePath → Hit

unfoldable pub look_up : ℕ → Option CachedPaths → Hit
look_up now none = miss
look_up now (some c) =
    if ltb now c.cached_at_ms
    then clock_went_back
    else if ltb (now - c.cached_at_ms) cache_ttl_ms
    then hit c.paths
    else miss

-- What the finder leaves and answers: `none` where the search does not return, or where it panics.
abbrev pub Answer : Type 0
Answer = Option (PathFinder × List RoutePath)

abbrev pub answer_searched : PathFinder → Option (List RoutePath) → Answer
answer_searched f none = none
answer_searched f (some paths) = some (f, paths)

-- The second half puts what was searched into the cache.
unfoldable pub answer_remembered : ℕ → Text × Text → PathFinder → Option (List RoutePath) → Answer
answer_remembered now key f none = none
answer_remembered now key f (some paths) = some (
  record f { cache = cache_insert key (record { paths = paths; cached_at_ms = now }) f.cache },
  paths,
)

abbrev pub answer_cached : Hit → PathFinder → Answer → Answer
answer_cached clock_went_back f otherwise = none
answer_cached (hit paths) f otherwise = some (f, paths)
answer_cached miss f otherwise = otherwise

unfoldable pub find_paths_with_limits : ℕ → TokenId → TokenId → ℕ → ℕ → ℕ → PathFinder → Answer
find_paths_with_limits now token_in token_out max_hops max_multi_hop_paths max_direct_paths f =
    let key : Text × Text = (canonical token_in, canonical token_out) in
    let search =
      Paths.find_paths f.graph token_in token_out max_hops max_multi_hop_paths max_direct_paths in
    if use_cache f max_hops max_multi_hop_paths max_direct_paths
    then answer_cached (look_up now (cached key f.cache)) f (answer_remembered now key f search)
    else answer_searched f search

unfoldable pub find_paths : ℕ → TokenId → TokenId → PathFinder → Answer
find_paths now token_in token_out f =
    find_paths_with_limits now token_in token_out f.config.max_hops f.config.max_multi_hop_paths
      f.config.max_direct_paths f

unfoldable pub retain_cache : Text → Text → Cache → Cache
retain_cache key_a key_b [] = []
retain_cache key_a key_b ((k, paths) ∷ rest) =
    let others = retain_cache key_a key_b rest in
    if not (text_eq k.0 key_a)
      && not (text_eq k.0 key_b)
      && not (text_eq k.1 key_a)
      && not (text_eq k.1 key_b)
    then (k, paths) ∷ others
    else others

unfoldable pub invalidate : TokenId → TokenId → PathFinder → PathFinder
invalidate token_a token_b f = record f {
  cache = retain_cache (canonical token_a) (canonical token_b) f.cache;
}

unfoldable pub clear_cache : PathFinder → PathFinder
clear_cache f = record f { cache = [] }

unfoldable pub stats : PathFinder → ℕ × ℕ
stats f = (token_count f.graph, edge_count f.graph)
