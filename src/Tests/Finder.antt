-- ===== src/Tests/Finder.antt =====
-- A finder that is updated, searched, and searched again within the life of its cache.
use stellar_dex_agg.Prelude.{true, some, List, [], ◌∷◌, ◌≡◌, refl, codes, text_eq, contains, All}
use stellar_dex_agg.Router.Token.{native, canonical}
use stellar_dex_agg.Router.Graph.{
  Edge, pair_edge, push_edge, insert_token, edges_of, add_pair, retain_adjacency, remove_source,
}
use stellar_dex_agg.Router.Paths.{
  RoutePath, direct_paths, take, cap_direct, offer, scan, expand, search_loop, degree, rounds,
  insert_by_hops, sort_by_hops, first_search, run_search,
}
use stellar_dex_agg.Router.Paths
use stellar_dex_agg.Router.Paths.Routes.{path_along}
use stellar_dex_agg.Router.Finder.{
  PathFinderConfig, TradingPair, PathFinder, new, add_pairs, token_allowed, is_empty,
  update_from_source, path_allowed, find_paths_with_limits, cached, cache_insert, look_up,
  answer_remembered,
}
use stellar_dex_agg.Router.Finder.Reached.{Reached, started, followed_by, updated, searched, Joins}
use stellar_dex_agg.Router.Finder.Current.{finder_answers_current}
use stellar_dex_agg.Tests.Router.{usdc, eth, soroswap}

abbrev config : PathFinderConfig
config = record {
  max_hops = 3;
  max_multi_hop_paths = 50;
  max_direct_paths = 0;
  bridge_tokens = [];
  excluded_tokens = eth ∷ [];
}

abbrev usdc_pair : TradingPair
usdc_pair = record {
  token_a = native;
  token_b = usdc;
  source = soroswap;
  pool_address = codes "1";
  fee_bps = 30;
}

abbrev eth_pair : TradingPair
eth_pair = record {
  token_a = usdc;
  token_b = eth;
  source = soroswap;
  pool_address = codes "2";
  fee_bps = 30;
}

abbrev direct_usdc : Edge
direct_usdc = pair_edge 5 usdc soroswap (codes "1") 30

abbrev finder : PathFinder
finder = record {
  graph = record {
    adjacency =
        (canonical native, direct_usdc ∷ [])
        ∷ (canonical usdc, pair_edge 5 native soroswap (codes "1") 30 ∷ [])
        ∷ [];
    tokens = canonical usdc ∷ canonical native ∷ [];
  };
  config = config;
  excluded_tokens = canonical eth ∷ [];
  cache = [];
}

-- The pair with an excluded token is left out.
finder_updated :
    finder ≡ update_from_source soroswap ((5, usdc_pair) ∷ (6, eth_pair) ∷ []) (new config)
unfolding update_from_source new add_pairs token_allowed is_empty remove_source retain_adjacency
    add_pair push_edge insert_token contains text_eq canonical
finder_updated = refl

abbrev found : List RoutePath
found = path_along native (direct_usdc ∷ []) ∷ []

abbrev remembering : PathFinder
remembering = record finder {
  cache = ((canonical native, canonical usdc), record { paths = found; cached_at_ms = 100 }) ∷ [];
}

first_answer : find_paths_with_limits 100 native usdc 3 50 0 finder ≡ some (remembering, found)
unfolding find_paths_with_limits cached cache_insert look_up answer_remembered Paths.find_paths
    run_search search_loop first_search direct_paths cap_direct take offer scan expand edges_of
    degree rounds contains text_eq canonical sort_by_hops insert_by_hops
first_answer = refl

second_answer :
    find_paths_with_limits 200 native usdc 3 50 0 remembering ≡ some (remembering, found)
unfolding find_paths_with_limits cached look_up text_eq canonical
second_answer = refl

Reached-remembering : Reached config remembering
Reached-remembering =
    followed_by
      (followed_by started (updated soroswap ((5, usdc_pair) ∷ (6, eth_pair) ∷ []) finder_updated))
      (searched 100 native usdc 3 50 0 found first_answer)

finder_answers_current_example :
    All
      (λ p.
        Joins remembering.graph (canonical native, canonical usdc) 3 p
        × (path_allowed remembering p ≡ true))
      found
finder_answers_current_example =
    finder_answers_current config remembering remembering 200 native usdc 3 50 0 found
      Reached-remembering second_answer
