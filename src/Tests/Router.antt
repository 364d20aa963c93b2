-- ===== src/Tests/Router.antt =====
-- A small graph: native → USDC → ETH by two pools, and a pool from native to ETH that is direct.
use stellar_dex_agg.Prelude.{
  false, some, List, [], ◌∷◌, ◌≡◌, refl, inl, inr, Text, codes, text_eq, contains, All, arith, ◌↔◌,
}
use stellar_dex_agg.Router.Token.{
  TokenId, native, classic, contract, IsPlain, canonical, from_str_auto, split_once,
  token_round_trip,
}
use stellar_dex_agg.Router.Graph.{
  Edge, Adjacency, TokenGraph, pair_edge, push_edge, insert_token, edges_of, add_pair,
  retain_others, retain_adjacency, remove_source,
}
use stellar_dex_agg.Router.Graph
use stellar_dex_agg.Router.Paths.{
  RoutePath, Search, direct_paths, take, cap_direct, offer, scan, expand, search_loop, degree,
  rounds, insert_by_hops, sort_by_hops, first_search, run_search, find_paths,
}
use stellar_dex_agg.Router.Paths.Routes.{IsRoute, IsSimple, OneOf, path_along}
use stellar_dex_agg.Router.Paths.Order.{IsSorted}
use stellar_dex_agg.Router.Paths.Ends.{find_paths_ends}
use stellar_dex_agg.Router.Paths.Sound.{find_paths_sound}
use stellar_dex_agg.Router.Paths.Complete.{find_paths_complete}

abbrev pub usdc : TokenId
usdc = classic (codes "USDC") (codes "G")

abbrev pub eth : TokenId
eth = contract (codes "CETH")

abbrev pub soroswap : Text
soroswap = codes "s"

abbrev aquarius : Text
aquarius = codes "a"

abbrev sample : TokenGraph
sample = record {
  adjacency =
      (
        canonical native,
        pair_edge 0 usdc soroswap (codes "1") 30 ∷ pair_edge 0 eth soroswap (codes "3") 30 ∷ [],
      )
      ∷ (
        canonical usdc,
        pair_edge 0 native soroswap (codes "1") 30 ∷ pair_edge 0 eth aquarius (codes "2") 30 ∷ [],
      )
      ∷ (
        canonical eth,
        pair_edge 0 usdc aquarius (codes "2") 30 ∷ pair_edge 0 native soroswap (codes "3") 30 ∷ [],
      )
      ∷ [];
  tokens = canonical eth ∷ canonical usdc ∷ canonical native ∷ [];
}

-- What three pairs build.
sample_built :
    add_pair 0 native eth soroswap (codes "3") 30 (
      add_pair 0 usdc eth aquarius
        (codes "2")
        30
        (add_pair 0 native usdc soroswap (codes "1") 30 Graph.empty))
    ≡ sample
unfolding add_pair push_edge insert_token contains text_eq canonical
sample_built = refl

abbrev first_hop : Edge
first_hop = pair_edge 0 usdc soroswap (codes "1") 30

abbrev second_hop : Edge
second_hop = pair_edge 0 eth aquarius (codes "2") 30

abbrev direct : Edge
direct = pair_edge 0 eth soroswap (codes "3") 30

abbrev sample_paths : List RoutePath
sample_paths =
    path_along native (direct ∷ []) ∷ path_along native (first_hop ∷ second_hop ∷ []) ∷ []

abbrev sample_search : Search
sample_search = record { queue = []; results = sample_paths; multi_hop_count = 1 }

sample_ran : run_search sample native eth 4 100 0 ≡ some sample_search
unfolding run_search search_loop first_search direct_paths cap_direct take offer scan expand
    edges_of degree rounds contains text_eq canonical
sample_ran = refl

sample_found : find_paths sample native eth 4 100 0 ≡ some sample_paths
unfolding find_paths run_search search_loop first_search direct_paths cap_direct take offer scan
    expand edges_of degree rounds contains text_eq canonical sort_by_hops insert_by_hops
sample_found = refl

find_paths_sound_example : All (IsRoute sample native eth 4) sample_paths × IsSorted sample_paths
find_paths_sound_example = find_paths_sound sample native eth 4 100 0 sample_paths sample_found

find_paths_ends_example :
    (paths : List RoutePath) × (find_paths sample native eth 4 100 0 ≡ some paths)
find_paths_ends_example = find_paths_ends sample native eth 4 100 0

sample-IsSimple : IsSimple sample native eth 4 (first_hop ∷ second_hop ∷ [])
unfolding edges_of contains text_eq canonical
sample-IsSimple = record {
  chain = (inl refl, (inr (inl refl), refl));
  tokens_once = (refl, (refl, (refl, tt)));
  pools_once = (refl, (refl, tt));
  short = omega arith;
}

apart : text_eq (canonical native) (canonical eth) ≡ false
unfolding text_eq canonical
apart = refl

find_paths_complete_example : OneOf (path_along native (first_hop ∷ second_hop ∷ [])) sample_paths
find_paths_complete_example =
    find_paths_complete sample native eth 4 100 (first_hop ∷ second_hop ∷ []) sample_search
      sample_paths apart sample_ran refl (omega arith) sample-IsSimple sample_found

usdc-IsPlain : IsPlain usdc
unfolding split_once
usdc-IsPlain = refl

token_round_trip_example :
    (canonical (from_str_auto (codes "USDC:G")) ≡ codes "USDC:G")
    × ((from_str_auto (codes "USDC:G") ≡ usdc) ↔ (canonical usdc ≡ codes "USDC:G"))
token_round_trip_example = token_round_trip (codes "USDC:G") usdc usdc-IsPlain
