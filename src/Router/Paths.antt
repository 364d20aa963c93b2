-- ===== src/Router/Paths.antt =====
-- crates/router-engine/src/graph.rs: `find_paths`.
pub mod Routes
pub mod Rules
pub mod Ends
pub mod Order
pub mod Partials
pub mod Sound
pub mod Held
pub mod Ahead
pub mod Complete
use stellar_dex_agg.Prelude.{
  ℕ, zero, suc, ◌+◌, ◌*◌, ◌-◌, Bool, true, false, not, ◌&&◌, ltb, leb, if◌then◌else◌, Option, none,
  some, List, [], ◌∷◌, ◌++◌, map, Text, text_eq, contains, length, max,
}
use stellar_dex_agg.Router.Token.{TokenId, canonical}
use stellar_dex_agg.Router.Graph.{Edge, Adjacency, TokenGraph, edges_of}

-- `Path` of types.rs
pub record RoutePath : Type 0 where
  pub tokens : List TokenId
  pub sources : List Text
  pub pool_addresses : List Text
  pub hops : ℕ

-- an element of the queue
pub record Partial : Type 0 where
  pub current_key : Text
  pub token_path : List TokenId
  pub source_path : List Text
  pub pool_path : List Text
  -- a set
  pub visited_pools : List Text

-- the variables of the search
pub record Search : Type 0 where
  pub queue : List Partial
  pub results : List RoutePath
  pub multi_hop_count : ℕ

abbrev pub direct_path : TokenId → Edge → RoutePath
direct_path start edge = record {
  tokens = start ∷ edge.target ∷ [];
  sources = edge.source ∷ [];
  pool_addresses = edge.pool_address ∷ [];
  hops = 1;
}

-- the first loop over the edges of `start`
unfoldable pub direct_paths : TokenId → Text → List Edge → List RoutePath
direct_paths start end_key [] = []
direct_paths start end_key (edge ∷ edges) =
    let rest = direct_paths start end_key edges in
    if text_eq (canonical edge.target) end_key then direct_path start edge ∷ rest else rest

unfoldable pub take {ℓ} : {A : Type ℓ} → ℕ → List A → List A
take zero xs = []
take (suc n) [] = []
take (suc n) (x ∷ xs) = x ∷ take n xs

-- `truncate`, unless the cap is zero
unfoldable pub cap_direct : ℕ → List RoutePath → List RoutePath
unfolding take
cap_direct max_direct_paths paths =
    if ltb 0 max_direct_paths && ltb max_direct_paths (length paths)
    then take max_direct_paths paths
    else paths

-- the partial path with one more edge, which the code builds for the queue
abbrev pub extend : Partial → Edge → Partial
extend at edge = record {
  current_key = canonical edge.target;
  token_path = at.token_path ++ edge.target ∷ [];
  source_path = at.source_path ++ edge.source ∷ [];
  pool_path = at.pool_path ++ edge.pool_address ∷ [];
  visited_pools = edge.pool_address ∷ at.visited_pools;
}

-- the same as a path that is found
abbrev pub arrive : Partial → Edge → RoutePath
arrive at edge = record {
  tokens = at.token_path ++ edge.target ∷ [];
  sources = at.source_path ++ edge.source ∷ [];
  pool_addresses = at.pool_path ++ edge.pool_address ∷ [];
  hops = length (at.source_path ++ edge.source ∷ []);
}

abbrev pub found : Partial → Edge → Search → Search
found at edge s = record s {
  results = s.results ++ arrive at edge ∷ [];
  multi_hop_count = s.multi_hop_count + 1;
}

abbrev pub enqueue : Partial → Edge → Search → Search
enqueue at edge s = record s { queue = s.queue ++ extend at edge ∷ [] }

-- whether the loop over the edges goes on
pub data Flow : Type 0 where
  go stop : Search → Flow

abbrev pub after : Flow → Search
after (go s) = s
after (stop s) = s

module _ (end_key : Text) (max_multi_hop_paths : ℕ) where
  -- the body of the loop over the edges of a partial path's last token
  unfoldable pub offer : Partial → Edge → Search → Flow
  offer at edge s =
      let target_key = canonical edge.target in
      let next_hops = length at.pool_path + 1 in
      if contains edge.pool_address at.visited_pools
      then go s
      else if text_eq target_key end_key
      then if ltb next_hops 2
        then go s
        else if leb max_multi_hop_paths (found at edge s).multi_hop_count
        then stop (found at edge s)
        else go (found at edge s)
      else if contains target_key (map canonical at.token_path)
      then go s
      else go (enqueue at edge s)

  unfoldable pub scan : Partial → List Edge → Search → Search
  scan at [] s = s
  scan at (edge ∷ edges) s = elim (offer at edge s) [
    | go next ↦ scan at edges next
    | stop last ↦ last
  ]

  module _ (adjacency : Adjacency) (max_hops : ℕ) where
    -- a round of the `while` loop, after its breaks, for the element that left the queue
    unfoldable pub expand : Partial → Search → Search
    expand at s =
        if leb max_hops (length at.pool_path)
        then s
        else scan at (edges_of at.current_key adjacency) s

    -- The `while` loop on fuel; `none` means that the fuel ran out.
    unfoldable pub search_loop : ℕ → Search → Option Search
    search_loop zero s = elim s.queue [ [] ↦ some s | _ ∷ _ ↦ none ]
    search_loop (suc fuel) s = elim s.queue [
      | [] ↦ some s
      | at ∷ rest ↦
          let popped = record s { queue = rest } in
          let go_on = search_loop fuel (expand at popped) in
          if leb max_multi_hop_paths s.multi_hop_count
          then some popped
          else if ltb 10_000 (length rest)
          then some popped
          else go_on
    ]

-- The longest list of edges of a token.
unfoldable pub degree : Adjacency → ℕ
degree [] = 0
degree ((_, edges) ∷ rest) = max (length edges) (degree rest)

-- The partial paths below one that may take `hops` more edges, with itself: a bound for the rounds.
unfoldable pub rounds : ℕ → ℕ → ℕ
rounds branches zero = 1
rounds branches (suc hops) = 1 + branches * rounds branches hops

abbrev pub origin : TokenId → Partial
origin start = record {
  current_key = canonical start;
  token_path = start ∷ [];
  source_path = [];
  pool_path = [];
  visited_pools = [];
}

-- `results.sort_by_key(|p| p.hops)`, which is stable
unfoldable pub insert_by_hops : RoutePath → List RoutePath → List RoutePath
insert_by_hops p [] = p ∷ []
insert_by_hops p (q ∷ qs) =
    let rest = insert_by_hops p qs in if leb p.hops q.hops then p ∷ q ∷ qs else q ∷ rest

unfoldable pub sort_by_hops : List RoutePath → List RoutePath
unfolding insert_by_hops
sort_by_hops [] = []
sort_by_hops (p ∷ ps) = insert_by_hops p (sort_by_hops ps)

-- what the search starts from
unfoldable pub first_search : TokenGraph → TokenId → TokenId → ℕ → Search
unfolding direct_paths cap_direct edges_of
first_search g start end_token max_direct_paths = record {
  queue = origin start ∷ [];
  results =
      cap_direct max_direct_paths
        (direct_paths start (canonical end_token) (edges_of (canonical start) g.adjacency));
  multi_hop_count = 0;
}

module _ (g : TokenGraph) (start end_token : TokenId)
    (max_hops max_multi_hop_paths max_direct_paths : ℕ) where
  -- the loop, from its start
  unfoldable pub run_search : Option Search
  run_search =
      search_loop (canonical end_token) max_multi_hop_paths g.adjacency max_hops
        (rounds (degree g.adjacency) max_hops) (first_search g start end_token max_direct_paths)

  unfoldable pub find_paths : Option (List RoutePath)
  find_paths =
      if text_eq (canonical start) (canonical end_token)
      then some []
      else elim run_search [ none ↦ none | some s ↦ some (sort_by_hops s.results) ]
