-- ===== src/Router/Graph.antt =====
-- crates/router-engine/src/graph.rs: the graph, without the search for paths (Paths).
use stellar_dex_agg.Prelude.{
  ℕ, ◌+◌, if◌then◌else◌, List, [], ◌∷◌, ◌++◌, Text, text_eq, contains, length,
}
use stellar_dex_agg.Router.Token.{TokenId, canonical}

pub record Edge : Type 0 where
  pub target : TokenId
  pub source : Text
  pub pool_address : Text
  pub fee_bps : ℕ
  pub last_updated_ms : ℕ

-- `HashMap<String, Vec<Edge>>`
abbrev pub Adjacency : Type 0
Adjacency = List (Text × List Edge)

pub record TokenGraph : Type 0 where
  pub adjacency : Adjacency
  -- a set
  pub tokens : List Text

abbrev pub empty : TokenGraph
empty = record { adjacency = []; tokens = [] }

-- `tokens.insert(key)`
unfoldable pub insert_token : Text → List Text → List Text
insert_token key tokens = if contains key tokens then tokens else key ∷ tokens

-- `adjacency.entry(key).or_default().push(edge)`
unfoldable pub push_edge : Text → Edge → Adjacency → Adjacency
push_edge key edge [] = (key, edge ∷ []) ∷ []
push_edge key edge ((k, edges) ∷ rest) =
    let others = push_edge key edge rest in
    if text_eq key k then (k, edges ++ edge ∷ []) ∷ rest else (k, edges) ∷ others

-- `adjacency.get(key)`, where a missing key has no edges
unfoldable pub edges_of : Text → Adjacency → List Edge
edges_of key [] = []
edges_of key ((k, edges) ∷ rest) =
    let others = edges_of key rest in if text_eq key k then edges else others

-- `now` is the clock's time.
abbrev pub pair_edge : ℕ → TokenId → Text → Text → ℕ → Edge
pair_edge now target source pool_address fee_bps = record {
  target = target;
  source = source;
  pool_address = pool_address;
  fee_bps = fee_bps;
  last_updated_ms = now;
}

unfoldable pub add_pair : ℕ → TokenId → TokenId → Text → Text → ℕ → TokenGraph → TokenGraph
unfolding insert_token
add_pair now token_a token_b source pool_address fee_bps g =
    let key_a = canonical token_a in
    let key_b = canonical token_b in
    let a_to_b = pair_edge now token_b source pool_address fee_bps in
    let b_to_a = pair_edge now token_a source pool_address fee_bps in
    record {
      adjacency = push_edge key_b b_to_a (push_edge key_a a_to_b g.adjacency);
      tokens = insert_token key_b (insert_token key_a g.tokens);
    }

-- `edges.retain(|e| e.source != source)`
unfoldable pub retain_others : Text → List Edge → List Edge
retain_others source [] = []
retain_others source (e ∷ es) =
    let rest = retain_others source es in if text_eq e.source source then rest else e ∷ rest

unfoldable pub retain_adjacency : Text → Adjacency → Adjacency
retain_adjacency source [] = []
retain_adjacency source ((k, edges) ∷ rest) =
    (k, retain_others source edges) ∷ retain_adjacency source rest

unfoldable pub remove_source : Text → TokenGraph → TokenGraph
unfolding retain_adjacency
remove_source source g = record g { adjacency = retain_adjacency source g.adjacency }

unfoldable pub neighbors : TokenGraph → TokenId → List Edge
neighbors g token = edges_of (canonical token) g.adjacency

unfoldable pub token_count : TokenGraph → ℕ
token_count g = length g.tokens

count_edges : Adjacency → ℕ
count_edges [] = 0
count_edges ((_, edges) ∷ rest) = length edges + count_edges rest

unfoldable pub edge_count : TokenGraph → ℕ
unfolding count_edges
edge_count g = count_edges g.adjacency
