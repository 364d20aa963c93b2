-- ===== src/Router/Paths/Ahead.antt =====
-- The search can go along every path without a repetition.
use stellar_dex_agg.Prelude.{
  ℕ, ◌+◌, ◌≤◌, true, false, Bool-cases, List, [], ◌∷◌, ◌++◌, map, ◌≡◌, refl, sym, subst, ◌∙◌, inl,
  inr, arith, Text, text_eq, text_eq→eq, eq→text_eq, text_eq_comm, contains, contains-append,
  Distinct, length, length-append, append_one, map-snoc,
}
use stellar_dex_agg.Router.Token.{canonical}
use stellar_dex_agg.Router.Graph.{Edge, TokenGraph}
use stellar_dex_agg.Router.Paths.{Partial, extend}
use stellar_dex_agg.Router.Paths.Routes.{Chain, targets, venues, pools}
use stellar_dex_agg.Router.Paths.Held.{path_of, MayGo, Completes}

-- What comes later among texts without a repetition has not come before.
Distinct-middle :
    (xs : List Text) (y : Text) (ys : List Text) → Distinct (xs ++ y ∷ ys) → contains y xs ≡ false
unfolding contains
Distinct-middle [] y ys d = refl
Distinct-middle (x ∷ xs) y ys (first, rest) =
    ground (arith, Distinct-middle xs y ys rest, contains-append x xs (y ∷ ys), text_eq_comm x y)

Distinct-right : (xs ys : List Text) → Distinct (xs ++ ys) → Distinct ys
Distinct-right [] ys d = d
Distinct-right (x ∷ xs) ys d = Distinct-right xs ys d.1

other_than :
    (x y : Text) (xs : List Text)
    → contains x xs ≡ false
    → contains y xs ≡ true
    → text_eq x y ≡ false
other_than x y xs out within = elim (Bool-cases (text_eq x y)) [
  | inl same ↦
      let e : contains y xs ≡ false =
        subst (λ z. contains z xs ≡ false) (text_eq→eq x y same) out in
      absurd (ground arith)
  | inr other ↦ other
]

-- A chain of at least one edge ends at one of its targets.
Chain-ends :
    (g : TokenGraph) (at : Text) (edge : Edge) (edges : List Edge) (to : Text)
    → Chain g at (edge ∷ edges) to
    → contains to (map canonical (targets (edge ∷ edges))) ≡ true
unfolding contains
Chain-ends g at edge [] to (_, e) = ground (arith, eq→text_eq to (canonical edge.target) (sym e))
Chain-ends g at edge (next ∷ edges) to (_, c) =
    ground (arith, Chain-ends g (canonical edge.target) next edges to c)

-- Where the search can go along from a partial path.
pub record IsAhead (g : TokenGraph) (end_key : Text) (max_hops : ℕ) (at : Partial)
    (edges : List Edge) : Type 0 where
  pub chain : Chain g at.current_key edges end_key
  pub tokens : Distinct (map canonical at.token_path ++ map canonical (targets edges))
  pub addresses : Distinct (at.pool_path ++ pools edges)
  pub short : length at.pool_path + length edges ≤ max_hops
  pub visited : (x : Text) → contains x at.visited_pools ≡ contains x at.pool_path

module _ (g : TokenGraph) (end_key : Text) (max_hops : ℕ) where
  IsAhead-extend :
      (at : Partial) (edge : Edge) (edges : List Edge)
      → IsAhead g end_key max_hops at (edge ∷ edges)
      → IsAhead g end_key max_hops (extend at edge) edges
  unfolding contains
  IsAhead-extend at edge edges h = record {
    chain = h.chain.1;
    tokens = rw (map-snoc canonical at.token_path edge.target) (
        rw
          (append_one (map canonical at.token_path) (canonical edge.target)
            (map canonical (targets edges)))
          h.tokens);
    addresses = rw (append_one at.pool_path edge.pool_address (pools edges)) h.addresses;
    short = omega (arith, h.short, length-append at.pool_path (edge.pool_address ∷ []));
    visited =
        λ x. ground (arith, contains-append x at.pool_path (edge.pool_address ∷ []), h.visited x);
  }

  IsAhead-MayGo :
      (at : Partial) (edge : Edge) (edges : List Edge)
      → IsAhead g end_key max_hops at (edge ∷ edges)
      → MayGo g.adjacency end_key max_hops at edge
  IsAhead-MayGo at edge edges h = record {
    edge_of = h.chain.0;
    fresh =
        h.visited edge.pool_address
        ∙ Distinct-middle at.pool_path edge.pool_address (pools edges) h.addresses;
    room = omega (arith, h.short);
  }

  pub IsAhead-Completes :
      (at : Partial) (edge : Edge) (edges : List Edge)
      → 2 ≤ length at.pool_path + length (edge ∷ edges)
      → IsAhead g end_key max_hops at (edge ∷ edges)
      → Completes g.adjacency end_key max_hops at edge edges
  IsAhead-Completes at edge [] far h =
      (IsAhead-MayGo at edge [] h, eq→text_eq _ _ h.chain.1, omega arith)
  IsAhead-Completes at edge (next ∷ edges) far h = (
    IsAhead-MayGo at edge (next ∷ edges) h,
    other_than (canonical edge.target) end_key _
        (Distinct-right (map canonical at.token_path) _ h.tokens).0
        (Chain-ends g (canonical edge.target) next edges end_key h.chain.1),
    Distinct-middle (map canonical at.token_path) (canonical edge.target) _ h.tokens,
    IsAhead-Completes (extend at edge) next edges
        (omega (arith, length-append at.pool_path (edge.pool_address ∷ [])))
        (IsAhead-extend at edge (next ∷ edges) h),
  )

  pub path_of-along :
      (at : Partial) (edge : Edge) (edges : List Edge)
      → path_of at edge edges ≡ record {
        tokens = at.token_path ++ targets (edge ∷ edges);
        sources = at.source_path ++ venues (edge ∷ edges);
        pool_addresses = at.pool_path ++ pools (edge ∷ edges);
        hops = length at.source_path + length (edge ∷ edges);
      }
  path_of-along at edge [] = ground (arith, length-append at.source_path (edge.source ∷ []))
  path_of-along at edge (next ∷ edges) = ground (
    arith,
    path_of-along (extend at edge) next edges,
    append_one at.token_path edge.target (targets (next ∷ edges)),
    append_one at.source_path edge.source (venues (next ∷ edges)),
    append_one at.pool_path edge.pool_address (pools (next ∷ edges)),
    length-append at.source_path (edge.source ∷ []),
  )
