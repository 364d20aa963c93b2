-- ===== src/Router/Finder/Clean.antt =====
-- No excluded token is in the graph, so none is on a path.
use stellar_dex_agg.Prelude.{
  ℕ, true, false, not, ◌||◌, Bool-cases, List, [], ◌∷◌, ◌≡◌, refl, ap, subst, ◌⊎◌, inl, inr, arith,
  Text, text_eq, text_eq→eq, contains, All, All-append, length,
}
use stellar_dex_agg.Router.Token.{TokenId, canonical}
use stellar_dex_agg.Router.Graph.{
  Edge, Adjacency, TokenGraph, push_edge, edges_of, add_pair, retain_others, remove_source,
  retain_adjacency,
}
use stellar_dex_agg.Router.Paths.{RoutePath}
use stellar_dex_agg.Router.Paths.Routes.{OneOf, Walk, here, along, IsRoute}
use stellar_dex_agg.Router.Finder.{
  TradingPair, PathFinder, is_empty, token_allowed, all_allowed, path_allowed, add_pairs,
}

module _ (excluded : List Text) where
  abbrev pub IsAllowed : Text → Type 0
  IsAllowed key = contains key excluded ≡ false

  -- No token of the graph is excluded.
  abbrev pub IsClean : Adjacency → Type 0
  IsClean = All (λ entry. IsAllowed entry.0 × All (λ e. IsAllowed (canonical e.target)) entry.1)

  push_edge-IsClean :
      (key : Text) (edge : Edge) (adjacency : Adjacency)
      → IsAllowed key
      → IsAllowed (canonical edge.target)
      → IsClean adjacency
      → IsClean (push_edge key edge adjacency)
  unfolding push_edge
  push_edge-IsClean key edge [] k t clean = ((k, (t, tt)), tt)
  push_edge-IsClean key edge ((other, edges) ∷ rest) k t ((o, es), clean) =
      elim (Bool-cases (text_eq key other)) [
        | inl same ↦ rw same (
          (o, All-append (λ (e : Edge). IsAllowed (canonical e.target)) edges _ es (t, tt)),
          clean,
        )
        | inr apart ↦ rw apart ((o, es), push_edge-IsClean key edge rest k t clean)
      ]

  retain_others-IsClean :
      (source : Text) (edges : List Edge)
      → All (λ e. IsAllowed (canonical e.target)) edges
      → All (λ e. IsAllowed (canonical e.target)) (retain_others source edges)
  unfolding retain_others
  retain_others-IsClean source [] h = tt
  retain_others-IsClean source (e ∷ es) (h, hs) = elim (Bool-cases (text_eq e.source source)) [
    | inl same ↦ rw same (retain_others-IsClean source es hs)
    | inr apart ↦ rw apart (h, retain_others-IsClean source es hs)
  ]

  retain_adjacency-IsClean :
      (source : Text) (adjacency : Adjacency)
      → IsClean adjacency
      → IsClean (retain_adjacency source adjacency)
  unfolding retain_adjacency
  retain_adjacency-IsClean source [] h = tt
  retain_adjacency-IsClean source ((k, edges) ∷ rest) ((a, es), h) =
      ((a, retain_others-IsClean source edges es), retain_adjacency-IsClean source rest h)

  edges_of-IsClean :
      (key : Text) (edge : Edge) (adjacency : Adjacency)
      → IsClean adjacency
      → OneOf edge (edges_of key adjacency)
      → IsAllowed key × IsAllowed (canonical edge.target)
  unfolding edges_of
  edges_of-IsClean key edge [] clean m = absurd m
  edges_of-IsClean key edge ((k, edges) ∷ rest) ((a, es), clean) m =
      elim (Bool-cases (text_eq key k)) [
        | inl same ↦ (rw (text_eq→eq key k same) a, target edges es (rw same at m))
        | inr apart ↦ edges_of-IsClean key edge rest clean (rw apart at m)
      ]
    where
      target :
          (es : List Edge)
          → All (λ e. IsAllowed (canonical e.target)) es
          → OneOf edge es
          → IsAllowed (canonical edge.target)
      target [] h m = absurd m
      target (e ∷ es) (h, hs) (inl same) = rw same h
      target (e ∷ es) (h, hs) (inr later) = target es hs later

  -- With an edge behind it, a walk starts at a token of the graph.
  Walk-IsAllowed :
      (g : TokenGraph) (start : TokenId) {last : Text} {tokens : List TokenId}
      {sources pools : List Text}
      → IsClean g.adjacency
      → Walk g start last tokens sources pools
      → (pools ≡ []) × (last ≡ canonical start) × (tokens ≡ start ∷ [])
        ⊎ IsAllowed (canonical start) × IsAllowed last × All (λ t. IsAllowed (canonical t)) tokens
  Walk-IsAllowed g start clean here = inl (refl, refl, refl)
  Walk-IsAllowed g start clean (along {at} {tokens} {sources} {pools} walk edge m) =
      let (source, target) = edges_of-IsClean at edge g.adjacency clean m in
      elim (Walk-IsAllowed g start clean walk) [
        | inl (_, first, single) ↦
            let start_allowed = subst IsAllowed first source in
            inr (start_allowed, target, rw single (start_allowed, (target, tt)))
        | inr (start_allowed, _, ts) ↦ inr (
          start_allowed,
          target,
          All-append (λ t. IsAllowed (canonical t)) tokens _ ts (target, tt),
        )
      ]

allowed_iff :
    (key : Text) (excluded : List Text)
    → (is_empty excluded || not (contains key excluded)) ≡ true
    → contains key excluded ≡ false
unfolding is_empty contains
allowed_iff key [] h = refl
allowed_iff key (x ∷ xs) h = ground arith

module _ (f : PathFinder) where
  token_allowed-IsAllowed :
      (t : TokenId) → token_allowed f t ≡ true → IsAllowed f.excluded_tokens (canonical t)
  unfolding token_allowed is_empty
  token_allowed-IsAllowed t h = allowed_iff (canonical t) f.excluded_tokens h

  IsAllowed-token_allowed :
      (t : TokenId) → IsAllowed f.excluded_tokens (canonical t) → token_allowed f t ≡ true
  unfolding token_allowed is_empty
  IsAllowed-token_allowed t h = ground arith

  add_pair-IsClean :
      (now : ℕ) (a b : TokenId) (source pool_address : Text) (fee_bps : ℕ) (g : TokenGraph)
      → token_allowed f a ≡ true
      → token_allowed f b ≡ true
      → IsClean f.excluded_tokens g.adjacency
      → IsClean f.excluded_tokens (add_pair now a b source pool_address fee_bps g).adjacency
  unfolding add_pair
  add_pair-IsClean now a b source pool_address fee_bps g ha hb clean =
      let ka = token_allowed-IsAllowed a ha in
      let kb = token_allowed-IsAllowed b hb in
      push_edge-IsClean _ _ _ _ kb ka (push_edge-IsClean _ _ _ _ ka kb clean)

  pub add_pairs-IsClean :
      (source : Text) (pairs : List (ℕ × TradingPair)) (g : TokenGraph)
      → IsClean f.excluded_tokens g.adjacency
      → IsClean f.excluded_tokens (add_pairs f source pairs g).adjacency
  unfolding add_pairs
  add_pairs-IsClean source [] g clean = clean
  add_pairs-IsClean source ((now, pair) ∷ pairs) g clean =
      add_pairs-IsClean source pairs _ (elim (Bool-cases (token_allowed f pair.token_a)) [
        | inl a ↦ elim (Bool-cases (token_allowed f pair.token_b)) [
          | inl b ↦
              rw (a, b)
                (add_pair-IsClean now pair.token_a pair.token_b source pair.pool_address
                  pair.fee_bps g a b clean)
          | inr b ↦ rw (a, b) clean
        ]
        | inr a ↦ rw a clean
      ])

  all_allowed_lem :
      (ts : List TokenId)
      → All (λ t. IsAllowed f.excluded_tokens (canonical t)) ts
      → all_allowed f ts ≡ true
  unfolding all_allowed
  all_allowed_lem [] h = refl
  all_allowed_lem (t ∷ ts) (h, hs) =
      ground (arith, IsAllowed-token_allowed t h, all_allowed_lem ts hs)

  -- A path through a clean graph has no excluded token.
  pub IsRoute-path_allowed :
      (g : TokenGraph) (start end_token : TokenId) (most : ℕ) (p : RoutePath)
      → IsClean f.excluded_tokens g.adjacency
      → IsRoute g start end_token most p
      → path_allowed f p ≡ true
  unfolding path_allowed
  IsRoute-path_allowed g start end_token most p clean route =
      elim (Walk-IsAllowed f.excluded_tokens g start clean route.walk) [
        | inl (none_taken, _, _) ↦
            absurd (omega (arith, ap length none_taken, route.counted, route.moves))
        | inr (_, _, allowed) ↦ all_allowed_lem p.tokens allowed
      ]

pub remove_source-IsClean :
    (excluded : List Text) (source : Text) (g : TokenGraph)
    → IsClean excluded g.adjacency
    → IsClean excluded (remove_source source g).adjacency
unfolding remove_source
remove_source-IsClean excluded source g = retain_adjacency-IsClean excluded source g.adjacency
