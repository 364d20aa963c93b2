-- ===== src/Router/Finder/Answers.antt =====
-- The cache keeps paths of the present graph, and so does an answer.
use stellar_dex_agg.Prelude.{
  ℕ, ◌-◌, max, true, not, ◌&&◌, ltb, Bool-cases, Option, none, some, some-injective, List, [], ◌∷◌,
  ◌≡◌, refl, sym, subst, subst₂, inl, inr, arith, Text, text_eq, text_eq→eq, All, All-map,
}
use stellar_dex_agg.Router.Token.{TokenId, canonical}
use stellar_dex_agg.Router.Graph.{TokenGraph}
use stellar_dex_agg.Router.Paths
use stellar_dex_agg.Router.Paths.{RoutePath}
use stellar_dex_agg.Router.Paths.Sound.{find_paths_sound}
use stellar_dex_agg.Router.Finder.{
  CachedPaths, Cache, PathFinder, cached, cache_insert, same_key, new, Answer, answer_searched,
  answer_remembered, answer_cached, use_cache, look_up, find_paths_with_limits, retain_cache,
}
use stellar_dex_agg.Router.Finder.Reached.{Joins, IsFresh, IsValid}

cache_insert-All :
    (P : (Text × Text) × CachedPaths → Type 0) (key : Text × Text) (paths : CachedPaths)
    (cache : Cache)
    → P (key, paths)
    → All P cache
    → All P (cache_insert key paths cache)
unfolding cache_insert
cache_insert-All P key paths [] p h = (p, tt)
cache_insert-All P key paths ((k, old) ∷ rest) p (h, hs) = elim (Bool-cases (same_key key k)) [
  | inl same ↦ rw same (p, hs)
  | inr apart ↦ rw apart (h, cache_insert-All P key paths rest p hs)
]

pub retain_cache-All :
    (P : (Text × Text) × CachedPaths → Type 0) (a b : Text) (cache : Cache)
    → All P cache
    → All P (retain_cache a b cache)
unfolding retain_cache
retain_cache-All P a b [] h = tt
retain_cache-All P a b ((k, paths) ∷ rest) (h, hs) =
    elim (Bool-cases
      (not (text_eq k.0 a) && not (text_eq k.0 b) && not (text_eq k.1 a) && not (text_eq k.1 b))) [
        | inl stays ↦ rw stays (h, retain_cache-All P a b rest hs)
        | inr goes ↦ rw goes (retain_cache-All P a b rest hs)
      ]

same_key→eq : (j k : Text × Text) → same_key j k ≡ true → j ≡ k
same_key→eq (a, b) (c, d) h = ground (arith, text_eq→eq a c, text_eq→eq b d)

cached-IsFresh :
    (g : TokenGraph) (most : ℕ) (key : Text × Text) (c : CachedPaths) (cache : Cache)
    → All (IsFresh g most) cache
    → cached key cache ≡ some c
    → All (Joins g key most) c.paths
unfolding cached
cached-IsFresh g most key c [] h e = cc
cached-IsFresh g most key c ((k, paths) ∷ rest) (h, hs) e = elim (Bool-cases (same_key key k)) [
  | inl same ↦
      let e' : paths ≡ c = some-injective _ _ (rw same at e) in
      subst₂ (λ x y. All (Joins g x most) y.paths) (sym (same_key→eq key k same)) e' h
  | inr apart ↦ cached-IsFresh g most key c rest hs (rw apart at e)
]

-- What an answer of the finder must be.
pub record Answers (f : PathFinder) (key : Text × Text) (most : ℕ) (f' : PathFinder)
    (paths : List RoutePath) : Type 0 where
  pub valid : IsValid f'
  pub same_graph : f'.graph ≡ f.graph
  pub same_excluded : f'.excluded_tokens ≡ f.excluded_tokens
  pub join : All (Joins f.graph key most) paths

module _ (now : ℕ) (token_in token_out : TokenId) (f : PathFinder) (valid : IsValid f) where
  abbrev key : Text × Text
  key = (canonical token_in, canonical token_out)

  found-Joins :
      (max_hops max_multi_hop_paths max_direct_paths : ℕ) (paths : List RoutePath)
      → Paths.find_paths f.graph token_in token_out max_hops max_multi_hop_paths max_direct_paths
        ≡ some paths
      → All (Joins f.graph key (max 1 max_hops)) paths
  found-Joins max_hops max_multi_hop_paths max_direct_paths paths e =
      All-map
        (λ p route. record {
          token_in = token_in;
          token_out = token_out;
          from_key = refl;
          to_key = refl;
          route = route;
        })
        paths
        (find_paths_sound f.graph token_in token_out max_hops max_multi_hop_paths max_direct_paths
          paths e).0

  unchanged :
      (most : ℕ) (paths : List RoutePath)
      → All (Joins f.graph key most) paths
      → Answers f key most f paths
  unchanged most paths h = record {
    valid = valid;
    same_graph = refl;
    same_excluded = refl;
    join = h;
  }

  searched-Answers :
      (most : ℕ) (search : Option (List RoutePath)) (f' : PathFinder) (paths : List RoutePath)
      → ((ps : List RoutePath) → search ≡ some ps → All (Joins f.graph key most) ps)
      → answer_searched f search ≡ some (f', paths)
      → Answers f key most f' paths
  searched-Answers most none f' paths join e = cc
  searched-Answers most (some ps) f' paths join e =
      subst₂ (Answers f key most) (cc) (cc) (unchanged most ps (join ps refl))

  remembered-Answers :
      (search : Option (List RoutePath)) (f' : PathFinder) (paths : List RoutePath)
      → ((ps : List RoutePath)
          → search ≡ some ps
          → All (Joins f.graph key (max 1 f.config.max_hops)) ps)
      → answer_remembered now key f search ≡ some (f', paths)
      → Answers f key (max 1 f.config.max_hops) f' paths
  unfolding answer_remembered
  remembered-Answers none f' paths join e = cc
  remembered-Answers (some ps) f' paths join e =
      let entry : CachedPaths = record { paths = ps; cached_at_ms = now } in
      let left : PathFinder = record f { cache = cache_insert key entry f.cache } in
      let answers : Answers f key (max 1 f.config.max_hops) left ps = record {
        valid = record {
          clean = valid.clean;
          fresh =
              cache_insert-All (IsFresh f.graph (max 1 f.config.max_hops)) key entry f.cache
                (join ps refl) valid.fresh;
        };
        same_graph = refl;
        same_excluded = refl;
        join = join ps refl;
      } in
      subst₂ (Answers f key (max 1 f.config.max_hops)) (cc) (cc) answers

  cached-Answers :
      (found : Option CachedPaths) (otherwise : Answer) (f' : PathFinder) (paths : List RoutePath)
      → ((c : CachedPaths)
          → found ≡ some c
          → All (Joins f.graph key (max 1 f.config.max_hops)) c.paths)
      → (otherwise ≡ some (f', paths) → Answers f key (max 1 f.config.max_hops) f' paths)
      → answer_cached (look_up now found) f otherwise ≡ some (f', paths)
      → Answers f key (max 1 f.config.max_hops) f' paths
  unfolding look_up
  cached-Answers none otherwise f' paths old new e = new e
  cached-Answers (some c) otherwise f' paths old new e =
      elim (Bool-cases (ltb now c.cached_at_ms)) [
        | inl back ↦ absurd (ground arith)
        | inr forth ↦ elim (Bool-cases (ltb (now - c.cached_at_ms) 30_000)) [
          | inl valid_yet ↦
              subst₂ (Answers f key (max 1 f.config.max_hops)) (ground arith) (ground arith)
                (unchanged (max 1 f.config.max_hops) c.paths (old c refl))
          | inr stale ↦ new (rw (forth, stale) at e)
        ]
      ]

  -- A search, with what it leaves in the cache.
  pub find_paths-Answers :
      (max_hops max_multi_hop_paths max_direct_paths : ℕ) (f' : PathFinder) (paths : List RoutePath)
      → find_paths_with_limits now token_in token_out max_hops max_multi_hop_paths max_direct_paths
          f
        ≡ some (f', paths)
      → Answers f key (max 1 max_hops) f' paths
  unfolding find_paths_with_limits
  find_paths-Answers max_hops max_multi_hop_paths max_direct_paths f' paths e =
      elim (Bool-cases (use_cache f max_hops max_multi_hop_paths max_direct_paths)) [
        | inl uses ↦
            let same : f.config.max_hops ≡ max_hops = ground arith in
            let join =
              λ (ps : List RoutePath)
                  (s : Paths.find_paths f.graph token_in token_out max_hops max_multi_hop_paths
                      max_direct_paths
                    ≡ some ps).
                subst (λ n. All (Joins f.graph key (max 1 n)) ps) (sym same)
                  (found-Joins max_hops max_multi_hop_paths max_direct_paths ps s) in
            subst (λ n. Answers f key (max 1 n) f' paths) same
              (cached-Answers (cached key f.cache) _ f' paths
                (λ c m.
                  cached-IsFresh f.graph (max 1 f.config.max_hops) key c f.cache valid.fresh m)
                (remembered-Answers _ f' paths join) (rw uses at e))
        | inr not_used ↦
            searched-Answers (max 1 max_hops) _ f' paths
              (found-Joins max_hops max_multi_hop_paths max_direct_paths) (rw not_used at e)
      ]
