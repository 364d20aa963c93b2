-- ===== src/Router/Finder/Current.antt =====
-- What the finder answers, from its cache or by a search, are paths of its present graph.
use stellar_dex_agg.Prelude.{
  ℕ, ◌<◌, max, true, none, some, List, ◌≡◌, refl, Text, All, All-map, ==_self, lt→ltb,
}
use stellar_dex_agg.Router.Token.{TokenId, canonical}
use stellar_dex_agg.Router.Paths.{RoutePath}
use stellar_dex_agg.Router.Finder.{
  PathFinderConfig, TradingPair, CachedPaths, PathFinder, cached, look_up, find_paths, new,
  path_allowed, update_from_source, find_paths_with_limits, invalidate, clear_cache,
}
use stellar_dex_agg.Router.Finder.Clean.{
  add_pairs-IsClean, remove_source-IsClean, IsRoute-path_allowed,
}
use stellar_dex_agg.Router.Finder.Reached.{
  Step, updated, searched, invalidated, cleared, Reached, started, followed_by, Joins, IsFresh,
  IsValid,
}
use stellar_dex_agg.Router.Finder.Answers.{retain_cache-All, find_paths-Answers}

new-IsValid : (config : PathFinderConfig) → IsValid (new config)
unfolding new
new-IsValid config = record { clean = tt; fresh = tt }

update-IsValid :
    (source : Text) (pairs : List (ℕ × TradingPair)) (f : PathFinder)
    → IsValid f
    → IsValid (update_from_source source pairs f)
unfolding update_from_source
update-IsValid source pairs f valid = record {
  clean =
      add_pairs-IsClean f source pairs _
        (remove_source-IsClean f.excluded_tokens source f.graph valid.clean);
  fresh = tt;
}

invalidate-IsValid : (a b : TokenId) (f : PathFinder) → IsValid f → IsValid (invalidate a b f)
unfolding invalidate
invalidate-IsValid a b f valid = record {
  clean = valid.clean;
  fresh =
      retain_cache-All (IsFresh f.graph (max 1 f.config.max_hops)) (canonical a) (canonical b)
        f.cache valid.fresh;
}

clear-IsValid : (f : PathFinder) → IsValid f → IsValid (clear_cache f)
unfolding clear_cache
clear-IsValid f valid = record { clean = valid.clean; fresh = tt }

Step-IsValid : (f f' : PathFinder) → Step f f' → IsValid f → IsValid f'
Step-IsValid f f' (updated source pairs e) valid = rw e (update-IsValid source pairs f valid)
Step-IsValid f f' (searched now a b max_hops multi direct paths e) valid =
    (find_paths-Answers now a b f valid max_hops multi direct f' paths e).valid
Step-IsValid f f' (invalidated a b e) valid = rw e (invalidate-IsValid a b f valid)
Step-IsValid f f' (cleared e) valid = rw e (clear-IsValid f valid)

Reached-IsValid : (config : PathFinderConfig) (f : PathFinder) → Reached config f → IsValid f
Reached-IsValid config _ started = new-IsValid config
Reached-IsValid config _ (followed_by {f} {f'} before step) =
    Step-IsValid f f' step (Reached-IsValid config f before)

-- Whatever updates, searches and invalidations a finder has gone through, each path that it answers,
-- from the cache or not, is a path of its present graph between tokens that are written as the two
-- asked for, with at most `max_hops` hops or a single one, and has no excluded token on it.
pub finder_answers_current :
    (config : PathFinderConfig) (f f' : PathFinder) (now : ℕ) (token_in token_out : TokenId)
    (max_hops max_multi_hop_paths max_direct_paths : ℕ) (paths : List RoutePath)
    → Reached config f
    → find_paths_with_limits now token_in token_out max_hops max_multi_hop_paths max_direct_paths f
      ≡ some (f', paths)
    → All
        (λ p.
          Joins f.graph (canonical token_in, canonical token_out) (max 1 max_hops) p
          × (path_allowed f p ≡ true))
        paths
finder_answers_current config f f' now token_in token_out max_hops max_multi_hop_paths
      max_direct_paths paths reached e =
    let valid = Reached-IsValid config f reached in
    let answers =
      find_paths-Answers now token_in token_out f valid max_hops max_multi_hop_paths
        max_direct_paths f' paths e in
    All-map
      (λ p joins. (
        joins,
        IsRoute-path_allowed f f.graph joins.token_in joins.token_out (max 1 max_hops) p valid.clean
            joins.route,
      ))
      paths answers.join

-- Asked again for a pair that it has in its cache, by a clock that has been set back, the finder panics.
clock_back_panics :
    (f : PathFinder) (now : ℕ) (token_in token_out : TokenId) (c : CachedPaths)
    → cached (canonical token_in, canonical token_out) f.cache ≡ some c
    → now < c.cached_at_ms
    → find_paths now token_in token_out f ≡ none
unfolding find_paths find_paths_with_limits look_up
clock_back_panics f now token_in token_out c e back =
    rw
      (
        ==_self f.config.max_hops,
        ==_self f.config.max_multi_hop_paths,
        ==_self f.config.max_direct_paths,
        e,
        lt→ltb now c.cached_at_ms back,
      )
      refl
