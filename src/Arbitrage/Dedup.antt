-- ===== src/Arbitrage/Dedup.antt =====
-- crates/arbitrage/src/dedup.rs, and how `TxExecutor` of pipeline/executor.rs uses it. Times are
-- nanoseconds of the monotonic clock; the age of an entry is zero for a later time.
pub mod Held
pub mod Origins
pub mod Exclusive
use stellar_dex_agg.Prelude.{
  ℕ, ◌+◌, ◌-◌, ◌≤◌, ◌<◌, Bool, true, false, not, ltb, if◌then◌else◌, Option, none, some, List, [],
  ◌∷◌, ◌++◌, ◌≡◌, Text, text_eq, All,
}

pub data PathState : Type 0 where
  reserved submitted : ℕ → PathState

-- `HashMap<String, PathState>`
abbrev pub Entries : Type 0
Entries = List (Text × PathState)

pub record SubmittedPathCache : Type 0 where
  pub ttl : ℕ
  pub entries : Entries

-- 120 seconds
abbrev pub reservation_ttl : ℕ
reservation_ttl = 120_000_000_000

abbrev pub new : ℕ → SubmittedPathCache
new ttl = record { ttl = ttl; entries = [] }

-- `entries.get(key)`
unfoldable pub entry : Text → Entries → Option PathState
entry key [] = none
entry key ((k, state) ∷ rest) =
    let others = entry key rest in if text_eq key k then some state else others

-- `entries.remove(key)`
unfoldable pub remove : Text → Entries → Entries
remove key [] = []
remove key ((k, state) ∷ rest) =
    let others = remove key rest in if text_eq key k then others else (k, state) ∷ others

-- `entries.insert(key, state)`
unfoldable pub put : Text → PathState → Entries → Entries
put key state entries = (key, state) ∷ remove key entries

-- whether an entry stays
unfoldable pub is_fresh : ℕ → ℕ → PathState → Bool
is_fresh ttl now (reserved ts) = ltb (now - ts) reservation_ttl
is_fresh ttl now (submitted ts) = ltb (now - ts) ttl

-- `entries.retain(..)`
unfoldable pub retain_fresh : ℕ → ℕ → Entries → Entries
retain_fresh ttl now [] = []
retain_fresh ttl now ((k, state) ∷ rest) =
    let others = retain_fresh ttl now rest in
    if is_fresh ttl now state then (k, state) ∷ others else others

unfoldable pub prune_expired : ℕ → SubmittedPathCache → SubmittedPathCache
prune_expired now c = record c { entries = retain_fresh c.ttl now c.entries }

abbrev is_some : Option PathState → Bool
is_some none = false
is_some (some _) = true

unfoldable pub recently_submitted : Text → ℕ → SubmittedPathCache → SubmittedPathCache × Bool
recently_submitted path_key now c =
    let pruned = prune_expired now c in (pruned, is_some (entry path_key pruned.entries))

unfoldable pub try_reserve : Text → ℕ → SubmittedPathCache → SubmittedPathCache × Bool
try_reserve path_key now c =
    let (pruned, recent) = recently_submitted path_key now c in
    if recent
    then (pruned, false)
    else (record pruned { entries = put path_key (reserved now) pruned.entries }, true)

unfoldable pub release : Text → SubmittedPathCache → SubmittedPathCache
release path_key c = record c { entries = remove path_key c.entries }

unfoldable pub mark_submitted : Text → ℕ → SubmittedPathCache → SubmittedPathCache
mark_submitted path_key now c =
    let pruned = prune_expired now c in
    record pruned { entries = put path_key (submitted now) pruned.entries }

-- The tasks that `execute` spawns while submitting is enabled, with the cache that they share: those that
-- have reserved their path and still run, and the submissions, each with its path and its time.
pub record Attempt : Type 0 where
  pub path_key : Text
  pub at : ℕ

pub record TxExecutor : Type 0 where
  pub path_cache : SubmittedPathCache
  pub running : List Attempt
  pub broadcasts : List Attempt
  pub clock : ℕ

abbrev pub idle : ℕ → TxExecutor
idle ttl = record { path_cache = new ttl; running = []; broadcasts = []; clock = 0 }

-- A task begins: it reserves its path, or it is skipped.
unfoldable pub begin_attempt : Text → ℕ → TxExecutor → TxExecutor
begin_attempt path_key now x =
    let (cache, free) = try_reserve path_key now x.path_cache in
    record x {
      path_cache = cache;
      running = if free then record { path_key = path_key; at = now } ∷ x.running else x.running;
      clock = now;
    }

-- A task ends, and the others go on: with a broadcast (`Ok(true)`) its path is marked, and else, be it
-- that it could not connect, that nothing was sent or that it failed, its path is released.
unfoldable pub end_attempt : Text → Bool → ℕ → List Attempt → TxExecutor → TxExecutor
end_attempt path_key broadcast now others x = record x {
  path_cache =
      if broadcast then mark_submitted path_key now x.path_cache else release path_key x.path_cache;
  running = others;
  broadcasts =
      if broadcast then record { path_key = path_key; at = now } ∷ x.broadcasts else x.broadcasts;
  clock = now;
}

-- The tasks interleave in any way; the clock does not go back.
pub data Step : TxExecutor → TxExecutor → Type 0 where
  begins :
      (x : TxExecutor) (path_key : Text) (now : ℕ)
      → x.clock ≤ now
      → Step x (begin_attempt path_key now x)
  ends :
      (x : TxExecutor) (before after : List Attempt) (a : Attempt) (broadcast : Bool) (now : ℕ)
      → x.clock ≤ now
      → x.running ≡ before ++ a ∷ after
      → Step x (end_attempt a.path_key broadcast now (before ++ after) x)
