-- ===== src/Tests/Dedup.antt =====
-- Attempts at paths with a time to live of six seconds.
use stellar_dex_agg.Prelude.{
  ℕ, true, false, not, ◌||◌, [], ◌∷◌, ◌≡◌, refl, arith, Text, text_eq, codes,
}
use stellar_dex_agg.Arbitrage.Dedup.{
  entry, put, remove, is_fresh, retain_fresh, prune_expired, recently_submitted, try_reserve,
  release, mark_submitted, Attempt, TxExecutor, idle, begin_attempt, end_attempt, begins, ends,
}
use stellar_dex_agg.Arbitrage.Dedup.Origins.{attempted, broadcast_lately}
use stellar_dex_agg.Arbitrage.Dedup.Exclusive.{Reached, starts, goes, reserves_exactly}

abbrev ttl : ℕ
ttl = 6_000_000_000

abbrev key : Text
key = codes "p"

abbrev first : Attempt
first = record { path_key = key; at = 10 }

abbrev begun : TxExecutor
begun = begin_attempt key 10 (idle ttl)

abbrev sent : TxExecutor
sent = end_attempt key true 20 [] begun

sent-Reached : Reached ttl sent
unfolding begin_attempt end_attempt try_reserve recently_submitted prune_expired retain_fresh entry
sent-Reached =
    goes begun sent (goes (idle ttl) begun starts (begins (idle ttl) key 10 (omega arith)) tt)
      (ends begun [] [] first true 20 (omega arith) refl) (omega arith, tt)

nothing_runs : sent.running ≡ []
unfolding end_attempt
nothing_runs = refl

clock_at : sent.clock ≡ 20
unfolding end_attempt
clock_at = refl

-- Four seconds after the broadcast the path is still refused, and seven seconds after it no more.
refused : (try_reserve key 4_000_000_020 sent.path_cache).1 ≡ false
unfolding begin_attempt end_attempt try_reserve recently_submitted prune_expired retain_fresh entry
    put remove mark_submitted is_fresh text_eq
refused = refl

reserved_again : (try_reserve key 7_000_000_020 sent.path_cache).1 ≡ true
unfolding begin_attempt end_attempt try_reserve recently_submitted prune_expired retain_fresh entry
    put remove mark_submitted is_fresh text_eq
reserved_again = refl

reserves_exactly_example :
    (try_reserve key 4_000_000_020 sent.path_cache).1
    ≡ not (attempted key sent.running || broadcast_lately ttl 4_000_000_020 key sent.broadcasts)
reserves_exactly_example =
    reserves_exactly ttl (omega arith) sent key 4_000_000_020 sent-Reached
      (rw clock_at (omega arith)) (rw nothing_runs tt)

-- An attempt that runs for more than the 120 seconds of a reservation releases the one that another
-- attempt has made since: a third begins while the second runs.
abbrev overdue : TxExecutor
overdue =
    end_attempt key false 122_000_000_000 (record { path_key = key; at = 121_000_000_000 } ∷ [])
      (begin_attempt key 121_000_000_000 begun)

third_begins : (try_reserve key 123_000_000_000 overdue.path_cache).1 ≡ true
unfolding begin_attempt end_attempt try_reserve recently_submitted prune_expired retain_fresh entry
    put remove release is_fresh text_eq
third_begins = refl

second_began : (try_reserve key 121_000_000_000 begun.path_cache).1 ≡ true
unfolding begin_attempt end_attempt try_reserve recently_submitted prune_expired retain_fresh entry
    put remove is_fresh text_eq
second_began = refl
