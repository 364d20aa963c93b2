-- ===== src/Arbitrage/Dedup/Exclusive.antt =====
-- No two attempts at one path at once, and none soon after a broadcast.
use stellar_dex_agg.Prelude.{
  ℕ, ◌+◌, ◌≤◌, ◌<◌, Bool, true, false, not, ◌||◌, some, List, ◌∷◌, ◌++◌, ◌≡◌, refl, sym, ◌∙◌, subst,
  Text, text_eq_self, text_eq_comm, All, All-map, inl, inr, arith, Option-cases,
}
use stellar_dex_agg.Arbitrage.Dedup.{
  PathState, reserved, submitted, Entries, is_fresh, reservation_ttl, entry, put, remove,
  prune_expired, recently_submitted, try_reserve, release, mark_submitted, Attempt, TxExecutor,
  idle, begin_attempt, end_attempt, Step, begins, ends,
}
use stellar_dex_agg.Arbitrage.Dedup.Origins.{
  attempted, broadcast_lately, broadcast_at, AreFrom, AreFrom-retain, AreFrom-remove, AreFrom-less,
  AreFrom-attempt, AreFrom-broadcast, IsFrom-busy, entry-IsFrom, entry-retain_fresh, attempted-none,
  broadcast_lately-none,
}
use stellar_dex_agg.Arbitrage.Dedup.Held.{
  Apart, Apart-without, All-without, Held, Shown, Held-far, Shown-far, Held-retain, Shown-retain,
  Shown-later, Held-none, Shown-none, entry-put_same, entry-put_other, entry-remove_other,
}

-- No attempt takes as long as a reservation lasts.
abbrev pub AreTimely : ℕ → List Attempt → Type 0
AreTimely now running = All (λ a. now < a.at + reservation_ttl) running

-- What can become of an executor that starts with an empty cache, while no attempt runs longer than a
-- reservation lasts.
pub data Reached (ttl : ℕ) : TxExecutor → Type 0 where
  starts : Reached ttl (idle ttl)
  goes : (x y : TxExecutor) → Reached ttl x → Step x y → AreTimely y.clock x.running → Reached ttl y

record IsValid (ttl : ℕ) (x : TxExecutor) : Type 0 where
  lasts : x.path_cache.ttl ≡ ttl
  held : Held x.path_cache.entries x.running
  apart : Apart x.running
  shown : Shown ttl x.clock x.path_cache.entries x.broadcasts
  comes : AreFrom x.running x.broadcasts x.path_cache.entries

abbrev attempt : Text → ℕ → Attempt
attempt key now = record { path_key = key; at = now }

attempted_first :
    (key : Text) (now : ℕ) (running : List Attempt)
    → attempted key (attempt key now ∷ running) ≡ true
unfolding attempted
attempted_first key now running = ground (arith, text_eq_self key)

broadcast_first :
    (key : Text) (now : ℕ) (broadcasts : List Attempt)
    → broadcast_at key now (attempt key now ∷ broadcasts) ≡ true
unfolding broadcast_at
broadcast_first key now broadcasts = ground (arith, text_eq_self key)

split :
    (d : Entries) (before after : List Attempt) (a : Attempt)
    → Held d (before ++ a ∷ after)
    → (entry a.path_key d ≡ some (reserved a.at)) × Held d (before ++ after)
unfolding Held
split d before after a held = All-without _ before after a held

module _ (ttl : ℕ) (pos : 0 < ttl) where
  -- The entries after the old ones are dropped.
  record IsPruned (now : ℕ) (d : Entries) (x : TxExecutor) : Type 0 where
    still_held : Held d x.running
    still_shown : Shown ttl now d x.broadcasts
    still_comes : AreFrom x.running x.broadcasts d

  pruned :
      (x : TxExecutor) (now : ℕ)
      → x.clock ≤ now
      → AreTimely now x.running
      → IsValid ttl x
      → IsPruned now (prune_expired now x.path_cache).entries x
  unfolding prune_expired
  pruned x now le timely v = record {
    still_held = Held-retain x.path_cache.ttl now x.path_cache.entries x.running timely v.held;
    still_shown =
        rw v.lasts (Shown-retain ttl x.clock now x.path_cache.entries x.broadcasts pos le v.shown);
    still_comes =
        AreFrom-retain x.running x.broadcasts x.path_cache.ttl now x.path_cache.entries v.comes;
  }

  begin-IsValid :
      (x : TxExecutor) (key : Text) (now : ℕ)
      → x.clock ≤ now
      → AreTimely now x.running
      → IsValid ttl x
      → IsValid ttl (begin_attempt key now x)
  unfolding begin_attempt put try_reserve recently_submitted Held Apart prune_expired
  begin-IsValid x key now le timely v =
      let p = pruned x now le timely v in
      let d = (prune_expired now x.path_cache).entries in
      elim (Option-cases (entry key d)) [
        | inl free ↦
            let far = Held-none d key x.running free p.still_held in
            rw free (record {
              lasts = v.lasts;
              held = (
                entry-put_same key (reserved now) d,
                Held-far d _ key x.running (λ j other. entry-put_other j key (reserved now) d other)
                    far p.still_held,
              );
              apart = (All-map (λ a e. text_eq_comm key a.path_key ∙ e) x.running far, v.apart);
              shown =
                  Shown-far ttl now d _ key x.broadcasts
                    (λ j other. entry-put_other j key (reserved now) d other) (λ t e. cc)
                    p.still_shown;
              comes = (
                attempted_first key now x.running,
                AreFrom-attempt (attempt key now) x.running x.broadcasts (remove key d)
                    (AreFrom-less x.running x.broadcasts key d p.still_comes),
              );
            })
        | inr (s, taken) ↦ rw taken (record {
          lasts = v.lasts;
          held = p.still_held;
          apart = v.apart;
          shown = p.still_shown;
          comes = p.still_comes;
        })
      ]

  end-IsValid :
      (x : TxExecutor) (before after : List Attempt) (a : Attempt) (broadcast : Bool) (now : ℕ)
      → x.clock ≤ now
      → x.running ≡ before ++ a ∷ after
      → AreTimely now x.running
      → IsValid ttl x
      → IsValid ttl (end_attempt a.path_key broadcast now (before ++ after) x)
  unfolding end_attempt put mark_submitted release Shown prune_expired
  end-IsValid x before after a true now le e timely v =
      let p = pruned x now le timely v in
      let d = (prune_expired now x.path_cache).entries in
      let (far, apart) = Apart-without before after a (subst Apart e v.apart) in
      let (mine, others) = split d before after a (subst (Held d) e p.still_held) in
      record {
        lasts = v.lasts;
        held =
            Held-far d _ a.path_key (before ++ after)
              (λ j other. entry-put_other j a.path_key (submitted now) d other) far others;
        apart = apart;
        shown = (
          inl (entry-put_same a.path_key (submitted now) d),
          Shown-far ttl now d _ a.path_key x.broadcasts
              (λ j other. entry-put_other j a.path_key (submitted now) d other) (λ t e'. cc)
              p.still_shown,
        );
        comes = (
          broadcast_first a.path_key now x.broadcasts,
          AreFrom-broadcast (attempt a.path_key now) (before ++ after) x.broadcasts
              (remove a.path_key d)
              (AreFrom-remove before after x.broadcasts a d
                (subst (λ r. AreFrom r x.broadcasts d) e p.still_comes)),
        );
      }
  end-IsValid x before after a false now le e timely v =
      let d = x.path_cache.entries in
      let (far, apart) = Apart-without before after a (subst Apart e v.apart) in
      let (mine, others) = split d before after a (subst (Held d) e v.held) in
      record {
        lasts = v.lasts;
        held =
            Held-far d _ a.path_key (before ++ after)
              (λ j other. entry-remove_other j a.path_key d other) far others;
        apart = apart;
        shown =
            Shown-far ttl now d _ a.path_key x.broadcasts
              (λ j other. entry-remove_other j a.path_key d other) (λ t e'. cc)
              (Shown-later ttl x.clock now d x.broadcasts le v.shown);
        comes =
            AreFrom-remove before after x.broadcasts a d
              (subst (λ r. AreFrom r x.broadcasts d) e v.comes);
      }

  Reached-IsValid : (x : TxExecutor) → Reached ttl x → IsValid ttl x
  unfolding Held Apart Shown begin_attempt end_attempt
  Reached-IsValid _ starts = record { lasts = refl; held = tt; apart = tt; shown = tt; comes = tt }
  Reached-IsValid _ (goes x _ r (begins _ key now le) timely) =
      begin-IsValid x key now le timely (Reached-IsValid x r)
  Reached-IsValid _ (goes x _ r (ends _ before after a broadcast now le e) timely) =
      end-IsValid x before after a broadcast now le e timely (Reached-IsValid x r)

  -- Whatever attempts have begun and ended, if none ran as long as a reservation lasts: a path is reserved
  -- exactly if no attempt at it still runs and no broadcast of it is younger than the time to live.
  pub reserves_exactly :
      (x : TxExecutor) (key : Text) (now : ℕ)
      → Reached ttl x
      → x.clock ≤ now
      → AreTimely now x.running
      → (try_reserve key now x.path_cache).1
        ≡ not (attempted key x.running || broadcast_lately ttl now key x.broadcasts)
  unfolding try_reserve recently_submitted prune_expired
  reserves_exactly x key now reached le timely =
      let v = Reached-IsValid x reached in
      let p = pruned x now le timely v in
      let d = (prune_expired now x.path_cache).entries in
      elim (Option-cases (entry key d)) [
        | inl free ↦
            let alone =
              attempted-none key x.running (Held-none d key x.running free p.still_held) in
            let quiet =
              broadcast_lately-none ttl now key x.broadcasts pos
                (Shown-none ttl now d key x.broadcasts free p.still_shown) in
            rw (free, alone, quiet) refl
        | inr (s, there) ↦
            let busy =
              IsFrom-busy ttl now x.running x.broadcasts key s (fresh x now key s v.lasts there)
                (entry-IsFrom x.running x.broadcasts key s d p.still_comes there) in
            rw (there, busy) refl
      ]
    where
      fresh :
          (x : TxExecutor) (now : ℕ) (key : Text) (s : PathState)
          → x.path_cache.ttl ≡ ttl
          → entry key (prune_expired now x.path_cache).entries ≡ some s
          → is_fresh ttl now s ≡ true
      fresh x now key s e there =
          rw (sym e) (entry-retain_fresh x.path_cache.ttl now key s x.path_cache.entries there)
