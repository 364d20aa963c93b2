-- ===== src/ApiServer/RateLimit/Window.antt =====
-- How many calls a sliding window lets through.
use stellar_dex_agg.Prelude.{
  ℕ, ◌+◌, ◌-◌, ◌≤◌, ◌<◌, Bool, true, false, ◌&&◌, ltb, leb, Bool-cases, if◌then◌else◌, List, [],
  ◌∷◌, ◌++◌, ◌≡◌, refl, sym, ap, subst, ◌∙◌, inl, inr, arith, length, All, All-append, All-map,
}
use stellar_dex_agg.ApiServer.RateLimit.{
  SlidingWindowLimiter, Store, drop_expired, entries_of, put_entries, allow_now,
}
use native.Mathlib.Nat.{le_trans}

-- The times that lie in the window which starts at `from`.
abbrev pub count_within : ℕ → ℕ → List ℕ → ℕ
count_within from window [] = 0
count_within from window (t ∷ ts) =
    (if leb from t && ltb t (from + window) then 1 else 0) + count_within from window ts

count-append :
    (from window : ℕ) (xs ys : List ℕ)
    → count_within from window (xs ++ ys)
      ≡ count_within from window xs + count_within from window ys
count-append from window [] ys = omega arith
count-append from window (x ∷ xs) ys = ground (arith, count-append from window xs ys)

count-le-length : (from window : ℕ) (xs : List ℕ) → count_within from window xs ≤ length xs
count-le-length from window [] = omega arith
count-le-length from window (x ∷ xs) = ground (arith, count-le-length from window xs)

-- What is over before `now` is not in a window that `now` is in.
count-over :
    (from window now : ℕ) (xs : List ℕ)
    → All (λ t. t + window ≤ now) xs
    → now < from + window
    → count_within from window xs ≡ 0
count-over from window now [] h lt = refl
count-over from window now (x ∷ xs) (h, hs) lt = ground (arith, count-over from window now xs hs lt)

-- The entries of a key are the calls let through so far, but for some that are over, and no window has
-- too many of these.
pub record Tracks (limit window : ℕ) (log entries : List ℕ) (latest : ℕ) : Type 0 where
  pub past : List ℕ
  pub splits : log ≡ past ++ entries
  pub over : All (λ t. t + window ≤ latest) past
  pub within : (from : ℕ) → count_within from window log ≤ limit
  pub before : All (λ t. t ≤ latest) entries

module _ (limit window : ℕ) where
  pub Tracks-none : Tracks limit window [] [] 0
  Tracks-none = record {
    past = [];
    splits = refl;
    over = tt;
    within = λ from. omega arith;
    before = tt;
  }

  pub Tracks-later :
      (log entries : List ℕ) (latest now : ℕ)
      → latest ≤ now
      → Tracks limit window log entries latest
      → Tracks limit window log entries now
  Tracks-later log entries latest now le h = record {
    past = h.past;
    splits = h.splits;
    over = All-map (λ t o. le_trans o le) h.past h.over;
    within = h.within;
    before = All-map (λ t o. le_trans o le) entries h.before;
  }

  drop_split :
      (now : ℕ) (entries : List ℕ)
      → All (λ t. t ≤ now) entries
      → (gone : List ℕ) × (entries ≡ gone ++ drop_expired window now entries)
        × All (λ t. t + window ≤ now) gone
        × All (λ t. t ≤ now) (drop_expired window now entries)
  unfolding drop_expired
  drop_split now [] h = ([], refl, tt, tt)
  drop_split now (ts ∷ entries) (h, hs) = elim (Bool-cases (leb window (now - ts))) [
    | inl expired ↦
        let (gone, e, over, before) = drop_split now entries hs in
        (ts ∷ gone, rw expired (ap (λ r. ts ∷ r) e), (ground arith, over), rw expired before)
    | inr valid ↦ ([], rw valid refl, tt, rw valid (h, hs))
  ]

  append_assoc : (xs ys zs : List ℕ) → (xs ++ ys) ++ zs ≡ xs ++ (ys ++ zs)
  append_assoc [] ys zs = refl
  append_assoc (x ∷ xs) ys zs = ap (λ r. x ∷ r) (append_assoc xs ys zs)

  pub Tracks-drop :
      (log entries : List ℕ) (now : ℕ)
      → Tracks limit window log entries now
      → Tracks limit window log (drop_expired window now entries) now
  Tracks-drop log entries now h =
      let (gone, e, over, before) = drop_split now entries h.before in
      record {
        past = h.past ++ gone;
        splits = h.splits ∙ ap (λ r. h.past ++ r) e ∙ sym (append_assoc h.past gone _);
        over = All-append (λ t. t + window ≤ now) h.past gone h.over over;
        within = h.within;
        before = before;
      }

  pub Tracks-push :
      (log entries : List ℕ) (now : ℕ)
      → length entries < limit
      → Tracks limit window log entries now
      → Tracks limit window (log ++ now ∷ []) (entries ++ now ∷ []) now
  Tracks-push log entries now room h = record {
    past = h.past;
    splits = ap (λ r. r ++ now ∷ []) h.splits ∙ append_assoc h.past entries (now ∷ []);
    over = h.over;
    within = λ from. elim (Bool-cases (leb from now && ltb now (from + window))) [
      | inl inside ↦
          let lt : now < from + window = ground arith in
          ground (
            arith,
            count-append from window log (now ∷ []),
            ap (count_within from window) h.splits,
            count-append from window h.past entries,
            count-over from window now h.past h.over lt,
            count-le-length from window entries,
          )
      | inr outside ↦ ground (arith, count-append from window log (now ∷ []), h.within from)
    ];
    before = All-append (λ t. t ≤ now) entries _ h.before (omega arith, tt);
  }

-- The same of a limiter, for one key; `same` is equality.
module _ {K : Type 0} (same : K → K → Bool) (same→eq : (a b : K) → same a b ≡ true → a ≡ b)
    (same_self : (a : K) → same a a ≡ true) where
  entries_of-put :
      (j k : K) (entries : List ℕ) (store : Store K)
      → entries_of same j (put_entries same k entries store)
        ≡ (if same j k then entries else entries_of same j store)
  unfolding entries_of put_entries
  entries_of-put j k entries [] = refl
  entries_of-put j k entries ((i, old) ∷ rest) = elim (Bool-cases (same k i)) [
    | inl here ↦ rw here (rw (same→eq k i here) (ground arith))
    | inr there ↦
        rw there
          (ground (arith, entries_of-put j k entries rest, same→eq j i, same→eq j k, same_self k))
  ]

  entries_of-put_self :
      (k : K) (store : Store K) (entries : List ℕ)
      → entries_of same k (put_entries same k entries store) ≡ entries
  entries_of-put_self k store entries =
      entries_of-put k k entries store
      ∙ ap (λ b. if b then entries else entries_of same k store) (same_self k)

  entries_of-put_other :
      (j k : K) (store : Store K) (entries : List ℕ)
      → same j k ≡ false
      → entries_of same j (put_entries same k entries store) ≡ entries_of same j store
  entries_of-put_other j k store entries e =
      entries_of-put j k entries store ∙ ap (λ b. if b then entries else entries_of same j store) e

  -- What is known of the calls with `key` that went through.
  pub record IsTracked (key : K) (limit window : ℕ) (log : List ℕ) (l : SlidingWindowLimiter K)
      (latest : ℕ) : Type 0 where
    pub same_limit : l.limit ≡ limit
    pub same_window : l.window ≡ window
    pub tracks : Tracks limit window log (entries_of same key l.inner) latest

  pub allow_now-IsTracked :
      (key : K) (limit window : ℕ) (log : List ℕ) (l : SlidingWindowLimiter K) (latest now : ℕ)
      → latest ≤ now
      → IsTracked key limit window log l latest
      → IsTracked key limit window
          (if (allow_now same key now l).1 then log ++ now ∷ [] else log)
          (allow_now same key now l).0
          now
  unfolding allow_now
  allow_now-IsTracked key limit window log l latest now le h =
      let put = entries_of-put_self key l.inner in
      let entries = entries_of same key l.inner in
      let later = Tracks-later limit window log entries latest now le h.tracks in
      let dropped = Tracks-drop limit window log entries now later in
      elim (Bool-cases (leb l.limit (length (drop_expired l.window now entries)))) [
        | inl full ↦ rw full (record {
          same_limit = h.same_limit;
          same_window = h.same_window;
          tracks =
              subst (λ e. Tracks limit window log e now) (sym (put _))
                (subst (λ w. Tracks limit window log (drop_expired w now entries) now)
                  (sym h.same_window) dropped);
        })
        | inr room ↦ rw room (record {
          same_limit = h.same_limit;
          same_window = h.same_window;
          tracks =
              subst (λ e. Tracks limit window (log ++ now ∷ []) e now) (sym (put _))
                (Tracks-push limit window log _ now (ground (arith, h.same_limit)) (
                  subst (λ w. Tracks limit window log (drop_expired w now entries) now)
                    (sym h.same_window) dropped));
        })
      ]

  pub allow_now-other :
      (key other : K) (limit window : ℕ) (log : List ℕ) (l : SlidingWindowLimiter K)
      (latest now : ℕ)
      → latest ≤ now
      → same key other ≡ false
      → IsTracked key limit window log l latest
      → IsTracked key limit window log (allow_now same other now l).0 now
  unfolding allow_now
  allow_now-other key other limit window log l latest now le apart h =
      let put = λ (entries : List ℕ). entries_of-put_other key other l.inner entries apart in
      let later =
        Tracks-later limit window log (entries_of same key l.inner) latest now le h.tracks in
      elim (Bool-cases
        (leb l.limit (length (drop_expired l.window now (entries_of same other l.inner))))) [
          | inl full ↦ rw full (record {
            same_limit = h.same_limit;
            same_window = h.same_window;
            tracks = subst (λ e. Tracks limit window log e now) (sym (put _)) later;
          })
          | inr room ↦ rw room (record {
            same_limit = h.same_limit;
            same_window = h.same_window;
            tracks = subst (λ e. Tracks limit window log e now) (sym (put _)) later;
          })
        ]

  pub IsTracked-later :
      (key : K) (limit window : ℕ) (log : List ℕ) (l : SlidingWindowLimiter K) (latest now : ℕ)
      → latest ≤ now
      → IsTracked key limit window log l latest
      → IsTracked key limit window log l now
  IsTracked-later key limit window log l latest now le h = record {
    same_limit = h.same_limit;
    same_window = h.same_window;
    tracks = Tracks-later limit window log (entries_of same key l.inner) latest now le h.tracks;
  }
