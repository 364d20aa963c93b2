-- ===== src/Arbitrage/Dedup/Origins.antt =====
-- Where the entries of the cache come from.
use stellar_dex_agg.Prelude.{
  ℕ, ◌+◌, ◌-◌, ◌≤◌, ◌<◌, Bool, true, false, ◌&&◌, ◌||◌, ltb, ◌==◌, some, List, [], ◌∷◌, ◌++◌, ◌≡◌,
  refl, sym, ◌∙◌, ap, Text, text_eq, text_eq→eq, text_eq_comm, All, All-map, Bool-cases, inl, inr,
  ◌⊎◌, arith, some-injective,
}
use stellar_dex_agg.Arbitrage.Dedup.{
  PathState, reserved, submitted, Entries, entry, remove, is_fresh, retain_fresh, Attempt,
}

-- Whether one of the attempts is at the path.
unfoldable pub attempted : Text → List Attempt → Bool
attempted key [] = false
attempted key (a ∷ others) = text_eq key a.path_key || attempted key others

-- Whether one of the broadcasts is of the path and not older than the time to live.
unfoldable pub broadcast_lately : ℕ → ℕ → Text → List Attempt → Bool
broadcast_lately ttl now key [] = false
broadcast_lately ttl now key (b ∷ others) =
    (text_eq key b.path_key && ltb (now - b.at) ttl) || broadcast_lately ttl now key others

-- Whether one of the broadcasts was of the path at the time.
unfoldable pub broadcast_at : Text → ℕ → List Attempt → Bool
broadcast_at key t [] = false
broadcast_at key t (b ∷ others) = (text_eq key b.path_key && b.at == t) || broadcast_at key t others

module _ (running broadcasts : List Attempt) where
  -- A reservation is that of an attempt, a mark that of a broadcast.
  abbrev pub IsFrom : Text → PathState → Type 0
  IsFrom key (reserved t) = attempted key running ≡ true
  IsFrom key (submitted t) = broadcast_at key t broadcasts ≡ true

  abbrev pub AreFrom : Entries → Type 0
  AreFrom = All (λ e. IsFrom e.0 e.1)

  pub AreFrom-retain : (ttl now : ℕ) (d : Entries) → AreFrom d → AreFrom (retain_fresh ttl now d)
  unfolding retain_fresh
  AreFrom-retain ttl now [] h = tt
  AreFrom-retain ttl now ((k, s) ∷ rest) (h, hs) = elim (Bool-cases (is_fresh ttl now s)) [
    | inl fresh ↦ rw fresh (h, AreFrom-retain ttl now rest hs)
    | inr old ↦ rw old (AreFrom-retain ttl now rest hs)
  ]

  pub AreFrom-less : (key : Text) (d : Entries) → AreFrom d → AreFrom (remove key d)
  unfolding remove
  AreFrom-less key [] h = tt
  AreFrom-less key ((k, s) ∷ rest) (h, hs) = elim (Bool-cases (text_eq key k)) [
    | inl same ↦ rw same (AreFrom-less key rest hs)
    | inr other ↦ rw other (h, AreFrom-less key rest hs)
  ]

  pub entry-IsFrom :
      (key : Text) (s : PathState) (d : Entries) → AreFrom d → entry key d ≡ some s → IsFrom key s
  unfolding entry
  entry-IsFrom key s [] h e = cc
  entry-IsFrom key s ((k, old) ∷ rest) (h, hs) e = elim (Bool-cases (text_eq key k)) [
    | inl same ↦
        let is : old ≡ s = some-injective _ _ (rw same at e) in rw (text_eq→eq key k same, sym is) h
    | inr other ↦ entry-IsFrom key s rest hs (rw other at e)
  ]

pub entry-retain_fresh :
    (ttl now : ℕ) (key : Text) (s : PathState) (d : Entries)
    → entry key (retain_fresh ttl now d) ≡ some s
    → is_fresh ttl now s ≡ true
unfolding entry retain_fresh
entry-retain_fresh ttl now key s [] e = cc
entry-retain_fresh ttl now key s ((k, old) ∷ rest) e = elim (Bool-cases (is_fresh ttl now old)) [
  | inl fresh ↦ elim (Bool-cases (text_eq key k)) [
    | inl same ↦
        let is : old ≡ s = some-injective _ _ (rw (fresh, same) at e) in
        ap (λ r. is_fresh ttl now r) (sym is) ∙ fresh
    | inr other ↦ entry-retain_fresh ttl now key s rest (rw (fresh, other) at e)
  ]
  | inr gone ↦ entry-retain_fresh ttl now key s rest (rw gone at e)
]

-- An attempt at another path is not the one that ends.
attempted-without :
    (key : Text) (before after : List Attempt) (a : Attempt)
    → text_eq key a.path_key ≡ false
    → attempted key (before ++ a ∷ after) ≡ attempted key (before ++ after)
unfolding attempted
attempted-without key [] after a other = ground arith
attempted-without key (b ∷ bs) after a other =
    ground (arith, attempted-without key bs after a other)

-- The path's own entry removed, the others are from what they were from.
pub AreFrom-remove :
    (before after broadcasts : List Attempt) (a : Attempt) (d : Entries)
    → AreFrom (before ++ a ∷ after) broadcasts d
    → AreFrom (before ++ after) broadcasts (remove a.path_key d)
unfolding remove
AreFrom-remove before after broadcasts a [] h = tt
AreFrom-remove before after broadcasts a ((k, s) ∷ rest) (h, hs) =
    elim (Bool-cases (text_eq a.path_key k)) [
      | inl same ↦ rw same (AreFrom-remove before after broadcasts a rest hs)
      | inr other ↦ rw other (
        stays k s (text_eq_comm k a.path_key ∙ other) h,
        AreFrom-remove before after broadcasts a rest hs,
      )
    ]
  where
    stays :
        (k : Text) (s : PathState)
        → text_eq k a.path_key ≡ false
        → IsFrom (before ++ a ∷ after) broadcasts k s
        → IsFrom (before ++ after) broadcasts k s
    stays k (reserved t) far h = sym (attempted-without k before after a far) ∙ h
    stays k (submitted t) far h = h

-- More attempts and more broadcasts leave the entries where they are from.
pub AreFrom-attempt :
    (a : Attempt) (running broadcasts : List Attempt) (d : Entries)
    → AreFrom running broadcasts d
    → AreFrom (a ∷ running) broadcasts d
unfolding attempted
AreFrom-attempt a running broadcasts = All-map (λ e. more e.0 e.1)
  where
    more :
        (k : Text) (s : PathState)
        → IsFrom running broadcasts k s
        → IsFrom (a ∷ running) broadcasts k s
    more k (reserved t) h = ground arith
    more k (submitted t) h = h

pub AreFrom-broadcast :
    (b : Attempt) (running broadcasts : List Attempt) (d : Entries)
    → AreFrom running broadcasts d
    → AreFrom running (b ∷ broadcasts) d
unfolding broadcast_at
AreFrom-broadcast b running broadcasts = All-map (λ e. more e.0 e.1)
  where
    more :
        (k : Text) (s : PathState)
        → IsFrom running broadcasts k s
        → IsFrom running (b ∷ broadcasts) k s
    more k (reserved t) h = h
    more k (submitted t) h = ground arith

-- A path with a fresh entry is attempted, or was broadcast lately.
pub IsFrom-busy :
    (ttl now : ℕ) (running broadcasts : List Attempt) (key : Text) (s : PathState)
    → is_fresh ttl now s ≡ true
    → IsFrom running broadcasts key s
    → (attempted key running || broadcast_lately ttl now key broadcasts) ≡ true
unfolding is_fresh broadcast_at broadcast_lately
IsFrom-busy ttl now running broadcasts key (reserved t) fresh h = ground arith
IsFrom-busy ttl now running broadcasts key (submitted t) fresh h =
    let lately = late broadcasts h in ground (arith, lately)
  where
    late :
        (bs : List Attempt) → broadcast_at key t bs ≡ true → broadcast_lately ttl now key bs ≡ true
    late [] e = cc
    late (b ∷ bs) e = ground (arith, late bs)

-- A path that is that of no attempt and of no recent broadcast.
pub attempted-none :
    (key : Text) (running : List Attempt)
    → All (λ a. text_eq a.path_key key ≡ false) running
    → attempted key running ≡ false
unfolding attempted
attempted-none key [] h = refl
attempted-none key (a ∷ others) (h, hs) =
    ground (arith, text_eq_comm key a.path_key, attempted-none key others hs)

pub broadcast_lately-none :
    (ttl now : ℕ) (key : Text) (broadcasts : List Attempt)
    → 0 < ttl
    → All (λ b. (text_eq b.path_key key ≡ false) ⊎ (b.at + ttl ≤ now)) broadcasts
    → broadcast_lately ttl now key broadcasts ≡ false
unfolding broadcast_lately
broadcast_lately-none ttl now key [] pos h = refl
broadcast_lately-none ttl now key (b ∷ others) pos (inl h, hs) =
    ground (arith, text_eq_comm key b.path_key, broadcast_lately-none ttl now key others pos hs)
broadcast_lately-none ttl now key (b ∷ others) pos (inr h, hs) =
    ground (arith, broadcast_lately-none ttl now key others pos hs)
