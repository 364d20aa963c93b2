-- ===== src/Arbitrage/Dedup/Held.antt =====
-- What the entries of the cache keep of the running attempts and of the broadcasts.
use stellar_dex_agg.Prelude.{
  ℕ, ◌+◌, ◌-◌, ◌≤◌, ◌<◌, true, false, ltb, none, some, List, [], ◌∷◌, ◌++◌, ◌≡◌, ◌≢◌, refl, ◌∙◌,
  subst, Text, text_eq, text_eq→eq, text_eq_self, text_eq_comm, All, All-map, Bool-cases, inl, inr,
  ◌⊎◌, arith, some-injective,
}
use stellar_dex_agg.Arbitrage.Dedup.{
  PathState, reserved, submitted, Entries, reservation_ttl, entry, put, remove, is_fresh,
  retain_fresh, Attempt,
}

other_key : (j key k : Text) → text_eq j key ≡ false → text_eq key k ≡ true → text_eq j k ≡ false
other_key j key k other same = subst (λ t. text_eq j t ≡ false) (text_eq→eq key k same) other

pub entry-remove_other :
    (j key : Text) (d : Entries) → text_eq j key ≡ false → entry j (remove key d) ≡ entry j d
unfolding entry remove
entry-remove_other j key [] other = refl
entry-remove_other j key ((k, old) ∷ rest) other =
    ground (arith, other_key j key k, entry-remove_other j key rest other)

pub entry-put_same : (key : Text) (s : PathState) (d : Entries) → entry key (put key s d) ≡ some s
unfolding entry put
entry-put_same key s d = ground (arith, text_eq_self key)

pub entry-put_other :
    (j key : Text) (s : PathState) (d : Entries)
    → text_eq j key ≡ false
    → entry j (put key s d) ≡ entry j d
unfolding entry put
entry-put_other j key s d other = ground (arith, entry-remove_other j key d other)

entry-retain :
    (ttl now : ℕ) (key : Text) (s : PathState) (d : Entries)
    → is_fresh ttl now s ≡ true
    → entry key d ≡ some s
    → entry key (retain_fresh ttl now d) ≡ some s
unfolding entry retain_fresh
entry-retain ttl now key s [] fresh e = cc
entry-retain ttl now key s ((k, old) ∷ rest) fresh e = elim (Bool-cases (text_eq key k)) [
  | inl same ↦ let is : old ≡ s = some-injective _ _ (rw same at e) in rw (is, fresh, same) refl
  | inr other ↦
      let later = entry-retain ttl now key s rest fresh (rw other at e) in
      ground (arith, later, other)
]

-- No two of the attempts have one path.
unfoldable pub Apart : List Attempt → Type 0
Apart [] = Unit
Apart (a ∷ later) = All (λ b. text_eq a.path_key b.path_key ≡ false) later × Apart later

pub All-without :
    (P : Attempt → Type 0) (before after : List Attempt) (a : Attempt)
    → All P (before ++ a ∷ after)
    → P a × All P (before ++ after)
All-without P [] after a (h, hs) = (h, hs)
All-without P (b ∷ bs) after a (h, hs) =
    let (p, rest) = All-without P bs after a hs in (p, (h, rest))

pub Apart-without :
    (before after : List Attempt) (a : Attempt)
    → Apart (before ++ a ∷ after)
    → All (λ b. text_eq b.path_key a.path_key ≡ false) (before ++ after) × Apart (before ++ after)
unfolding Apart
Apart-without [] after a (h, hs) =
    (All-map (λ b e. text_eq_comm b.path_key a.path_key ∙ e) after h, hs)
Apart-without (b ∷ bs) after a (h, hs) =
    let (others, rest) = Apart-without bs after a hs in
    let (first, far) = All-without _ bs after a h in ((first, others), (far, rest))

unfoldable pub Held : Entries → List Attempt → Type 0
Held d running = All (λ a. entry a.path_key d ≡ some (reserved a.at)) running

unfoldable pub Shown : ℕ → ℕ → Entries → List Attempt → Type 0
Shown ttl clock d broadcasts =
    All (λ b. (entry b.path_key d ≡ some (submitted b.at)) ⊎ (b.at + ttl ≤ clock)) broadcasts

-- Every attempt at a path that is none of these attempts' leaves them held.
pub Held-far :
    (d d' : Entries) (key : Text) (running : List Attempt)
    → ((j : Text) → text_eq j key ≡ false → entry j d' ≡ entry j d)
    → All (λ a. text_eq a.path_key key ≡ false) running
    → Held d running
    → Held d' running
unfolding Held
Held-far d d' key [] same far held = tt
Held-far d d' key (a ∷ rest) same (f, fs) (h, hs) =
    (same a.path_key f ∙ h, Held-far d d' key rest same fs hs)

-- Nor does it hide a broadcast, if the path itself was not marked by one.
pub Shown-far :
    (ttl clock : ℕ) (d d' : Entries) (key : Text) (broadcasts : List Attempt)
    → ((j : Text) → text_eq j key ≡ false → entry j d' ≡ entry j d)
    → ((t : ℕ) → entry key d ≢ some (submitted t))
    → Shown ttl clock d broadcasts
    → Shown ttl clock d' broadcasts
unfolding Shown
Shown-far ttl clock d d' key broadcasts same unmarked =
    All-map
      (λ b shown. elim shown [
        | inr old ↦ inr old
        | inl e ↦ elim (Bool-cases (text_eq b.path_key key)) [
          | inl is ↦ absurd (
              unmarked b.at
                (subst (λ k. entry k d ≡ some (submitted b.at)) (text_eq→eq b.path_key key is) e))
          | inr other ↦ inl (same b.path_key other ∙ e)
        ]
      ])
      broadcasts

pub Held-retain :
    (ttl now : ℕ) (d : Entries) (running : List Attempt)
    → All (λ a. now < a.at + reservation_ttl) running
    → Held d running
    → Held (retain_fresh ttl now d) running
unfolding Held is_fresh
Held-retain ttl now d [] timely held = tt
Held-retain ttl now d (a ∷ rest) (t, ts) (h, hs) = (
  entry-retain ttl now a.path_key (reserved a.at) d (ground arith) h,
  Held-retain ttl now d rest ts hs,
)

pub Shown-retain :
    (ttl clock now : ℕ) (d : Entries) (broadcasts : List Attempt)
    → 0 < ttl
    → clock ≤ now
    → Shown ttl clock d broadcasts
    → Shown ttl now (retain_fresh ttl now d) broadcasts
unfolding Shown is_fresh
Shown-retain ttl clock now d broadcasts pos le =
    All-map
      (λ b shown. elim shown [
        | inr old ↦ inr (omega arith)
        | inl e ↦ elim (Bool-cases (ltb (now - b.at) ttl)) [
          | inl fresh ↦ inl (entry-retain ttl now b.path_key (submitted b.at) d fresh e)
          | inr old ↦ inr (ground arith)
        ]
      ])
      broadcasts

pub Shown-later :
    (ttl clock now : ℕ) (d : Entries) (broadcasts : List Attempt)
    → clock ≤ now
    → Shown ttl clock d broadcasts
    → Shown ttl now d broadcasts
unfolding Shown
Shown-later ttl clock now d broadcasts le =
    All-map (λ b shown. elim shown [ inl e ↦ inl e | inr old ↦ inr (omega arith) ]) broadcasts

-- A path without an entry is that of no attempt, nor of a recent broadcast.
pub Held-none :
    (d : Entries) (key : Text) (running : List Attempt)
    → entry key d ≡ none
    → Held d running
    → All (λ a. text_eq a.path_key key ≡ false) running
unfolding Held
Held-none d key running free =
    All-map
      (λ a h. elim (Bool-cases (text_eq a.path_key key)) [
        | inl same ↦
            let e =
              subst (λ k. entry k d ≡ some (reserved a.at)) (text_eq→eq a.path_key key same) h in
            cc
        | inr other ↦ other
      ])
      running

pub Shown-none :
    (ttl clock : ℕ) (d : Entries) (key : Text) (broadcasts : List Attempt)
    → entry key d ≡ none
    → Shown ttl clock d broadcasts
    → All (λ b. (text_eq b.path_key key ≡ false) ⊎ (b.at + ttl ≤ clock)) broadcasts
unfolding Shown
Shown-none ttl clock d key broadcasts free =
    All-map
      (λ b shown. elim shown [
        | inr old ↦ inr old
        | inl h ↦ elim (Bool-cases (text_eq b.path_key key)) [
          | inl same ↦
              let e =
                subst (λ k. entry k d ≡ some (submitted b.at)) (text_eq→eq b.path_key key same) h in
              cc
          | inr other ↦ inl other
        ]
      ])
      broadcasts
