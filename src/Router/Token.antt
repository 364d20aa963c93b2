-- ===== src/Router/Token.antt =====
-- TokenId of crates/dex-adapters/src/traits.rs, which the router takes as it is.
use stellar_dex_agg.Prelude.{
  false, ◌==◌, if◌then◌else◌, ◌≡◌, ◌↔◌, ◌∙◌, subst, refl, sym, ap, Option, none, some, [], ◌∷◌,
  ◌++◌, inl, inr, Bool-cases, Option-cases, arith, ==→eq, Text, codes, text_eq, text_eq→eq,
}

pub data TokenId : Type 0 where
  native : TokenId
  classic : Text → Text → TokenId
  contract : Text → TokenId

abbrev pub native_name : Text
native_name = codes "native"

-- `s.split_once(':')`
unfoldable pub split_once : Text → Option (Text × Text)
split_once [] = none
split_once (c ∷ cs) =
    if c == b':'
    then some ([], cs)
    else elim (split_once cs) [ none ↦ none | some (before, after) ↦ some (c ∷ before, after) ]

unfoldable pub from_str_auto : Text → TokenId
unfolding split_once text_eq
from_str_auto s =
    if text_eq s native_name
    then native
    else elim (split_once s) [ some (code, issuer) ↦ classic code issuer | none ↦ contract s ]

unfoldable pub canonical : TokenId → Text
canonical native = native_name
canonical (classic code issuer) = code ++ b':' ∷ issuer
canonical (contract address) = address

-- A token whose parts stand for one token only: the code of an asset has no colon, and neither has
-- the address of a contract, which is not the name of the native asset either.
abbrev pub IsPlain : TokenId → Type 0
IsPlain native = Unit
IsPlain (classic code _) = split_once code ≡ none
IsPlain (contract address) = (split_once address ≡ none) × (text_eq address native_name ≡ false)

-- What is cut at the first colon is the text again when it is joined.
split_once-join :
    (s before after : Text) → split_once s ≡ some (before, after) → before ++ b':' ∷ after ≡ s
unfolding split_once
split_once-join [] before after h = cc
split_once-join (c ∷ cs) before after h = elim (Bool-cases (c == b':')) [
  | inl colon ↦ ground (arith, ==→eq c b':')
  | inr other ↦ elim (Option-cases (split_once cs)) [
    | inl stop ↦ ground arith
    | inr ((b, a), e) ↦ ground (arith, split_once-join cs b a e)
  ]
]

-- A text without a colon, then a colon, is cut there.
split_once-append :
    (code issuer : Text)
    → split_once code ≡ none
    → split_once (code ++ b':' ∷ issuer) ≡ some (code, issuer)
unfolding split_once
split_once-append [] issuer h = refl
split_once-append (c ∷ cs) issuer h = elim (Bool-cases (c == b':')) [
  | inl colon ↦ ground arith
  | inr other ↦ elim (Option-cases (split_once cs)) [
    | inl stop ↦ ground (arith, split_once-append cs issuer stop)
    | inr (cut, e) ↦ ground arith
  ]
]

canonical-from_str_auto : (s : Text) → canonical (from_str_auto s) ≡ s
unfolding canonical from_str_auto
canonical-from_str_auto s = elim (Bool-cases (text_eq s native_name)) [
  | inl named ↦ rw named (sym (text_eq→eq s native_name named))
  | inr other ↦ rw other (elim (Option-cases (split_once s)) [
    | inl whole ↦ rw whole
    | inr ((code, issuer), cut) ↦ rw cut (split_once-join s code issuer cut)
  ])
]

-- A text that is cut is not the name of the native asset.
not_native :
    (s : Text) (cut : Text × Text) → split_once s ≡ some cut → text_eq s native_name ≡ false
unfolding split_once
not_native s cut e = elim (Bool-cases (text_eq s native_name)) [
  | inl named ↦
      absurd (uncut (subst (λ t. split_once t ≡ some cut) (text_eq→eq s native_name named) e))
  | inr other ↦ other
]
  where
    uncut : split_once native_name ≡ some cut → ⊥
    uncut e = cc

from_str_auto-canonical : (t : TokenId) → IsPlain t → from_str_auto (canonical t) ≡ t
unfolding canonical from_str_auto
from_str_auto-canonical native p = refl
from_str_auto-canonical (classic code issuer) p =
    let cut = split_once-append code issuer p in
    rw (not_native (code ++ b':' ∷ issuer) (code, issuer) cut) (rw cut)
from_str_auto-canonical (contract address) (whole, other) = rw other (rw whole)

-- Reading a token and writing it are inverse to each other: every text is what the token read from
-- it writes, and a token that is plain is read from its own text and from no other.
pub token_round_trip :
    (s : Text) (t : TokenId)
    → IsPlain t
    → (canonical (from_str_auto s) ≡ s) × ((from_str_auto s ≡ t) ↔ (canonical t ≡ s))
token_round_trip s t p = (
  canonical-from_str_auto s,
  (λ e. rw (← e) (canonical-from_str_auto s), λ e. rw (← e) (from_str_auto-canonical t p)),
)

-- So plain tokens with one canonical form are one token.
pub canonical_injective :
    (t u : TokenId) → IsPlain t → IsPlain u → canonical t ≡ canonical u → t ≡ u
canonical_injective t u p q e =
    sym (from_str_auto-canonical t p) ∙ ap from_str_auto e ∙ from_str_auto-canonical u q
