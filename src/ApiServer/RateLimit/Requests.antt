-- ===== src/ApiServer/RateLimit/Requests.antt =====
-- The requests that are counted, and the rule for a row of requests.
use stellar_dex_agg.Prelude.{
  ℕ, ◌≤◌, Bool, true, false, not, ◌&&◌, Bool-cases, if◌then◌else◌, Option, none, some, List, [],
  ◌∷◌, ◌++◌, ◌≡◌, refl, ap, subst, inl, inr, arith, ==→eq, ==_self, Text, text_eq, text_eq→eq,
  contains, append_one, append-nil,
}
use stellar_dex_agg.ApiServer.RateLimit.{
  IpAddr, v4, v6, same_ip, RateLimitState, Request, Verdict, served, key_of, rate_limit_middleware,
  is_served, served_at,
}

-- The times do not go back.
abbrev pub IsOrdered : ℕ → List (ℕ × Request) → Type 0
IsOrdered latest [] = Unit
IsOrdered latest ((now, _) ∷ requests) = (latest ≤ now) × IsOrdered now requests

abbrev pub is_key : Text → Option Text → Bool
is_key key none = false
is_key key (some k) = text_eq key k

-- The request carries this key.
unfoldable pub uses_key : Text → Request → Bool
uses_key key request = is_key key (key_of request.api_key)

abbrev pub is_address : IpAddr → Option IpAddr → Bool
is_address ip none = false
is_address ip (some a) = same_ip ip a

abbrev pub is_stranger : List Text → Option Text → Bool
is_stranger partner_keys none = true
is_stranger partner_keys (some k) = not (contains k partner_keys)

-- The request comes from this address and carries no partner's key.
unfoldable pub is_anonymous_from : List Text → IpAddr → Request → Bool
is_anonymous_from partner_keys ip request =
    is_stranger partner_keys (key_of request.api_key) && is_address ip request.address

pub same_ip→eq : (a b : IpAddr) → same_ip a b ≡ true → a ≡ b
unfolding same_ip
same_ip→eq (v4 a) (v4 b) h = ap v4 (==→eq a b h)
same_ip→eq (v6 a) (v6 b) h = ap v6 (==→eq a b h)
same_ip→eq (v4 a) (v6 b) h = cc
same_ip→eq (v6 a) (v4 b) h = cc

pub same_ip_self : (a : IpAddr) → same_ip a a ≡ true
unfolding same_ip
same_ip_self (v4 a) = ==_self a
same_ip_self (v6 a) = ==_self a

module _ (bypass : List IpAddr) (counts : Request → Bool) (P : List ℕ → RateLimitState → ℕ → Type 0)
    (step : (log : List ℕ) (s : RateLimitState) (latest now : ℕ) (request : Request)
      → latest ≤ now
      → P log s latest
      → P
          (if counts request && is_served (rate_limit_middleware bypass now request s).1
            then log ++ now ∷ []
            else log)
          (rate_limit_middleware bypass now request s).0
          now) where
  pub served_rule :
      (log : List ℕ) (s : RateLimitState) (latest : ℕ) (requests : List (ℕ × Request))
      → IsOrdered latest requests
      → P log s latest
      → (s' : RateLimitState) × (latest' : ℕ) × P
          (log ++ served_at bypass counts requests s)
          s'
          latest'
  unfolding served_at
  served_rule log s latest [] o p = (s, latest, rw (append-nil log) p)
  served_rule log s latest ((now, request) ∷ requests) (le, o) p =
      let (next, verdict) = rate_limit_middleware bypass now request s in
      let q = step log s latest now request le p in
      elim (Bool-cases (counts request && is_served verdict)) [
        | inl counted ↦ rw counted (
            rw (← append_one log now (served_at bypass counts requests next))
              (served_rule (log ++ now ∷ []) next now requests o (rw counted at q)))
        | inr not_counted ↦
            rw not_counted (served_rule log next now requests o (rw not_counted at q))
      ]

pub served_if :
    (refused : Verdict)
    → is_served refused ≡ false
    → (b : Bool) → is_served (if b then served else refused) ≡ b
served_if refused e true = refl
served_if refused e false = e

pub not_same :
    (a b : Text) (xs : List Text)
    → contains a xs ≡ true
    → contains b xs ≡ false
    → text_eq a b ≡ false
not_same a b xs within out = elim (Bool-cases (text_eq a b)) [
  | inl same ↦
      let e = subst (λ z. contains z xs ≡ true) (text_eq→eq a b same) within in
      absurd (ground arith)
  | inr other ↦ other
]
