-- ===== src/ApiServer/RateLimit/Partner.antt =====
-- The requests that carry a partner's key.
use stellar_dex_agg.Prelude.{
  ℕ, ◌≤◌, true, false, ◌&&◌, Bool-cases, if◌then◌else◌, Option, none, some, List, [], ◌∷◌, ◌++◌,
  ◌≡◌, refl, subst, inl, inr, Text, text_eq, text_eq→eq, text_eq_self, contains,
}
use stellar_dex_agg.ApiServer.RateLimit.{
  IpAddr, is_ip_rate_limit_exempt, RateLimitState, Request, too_many_of_partner, second, key_of,
  allow_now, check_ip, check_partner, check, is_partner_key, partner_keys_enabled,
  rate_limit_middleware, is_served,
}
use stellar_dex_agg.ApiServer.RateLimit.Window.{
  IsTracked, IsTracked-later, allow_now-IsTracked, allow_now-other,
}
use stellar_dex_agg.ApiServer.RateLimit.Requests.{is_key, uses_key, served_if, not_same}

module _ (bypass : List IpAddr) (keys : List Text) (key : Text)
    (is_partner : contains key keys ≡ true) where
  pub record PartnerInv (log : List ℕ) (s : RateLimitState) (latest : ℕ) : Type 0 where
    pub same_keys : s.partner_keys ≡ keys
    pub tracked : IsTracked text_eq text_eq→eq text_eq_self key 60 second log s.partner latest

  PartnerInv-later :
      (log : List ℕ) (s : RateLimitState) (latest now : ℕ)
      → latest ≤ now
      → PartnerInv log s latest
      → PartnerInv log s now
  PartnerInv-later log s latest now le h = record {
    same_keys = h.same_keys;
    tracked =
        IsTracked-later text_eq text_eq→eq text_eq_self key 60 second log s.partner latest now le
          h.tracked;
  }

  check_ip-PartnerInv :
      (log : List ℕ) (s : RateLimitState) (now : ℕ) (address : Option IpAddr)
      → PartnerInv log s now
      → PartnerInv log (check_ip bypass now address s).0 now
  unfolding check_ip
  check_ip-PartnerInv log s now none h = h
  check_ip-PartnerInv log s now (some a) h = elim (Bool-cases (is_ip_rate_limit_exempt bypass a)) [
    | inl exempt ↦ rw exempt h
    | inr limited ↦ rw limited (record { same_keys = h.same_keys; tracked = h.tracked })
  ]

  check_partner-PartnerInv :
      (log : List ℕ) (s : RateLimitState) (latest now : ℕ) (k : Text)
      → latest ≤ now
      → PartnerInv log s latest
      → PartnerInv
          (if text_eq key k && is_served (check_partner bypass now k s).1
            then log ++ now ∷ []
            else log)
          (check_partner bypass now k s).0
          now
  unfolding check_partner
  check_partner-PartnerInv log s latest now k le h = elim (Bool-cases (text_eq key k)) [
    | inl same ↦ rw same (
        rw (served_if too_many_of_partner refl _) (
          subst
            (λ x.
              PartnerInv (if (allow_now text_eq x now s.partner).1 then log ++ now ∷ [] else log)
                (record s { partner = (allow_now text_eq x now s.partner).0 }) now)
            (text_eq→eq key k same)
            (record {
              same_keys = h.same_keys;
              tracked =
                  allow_now-IsTracked text_eq text_eq→eq text_eq_self key 60 second log s.partner
                    latest now le h.tracked;
            })))
    | inr other ↦ rw other (record {
      same_keys = h.same_keys;
      tracked =
          allow_now-other text_eq text_eq→eq text_eq_self key k 60 second log s.partner latest now
            le other h.tracked;
    })
  ]

  check-PartnerInv :
      (log : List ℕ) (s : RateLimitState) (latest now : ℕ) (carried : Option Text)
      (address : Option IpAddr)
      → latest ≤ now
      → PartnerInv log s latest
      → PartnerInv
          (if is_key key carried && is_served (check bypass now carried address s).1
            then log ++ now ∷ []
            else log)
          (check bypass now carried address s).0
          now
  unfolding check is_partner_key
  check-PartnerInv log s latest now none address le h =
      check_ip-PartnerInv log s now address (PartnerInv-later log s latest now le h)
  check-PartnerInv log s latest now (some k) address le h =
      let later = PartnerInv-later log s latest now le h in
      elim (Bool-cases (contains k s.partner_keys)) [
        | inl partner ↦ rw partner (check_partner-PartnerInv log s latest now k le h)
        | inr stranger ↦
            let other : text_eq key k ≡ false =
              not_same key k keys is_partner
                (subst (λ ks. contains k ks ≡ false) h.same_keys stranger) in
            rw (stranger, other)
              (elim (Bool-cases (partner_keys_enabled s)) [
                | inl enabled ↦ rw enabled later
                | inr open_to_all ↦ rw open_to_all (check_ip-PartnerInv log s now address later)
              ])
      ]

  pub middleware-PartnerInv :
      (log : List ℕ) (s : RateLimitState) (latest now : ℕ) (request : Request)
      → latest ≤ now
      → PartnerInv log s latest
      → PartnerInv
          (if uses_key key request && is_served (rate_limit_middleware bypass now request s).1
            then log ++ now ∷ []
            else log)
          (rate_limit_middleware bypass now request s).0
          now
  unfolding rate_limit_middleware uses_key
  middleware-PartnerInv log s latest now request =
      check-PartnerInv log s latest now (key_of request.api_key) request.address
