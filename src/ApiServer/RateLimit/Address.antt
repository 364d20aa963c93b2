-- ===== src/ApiServer/RateLimit/Address.antt =====
-- The requests of an address without a partner's key.
use stellar_dex_agg.Prelude.{
  ℕ, ◌≤◌, Bool, true, false, ◌&&◌, Bool-cases, if◌then◌else◌, Option, none, some, List, [], ◌∷◌,
  ◌++◌, ◌≡◌, refl, sym, subst, inl, inr, Text, contains,
}
use stellar_dex_agg.ApiServer.RateLimit.{
  IpAddr, same_ip, is_ip_rate_limit_exempt, RateLimitState, Request, too_many_of_ip, second, key_of,
  check_ip, check_partner, check, is_partner_key, partner_keys_enabled, rate_limit_middleware,
  is_served,
}
use stellar_dex_agg.ApiServer.RateLimit.Window.{
  IsTracked, IsTracked-later, allow_now-IsTracked, allow_now-other,
}
use stellar_dex_agg.ApiServer.RateLimit.Requests.{
  is_address, is_stranger, is_anonymous_from, same_ip→eq, same_ip_self, served_if,
}

module _ (bypass : List IpAddr) (keys : List Text) (ip : IpAddr)
    (limited : is_ip_rate_limit_exempt bypass ip ≡ false) where
  pub record IpInv (log : List ℕ) (s : RateLimitState) (latest : ℕ) : Type 0 where
    pub same_keys : s.partner_keys ≡ keys
    pub tracked : IsTracked same_ip same_ip→eq same_ip_self ip 10 second log s.ip latest

  IpInv-later :
      (log : List ℕ) (s : RateLimitState) (latest now : ℕ)
      → latest ≤ now
      → IpInv log s latest
      → IpInv log s now
  IpInv-later log s latest now le h = record {
    same_keys = h.same_keys;
    tracked =
        IsTracked-later same_ip same_ip→eq same_ip_self ip 10 second log s.ip latest now le
          h.tracked;
  }

  -- A request that is counted, or one that is not because it comes from elsewhere.
  check_ip-IpInv :
      (log : List ℕ) (s : RateLimitState) (latest now : ℕ) (address : Option IpAddr)
      → latest ≤ now
      → IpInv log s latest
      → IpInv
          (if is_address ip address && is_served (check_ip bypass now address s).1
            then log ++ now ∷ []
            else log)
          (check_ip bypass now address s).0
          now
  unfolding check_ip
  check_ip-IpInv log s latest now none le h = IpInv-later log s latest now le h
  check_ip-IpInv log s latest now (some a) le h = elim (Bool-cases (same_ip ip a)) [
    | inl same ↦
        let e = same_ip→eq ip a same in
        rw same (
          subst
            (λ x.
              IpInv (if is_served (check_ip bypass now (some x) s).1 then log ++ now ∷ [] else log)
                (check_ip bypass now (some x) s).0 now)
            e
            (rw limited (
              rw (served_if too_many_of_ip refl _) (record {
                same_keys = h.same_keys;
                tracked =
                    allow_now-IsTracked same_ip same_ip→eq same_ip_self ip 10 second log s.ip latest
                      now le h.tracked;
              }))))
    | inr other ↦ rw other (elim (Bool-cases (is_ip_rate_limit_exempt bypass a)) [
      | inl exempt ↦ rw exempt (IpInv-later log s latest now le h)
      | inr counted ↦ rw counted (record {
        same_keys = h.same_keys;
        tracked =
            allow_now-other same_ip same_ip→eq same_ip_self ip a 10 second log s.ip latest now le
              other h.tracked;
      })
    ])
  ]

  check_partner-IpInv :
      (log : List ℕ) (s : RateLimitState) (now : ℕ) (k : Text)
      → IpInv log s now
      → IpInv log (check_partner bypass now k s).0 now
  unfolding check_partner
  check_partner-IpInv log s now k h = record { same_keys = h.same_keys; tracked = h.tracked }

  check-IpInv :
      (log : List ℕ) (s : RateLimitState) (latest now : ℕ) (carried : Option Text)
      (address : Option IpAddr)
      → latest ≤ now
      → IpInv log s latest
      → IpInv
          (if (is_stranger keys carried && is_address ip address)
              && is_served (check bypass now carried address s).1
            then log ++ now ∷ []
            else log)
          (check bypass now carried address s).0
          now
  unfolding check is_partner_key
  check-IpInv log s latest now none address le h = check_ip-IpInv log s latest now address le h
  check-IpInv log s latest now (some k) address le h =
      let later = IpInv-later log s latest now le h in
      elim (Bool-cases (contains k keys)) [
        | inl partner ↦
            rw (partner, sym (subst (λ ks. true ≡ contains k ks) (sym h.same_keys) (sym partner)))
              (check_partner-IpInv log s now k later)
        | inr stranger ↦
            rw
              (stranger, sym (subst (λ ks. false ≡ contains k ks) (sym h.same_keys) (sym stranger)))
              (elim (Bool-cases (partner_keys_enabled s)) [
                | inl enabled ↦ rw enabled (never (is_address ip address) log s now later)
                | inr open_to_all ↦ rw open_to_all (check_ip-IpInv log s latest now address le h)
              ])
      ]
    where
      never :
          (b : Bool) (log : List ℕ) (s : RateLimitState) (now : ℕ)
          → IpInv log s now
          → IpInv (if b && false then log ++ now ∷ [] else log) s now
      never true log s now h = h
      never false log s now h = h

  pub middleware-IpInv :
      (log : List ℕ) (s : RateLimitState) (latest now : ℕ) (request : Request)
      → latest ≤ now
      → IpInv log s latest
      → IpInv
          (if is_anonymous_from keys ip request
              && is_served (rate_limit_middleware bypass now request s).1
            then log ++ now ∷ []
            else log)
          (rate_limit_middleware bypass now request s).0
          now
  unfolding rate_limit_middleware is_anonymous_from
  middleware-IpInv log s latest now request =
      check-IpInv log s latest now (key_of request.api_key) request.address
