-- ===== src/ApiServer/RateLimit/Middleware.antt =====
-- How many requests the middleware serves.
use stellar_dex_agg.Prelude.{
  ℕ, ◌≤◌, Bool, true, false, List, [], ◌≡◌, refl, Text, text_eq, text_eq→eq, text_eq_self,
}
use stellar_dex_agg.ApiServer.RateLimit.{
  IpAddr, same_ip, is_ip_rate_limit_exempt, Request, second, new_limiter, entries_of,
  is_partner_key, served_at, from_env,
}
use stellar_dex_agg.ApiServer.RateLimit.Window.{count_within, Tracks-none, IsTracked}
use stellar_dex_agg.ApiServer.RateLimit.Requests.{
  IsOrdered, uses_key, is_anonymous_from, same_ip→eq, same_ip_self, served_rule,
}
use stellar_dex_agg.ApiServer.RateLimit.Partner.{PartnerInv, middleware-PartnerInv}
use stellar_dex_agg.ApiServer.RateLimit.Address.{IpInv, middleware-IpInv}

IsTracked-new :
    {K : Type 0} (same : K → K → Bool) (same→eq : (a b : K) → same a b ≡ true → a ≡ b)
    (same_self : (a : K) → same a a ≡ true) (key : K) (limit : ℕ)
    → IsTracked same same→eq same_self key limit second [] (new_limiter limit second) 0
unfolding entries_of
IsTracked-new same same→eq same_self key limit = record {
  same_limit = refl;
  same_window = refl;
  tracks = Tracks-none limit second;
}

-- From the start, whatever requests come in the order of their times: in no second are more than 60
-- requests served that carry a given key of a partner, nor more than 10 that come from a given address,
-- if it is not exempt, without a partner's key.
pub served_bounded :
    (bypass : List IpAddr) (variable : Text) (key : Text) (ip : IpAddr)
    (requests : List (ℕ × Request)) (from : ℕ)
    → is_partner_key (from_env variable) key ≡ true
    → is_ip_rate_limit_exempt bypass ip ≡ false
    → IsOrdered 0 requests
    → (count_within from second (served_at bypass (uses_key key) requests (from_env variable)) ≤ 60)
      × (count_within from second (
            served_at bypass
              (is_anonymous_from (from_env variable).partner_keys ip)
              requests
              (from_env variable))
          ≤ 10)
unfolding is_partner_key from_env
served_bounded bypass variable key ip requests from partner limited ordered =
    let keys = (from_env variable).partner_keys in
    let (s, t, by_key) =
      served_rule bypass (uses_key key) (PartnerInv bypass keys key partner)
        (middleware-PartnerInv bypass keys key partner) [] (from_env variable) 0 requests ordered
        (record {
          same_keys = refl;
          tracked = IsTracked-new text_eq text_eq→eq text_eq_self key 60;
        }) in
    let (s', t', by_ip) =
      served_rule bypass (is_anonymous_from keys ip) (IpInv bypass keys ip limited)
        (middleware-IpInv bypass keys ip limited) [] (from_env variable) 0 requests ordered
        (record {
          same_keys = refl;
          tracked = IsTracked-new same_ip same_ip→eq same_ip_self ip 10;
        }) in
    (by_key.tracked.tracks.within from, by_ip.tracked.tracks.within from)
