-- ===== src/Tests/RateLimit.antt =====
-- Two requests of a partner and one without a key.
use stellar_dex_agg.Prelude.{
  ℕ, ◌≤◌, true, false, none, some, List, [], ◌∷◌, ◌≡◌, refl, Text, codes, text_eq, contains, arith,
}
use stellar_dex_agg.ApiServer.RateLimit.{
  IpAddr, v4, contains_ip, is_ip_rate_limit_exempt, Request, second, key_of, trim, trim_start,
  trim_end, is_blank, is_partner_key, from_env, split_commas, non_empty_trimmed, served_at,
  rate_limit_middleware, check, check_ip, check_partner, allow_now, entries_of, put_entries,
  drop_expired,
}
use stellar_dex_agg.ApiServer.RateLimit.Window.{count_within}
use stellar_dex_agg.ApiServer.RateLimit.Requests.{uses_key, is_anonymous_from}
use stellar_dex_agg.ApiServer.RateLimit.Middleware.{served_bounded}

abbrev keys : Text
keys = codes "key-a, key-b"

abbrev ip : IpAddr
ip = v4 134_744_072

abbrev requests : List (ℕ × Request)
requests =
    (10, record { api_key = some (codes " key-b"); address = some ip })
    ∷ (20, record { api_key = none; address = some ip })
    ∷ (1_000_000_015, record { api_key = some (codes "key-b"); address = none })
    ∷ []

key_known : is_partner_key (from_env keys) (codes "key-b") ≡ true
unfolding is_partner_key from_env split_commas non_empty_trimmed trim trim_start trim_end is_blank
    contains text_eq
key_known = refl

limited : is_ip_rate_limit_exempt [] ip ≡ false
unfolding is_ip_rate_limit_exempt contains_ip
limited = refl

partner_served :
    served_at [] (uses_key (codes "key-b")) requests (from_env keys) ≡ 10 ∷ 1_000_000_015 ∷ []
unfolding served_at uses_key rate_limit_middleware check check_ip check_partner allow_now entries_of
    put_entries drop_expired is_ip_rate_limit_exempt contains_ip key_of is_partner_key from_env
    split_commas non_empty_trimmed trim trim_start trim_end is_blank contains text_eq
partner_served = refl

served_bounded_example :
    (count_within 10 second (served_at [] (uses_key (codes "key-b")) requests (from_env keys)) ≤ 60)
    × (count_within 10 second (
          served_at [] (is_anonymous_from (from_env keys).partner_keys ip) requests (from_env keys))
        ≤ 10)
served_bounded_example =
    served_bounded [] keys (codes "key-b") ip requests 10 key_known limited (omega arith)
