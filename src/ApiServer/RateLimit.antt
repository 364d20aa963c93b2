-- ===== src/ApiServer/RateLimit.antt =====
-- crates/api-server/src/rate_limit.rs. Times are nanoseconds of the monotonic clock.
pub mod Window
pub mod Requests
pub mod Partner
pub mod Address
pub mod Middleware
use stellar_dex_agg.Prelude.{
  ℕ, ◌+◌, ◌-◌, ◌/◌, Bool, true, false, not, ◌&&◌, ◌||◌, leb, ◌==◌, if◌then◌else◌, Option, none,
  some, List, [], ◌∷◌, ◌++◌, Text, text_eq, contains, length,
}

-- `HashMap<K, VecDeque<Instant>>`
abbrev pub Store : Type 0 → Type 0
Store K = List (K × List ℕ)

pub record SlidingWindowLimiter (K : Type 0) : Type 0 where
  pub inner : Store K
  pub limit : ℕ
  pub window : ℕ

module _ {K : Type 0} where
  abbrev pub new_limiter : ℕ → ℕ → SlidingWindowLimiter K
  new_limiter limit window = record { inner = []; limit = limit; window = window }

-- the `while let` loop; `duration_since` is zero for a later time
unfoldable pub drop_expired : ℕ → ℕ → List ℕ → List ℕ
drop_expired window now [] = []
drop_expired window now (ts ∷ entries) =
    let rest = drop_expired window now entries in
    if leb window (now - ts) then rest else ts ∷ entries

-- `same` compares two keys.
module _ {K : Type 0} (same : K → K → Bool) where
  -- `store.entry(key).or_default()`, as it is read and as it is written
  unfoldable pub entries_of : K → Store K → List ℕ
  entries_of key [] = []
  entries_of key ((k, entries) ∷ rest) =
      let others = entries_of key rest in if same key k then entries else others

  unfoldable pub put_entries : K → List ℕ → Store K → Store K
  put_entries key new [] = (key, new) ∷ []
  put_entries key new ((k, entries) ∷ rest) =
      let others = put_entries key new rest in
      if same key k then (k, new) ∷ rest else (k, entries) ∷ others

  abbrev pub with_entries : K → List ℕ → SlidingWindowLimiter K → SlidingWindowLimiter K
  with_entries key entries l = record l { inner = put_entries key entries l.inner }

  unfoldable pub allow_now : K → ℕ → SlidingWindowLimiter K → SlidingWindowLimiter K × Bool
  allow_now key now l =
      let entries = drop_expired l.window now (entries_of key l.inner) in
      if leb l.limit (length entries)
      then (with_entries key entries l, false)
      else (with_entries key (entries ++ now ∷ []) l, true)

-- `IpAddr`, by its 32 or 128 bits
pub data IpAddr : Type 0 where
  v4 v6 : ℕ → IpAddr

unfoldable pub same_ip : IpAddr → IpAddr → Bool
same_ip (v4 a) (v4 b) = a == b
same_ip (v6 a) (v6 b) = a == b
same_ip _ _ = false

-- 127.0.0.0/8 and ::1
abbrev pub is_loopback : IpAddr → Bool
is_loopback (v4 a) = a / 16_777_216 == 127
is_loopback (v6 a) = a == 1

unfoldable pub contains_ip : IpAddr → List IpAddr → Bool
contains_ip ip [] = false
contains_ip ip (x ∷ xs) = same_ip ip x || contains_ip ip xs

-- `bypass` is what `parse_rate_limit_bypass_ips_from_env` reads, once, from the environment.
unfoldable pub is_ip_rate_limit_exempt : List IpAddr → IpAddr → Bool
is_ip_rate_limit_exempt bypass ip = if is_loopback ip then true else contains_ip ip bypass

pub record RateLimitState : Type 0 where
  pub ip : SlidingWindowLimiter IpAddr
  pub partner : SlidingWindowLimiter Text
  -- a set
  pub partner_keys : List Text

abbrev pub second : ℕ
second = 1_000_000_000

-- `char::is_whitespace`, which `str::trim` cuts off: the White_Space of Unicode
unfoldable pub is_blank : ℕ → Bool
is_blank c =
    (leb 9 c && leb c 13)
    || c == 0x20
    || c == 0x85
    || c == 0xa0
    || c == 0x1680
    || (leb 0x2000 c && leb c 0x200a)
    || c == 0x2028
    || c == 0x2029
    || c == 0x202f
    || c == 0x205f
    || c == 0x3000

unfoldable pub trim_start : Text → Text
trim_start [] = []
trim_start (c ∷ cs) = let rest = trim_start cs in if is_blank c then rest else c ∷ cs

unfoldable pub trim_end : Text → Text
trim_end [] = []
trim_end (c ∷ cs) = elim (trim_end cs) [
  | [] ↦ if is_blank c then [] else c ∷ []
  | d ∷ ds ↦ c ∷ d ∷ ds
]

unfoldable pub trim : Text → Text
unfolding trim_start trim_end is_blank
trim s = trim_end (trim_start s)

-- `split(',')`: what stands before the first comma, and the rest
unfoldable pub split_commas : Text → Text × List Text
split_commas [] = ([], [])
split_commas (c ∷ cs) =
    let (first, rest) = split_commas cs in
    if c == b',' then ([], first ∷ rest) else (c ∷ first, rest)

unfoldable pub non_empty_trimmed : List Text → List Text
non_empty_trimmed [] = []
non_empty_trimmed (s ∷ rest) =
    let others = non_empty_trimmed rest in
    elim (trim s) [ [] ↦ others | c ∷ cs ↦ (c ∷ cs) ∷ others ]

-- `variable` is the value of LUMAGG_PARTNER_API_KEYS.
unfoldable pub from_env : Text → RateLimitState
unfolding split_commas non_empty_trimmed
from_env variable =
    let (first, rest) = split_commas variable in
    record {
      ip = new_limiter 10 second;
      partner = new_limiter 60 second;
      partner_keys = non_empty_trimmed (first ∷ rest);
    }

unfoldable pub is_partner_key : RateLimitState → Text → Bool
is_partner_key s key = contains key s.partner_keys

unfoldable pub partner_keys_enabled : RateLimitState → Bool
partner_keys_enabled s = elim s.partner_keys [ [] ↦ false | _ ∷ _ ↦ true ]

-- What the middleware reads of a request: the header X-API-Key, if it is readable text, and the address
-- that the request comes from.
pub record Request : Type 0 where
  pub api_key : Option Text
  pub address : Option IpAddr

pub data Verdict : Type 0 where
  served unauthorized too_many_of_partner too_many_of_ip : Verdict

-- the header's value, trimmed and not empty
unfoldable pub key_of : Option Text → Option Text
key_of none = none
key_of (some value) = elim (trim value) [ [] ↦ none | c ∷ cs ↦ some (c ∷ cs) ]

module _ (bypass : List IpAddr) (now : ℕ) where
  -- the second half, for a request without a key, or with one that is not looked at
  unfoldable pub check_ip : Option IpAddr → RateLimitState → RateLimitState × Verdict
  check_ip none s = (s, served)
  check_ip (some ip) s =
      if is_ip_rate_limit_exempt bypass ip
      then (s, served)
      else let (limiter, allowed) = allow_now same_ip ip now s.ip in
        (record s { ip = limiter }, if allowed then served else too_many_of_ip)

  unfoldable pub check_partner : Text → RateLimitState → RateLimitState × Verdict
  check_partner key s =
      let (limiter, allowed) = allow_now text_eq key now s.partner in
      (record s { partner = limiter }, if allowed then served else too_many_of_partner)

  -- by the key of a request and the address that it comes from
  unfoldable pub check : Option Text → Option IpAddr → RateLimitState → RateLimitState × Verdict
  check none address s = check_ip address s
  check (some key) address s =
      if is_partner_key s key
      then check_partner key s
      else if partner_keys_enabled s
      then (s, unauthorized)
      else check_ip address s

  unfoldable pub rate_limit_middleware : Request → RateLimitState → RateLimitState × Verdict
  rate_limit_middleware request s = check (key_of request.api_key) request.address s

-- Whether the request is served, by the verdict.
abbrev pub is_served : Verdict → Bool
is_served served = true
is_served _ = false

-- The times at which requests of a kind are served, when they come one after another.
unfoldable pub served_at :
    List IpAddr → (Request → Bool) → List (ℕ × Request) → RateLimitState → List ℕ
served_at bypass counts [] s = []
served_at bypass counts ((now, request) ∷ requests) s =
    let (next, verdict) = rate_limit_middleware bypass now request s in
    let rest = served_at bypass counts requests next in
    if counts request && is_served verdict then now ∷ rest else rest
