-- ===== src/Network/Limiter.antt =====
-- ratelimit.go: login attempts are limited by address and by user name. A time is a number of
-- nanoseconds; limits that are 0 or below are 0 here.
pub mod Window
use buat_postingan.Base.{
  ℕ, ◌+◌, ◌-◌, ◌*◌, ◌/◌, String, Bool, true, false, Option, none, some, List, [], ◌∷◌, ◌++◌, ltb,
  leb, ◌==◌, str_eq, is_empty, trim_space, length, if◌then◌else◌,
}

-- `map[string][]time.Time`, its keys in some order
abbrev pub Hits : Type 0
Hits = List (String × List ℕ)

-- `m[k]`, which is nil for a missing key
unfoldable pub hits_of : Hits → String → List ℕ
hits_of [] k = []
hits_of (e ∷ m) k = if str_eq e.0 k then e.1 else hits_of m k

-- `m[k] = hits`
unfoldable pub store : Hits → String → List ℕ → Hits
store [] k hits = (k, hits) ∷ []
store (e ∷ m) k hits = let rest = store m k hits in if str_eq e.0 k then (k, hits) ∷ m else e ∷ rest

-- `delete(m, k)`
unfoldable pub delete : Hits → String → Hits
delete [] k = []
delete (e ∷ m) k = let rest = delete m k in if str_eq e.0 k then rest else e ∷ rest

-- `LoginLimiter`
pub record LoginLimiter : Type 0 where
  pub ip_max : ℕ
  pub user_max : ℕ
  pub window : ℕ
  pub ip_hits : Hits
  pub user_hits : Hits

abbrev pub second : ℕ
second = 1000000000

abbrev pub max_login_limiter_keys : ℕ
max_login_limiter_keys = 10000

-- `NewLoginLimiterWith`
unfoldable pub new_login_limiter_with : ℕ → ℕ → ℕ → LoginLimiter
new_login_limiter_with ip_max user_max window = record {
  ip_max = if ip_max == 0 then 20 else ip_max;
  user_max = if user_max == 0 then 5 else user_max;
  window = if window == 0 then 15 * 60 * second else window;
  ip_hits = [];
  user_hits = [];
}

-- `pruneHits`: the hits from the first one after `now - window` on
unfoldable pub prune_hits : ℕ → ℕ → List ℕ → List ℕ
prune_hits window now [] = []
prune_hits window now (hit ∷ hits) =
    let rest = prune_hits window now hits in if leb (hit + window) now then rest else hit ∷ hits

-- `retryAfterFrom`, with `Round` to a second
unfoldable pub retry_after_from : ℕ → ℕ → ℕ → ℕ
retry_after_from oldest window now =
    let until = oldest + window - now in
    if ltb until second then second else (until + 500000000) / second * second

-- an entry without hits is deleted
abbrev pub keep : Hits → String → List ℕ → Hits
keep m k [] = delete m k
keep m k (hit ∷ hits) = store m k (hit ∷ hits)

abbrev pub oldest_of : List ℕ → ℕ
oldest_of [] = 0
oldest_of (hit ∷ hits) = hit

abbrev pub kept_entry : String → List ℕ → Hits → Hits
kept_entry k [] rest = rest
kept_entry k (hit ∷ hits) rest = (k, hit ∷ hits) ∷ rest

-- the loop of `gcLocked` over one map
unfoldable pub pruned : ℕ → ℕ → Hits → Hits
unfolding prune_hits
pruned window now [] = []
pruned window now (e ∷ m) = kept_entry e.0 (prune_hits window now e.1) (pruned window now m)

-- `gcLocked`
unfoldable pub gc : ℕ → LoginLimiter → LoginLimiter
unfolding pruned
gc now l =
    if ltb (length l.ip_hits + length l.user_hits) max_login_limiter_keys then l else record l {
      ip_hits = pruned l.window now l.ip_hits;
      user_hits = pruned l.window now l.user_hits;
    }

-- `m[k] = append(pruneHits(m[k], cutoff), now)`
abbrev pub failed_at : ℕ → ℕ → String → Hits → Hits
failed_at window now k m = store m k (prune_hits window now (hits_of m k) ++ now ∷ [])

-- `net.SplitHostPort` and `strings.ToLower`
module _ (split_host_port : String → Option String) (lower : String → String) where
  abbrev host_or : Option String → String → String
  host_or none ip = ip
  host_or (some host) ip = host

  -- `NormalizeIP`
  unfoldable pub normalize_ip : String → String
  normalize_ip raw =
      let ip = trim_space raw in if is_empty ip then "unknown" else host_or (split_host_port ip) ip

  abbrev pub user_key : String → String
  user_key username = lower (trim_space username)

  -- What `Allow` does to the tables.
  unfoldable pub refreshed : ℕ → String → String → LoginLimiter → LoginLimiter
  unfolding prune_hits
  refreshed now ip user l = record l {
    ip_hits = keep l.ip_hits ip (prune_hits l.window now (hits_of l.ip_hits ip));
    user_hits =
        if is_empty user
        then l.user_hits
        else keep l.user_hits user (prune_hits l.window now (hits_of l.user_hits user));
  }

  -- `Allow`: the answer, the time to wait and the tables
  unfoldable pub allow : ℕ → String → String → LoginLimiter → (Bool × ℕ) × LoginLimiter
  unfolding refreshed
  allow now ip_raw username l =
      let ip = normalize_ip ip_raw in
      let user = user_key username in
      let l' = refreshed now ip user l in
      let ip_hits = prune_hits l.window now (hits_of l.ip_hits ip) in
      let user_hits = hits_of l'.user_hits user in
      if leb l.ip_max (length ip_hits)
      then ((false, retry_after_from (oldest_of ip_hits) l.window now), l')
      else if is_empty user
      then ((true, 0), l')
      else if leb l.user_max (length user_hits)
      then ((false, retry_after_from (oldest_of user_hits) l.window now), l')
      else ((true, 0), l')

  -- `RecordFailure`
  unfoldable pub record_failure : ℕ → String → String → LoginLimiter → LoginLimiter
  unfolding gc
  record_failure now ip_raw username l =
      let ip = normalize_ip ip_raw in
      let user = user_key username in
      let l' = gc now l in
      record l' {
        ip_hits = failed_at l.window now ip l'.ip_hits;
        user_hits =
            if is_empty user then l'.user_hits else failed_at l.window now user l'.user_hits;
      }

  -- `ClearUser`
  unfoldable pub clear_user : String → LoginLimiter → LoginLimiter
  clear_user username l = record l { user_hits = delete l.user_hits (user_key username) }
