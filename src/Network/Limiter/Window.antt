-- ===== src/Network/Limiter/Window.antt =====
-- ratelimit.go: the hits as counts in a sliding window.
use buat_postingan.Base.{
  ℕ, ◌+◌, ◌≤◌, ◌<◌, String, ◌≡◌, refl, ◌∙◌, not, ◌&&◌, ◌||◌, List, [], ◌∷◌, ltb, leb, str_eq,
  eq_iff, eq_refl, is_empty, length, arith, Option, Bool-cases, inl, inr, All, if◌then◌else◌, ◌++◌,
}
use buat_postingan.Network.Limiter.{
  Hits, LoginLimiter, hits_of, store, delete, keep, prune_hits, pruned, kept_entry, failed_at, gc,
  refreshed, allow, normalize_ip, user_key, record_failure,
}

-- The number of hits that are in the window.
unfoldable pub live_count : ℕ → ℕ → List ℕ → ℕ
live_count window now [] = 0
live_count window now (hit ∷ hits) =
    let rest = live_count window now hits in if ltb now (hit + window) then 1 + rest else rest

-- The hits stand in the order of their times.
unfoldable pub IsRising : List ℕ → Type 0
IsRising [] = Unit
IsRising (hit ∷ hits) = All (λ later. hit ≤ later) hits × IsRising hits

live_count-All :
    (window now : ℕ) (hits : List ℕ)
    → All (λ hit. now < hit + window) hits
    → live_count window now hits ≡ length hits
unfolding live_count
live_count-All window now [] h = refl
live_count-All window now (hit ∷ hits) h = ground (arith, live_count-All window now hits h.1)

All-later :
    (window now hit : ℕ) (hits : List ℕ)
    → now < hit + window
    → All (λ later. hit ≤ later) hits
    → All (λ later. now < later + window) hits
All-later window now hit [] h later = tt
All-later window now hit (x ∷ hits) h later =
    (omega (arith, later.0), All-later window now hit hits h later.1)

-- Pruning a list in order leaves as many hits as are in the window.
length-prune_hits :
    (window now : ℕ) (hits : List ℕ)
    → IsRising hits
    → length (prune_hits window now hits) ≡ live_count window now hits
unfolding prune_hits live_count IsRising
length-prune_hits window now [] h = refl
length-prune_hits window now (hit ∷ hits) h = elim (Bool-cases (leb (hit + window) now)) [
  | inl old ↦ ground (arith, length-prune_hits window now hits h.1)
  | inr live ↦
      let below : now < hit + window = ground arith in
      ground (arith, live_count-All window now hits (All-later window now hit hits below h.0))
]

hits_of-store :
    (m : Hits) (k j : String) (hits : List ℕ)
    → hits_of (store m k hits) j ≡ (if str_eq k j then hits else hits_of m j)
unfolding hits_of store
hits_of-store [] k j hits = refl
hits_of-store (e ∷ m) k j hits =
    ground (arith, hits_of-store m k j hits, eq_iff e.0 k, eq_iff e.0 j, eq_iff k j)

hits_of-delete :
    (m : Hits) (k j : String) → hits_of (delete m k) j ≡ (if str_eq k j then [] else hits_of m j)
unfolding hits_of delete
hits_of-delete [] k j = ground arith
hits_of-delete (e ∷ m) k j =
    ground (arith, hits_of-delete m k j, eq_iff e.0 k, eq_iff e.0 j, eq_iff k j)

hits_of-keep :
    (m : Hits) (k j : String) (hits : List ℕ)
    → hits_of (keep m k hits) j ≡ (if str_eq k j then hits else hits_of m j)
hits_of-keep m k j [] = hits_of-delete m k j
hits_of-keep m k j (hit ∷ hits) = hits_of-store m k j (hit ∷ hits)

live_count-append :
    (window at hit : ℕ) (hits : List ℕ)
    → live_count window at (hits ++ hit ∷ [])
      ≡ live_count window at hits + (if ltb at (hit + window) then 1 else 0)
unfolding live_count
live_count-append window at hit [] = ground arith
live_count-append window at hit (x ∷ hits) = ground (arith, live_count-append window at hit hits)

-- Pruning drops no hit that is in the window, now or later.
live_count-prune_hits :
    (window now at : ℕ) (hits : List ℕ)
    → now ≤ at
    → live_count window at (prune_hits window now hits) ≡ live_count window at hits
unfolding live_count prune_hits
live_count-prune_hits window now at [] h = refl
live_count-prune_hits window now at (hit ∷ hits) h =
    ground (arith, live_count-prune_hits window now at hits h)

-- A key has no second entry with hits.
unfoldable pub IsUnique : Hits → Type 0
IsUnique [] = Unit
IsUnique (e ∷ m) = (hits_of m e.0 ≡ []) × IsUnique m

hits_of-kept_entry :
    (k j : String) (hits : List ℕ) (rest : Hits)
    → hits_of rest k ≡ []
    → hits_of (kept_entry k hits rest) j ≡ (if str_eq k j then hits else hits_of rest j)
unfolding hits_of
hits_of-kept_entry k j [] rest h = ground (arith, eq_iff k j)
hits_of-kept_entry k j (hit ∷ hits) rest h = refl

hits_of-pruned :
    (window now : ℕ) (m : Hits) (j : String)
    → IsUnique m
    → hits_of (pruned window now m) j ≡ prune_hits window now (hits_of m j)
unfolding hits_of pruned prune_hits IsUnique
hits_of-pruned window now [] j h = refl
hits_of-pruned window now (e ∷ m) j h =
    let gone : prune_hits window now (hits_of m e.0) ≡ [] = rw (h.0) in
    hits_of-kept_entry e.0 j (prune_hits window now e.1) (pruned window now m)
      (hits_of-pruned window now m e.0 h.1 ∙ gone)
    ∙ ground (arith, hits_of-pruned window now m j h.1)

module _ (split_host_port : String → Option String) (lower : String → String)
    (l : LoginLimiter) where
  -- When the hits of the address and of the user stand in the order of their times, `Allow` lets an
  -- attempt through exactly when fewer hits than the limit are in the window, for the address and,
  -- if there is a name, for the user.
  pub allow-live_count :
      (now : ℕ) (ip_raw username : String)
      → IsRising (hits_of l.ip_hits (normalize_ip split_host_port lower ip_raw))
      → IsRising (hits_of l.user_hits (user_key split_host_port lower username))
      → (allow split_host_port lower now ip_raw username l).0.0 ≡ (
          ltb
            (live_count l.window now
              (hits_of l.ip_hits (normalize_ip split_host_port lower ip_raw)))
            l.ip_max
          && (is_empty (user_key split_host_port lower username)
              || ltb
                  (live_count l.window now
                    (hits_of l.user_hits (user_key split_host_port lower username)))
                  l.user_max))
  unfolding allow refreshed
  allow-live_count now ip_raw username ips users =
      let ip = normalize_ip split_host_port lower ip_raw in
      let user = user_key split_host_port lower username in
      ground (
        arith,
        length-prune_hits l.window now (hits_of l.ip_hits ip) ips,
        length-prune_hits l.window now (hits_of l.user_hits user) users,
        hits_of-keep l.user_hits user user (prune_hits l.window now (hits_of l.user_hits user)),
        eq_refl user,
      )

failed_at-live_count :
    (window now at : ℕ) (m : Hits) (k j : String)
    → now ≤ at
    → live_count window at (hits_of (failed_at window now k m) j)
      ≡ live_count window at (hits_of m j) + (if str_eq k j && ltb at (now + window) then 1 else 0)
failed_at-live_count window now at m k j later =
    let hits = prune_hits window now (hits_of m k) in
    rw (hits_of-store m k j (hits ++ now ∷ [])) (
      ground (
        arith,
        live_count-append window at now hits,
        live_count-prune_hits window now at (hits_of m k) later,
        eq_iff k j,
      ))

gc-live_count :
    (now at : ℕ) (l : LoginLimiter) (j : String)
    → now ≤ at
    → IsUnique l.ip_hits
    → IsUnique l.user_hits
    → (live_count l.window at (hits_of (gc now l).ip_hits j)
        ≡ live_count l.window at (hits_of l.ip_hits j))
      × (live_count l.window at (hits_of (gc now l).user_hits j)
          ≡ live_count l.window at (hits_of l.user_hits j))
unfolding gc
gc-live_count now at l j later ips users = ground (
  arith,
  hits_of-pruned l.window now l.ip_hits j ips,
  hits_of-pruned l.window now l.user_hits j users,
  live_count-prune_hits l.window now at (hits_of l.ip_hits j) later,
  live_count-prune_hits l.window now at (hits_of l.user_hits j) later,
)

module _ (split_host_port : String → Option String) (lower : String → String)
    (l : LoginLimiter) where
  -- When no key has a second entry, a recorded failure counts once for its address, and once for
  -- its user if there is a name, at every later time in the window; for every other key, and
  -- afterwards, what is in the window is what it was, whatever was cleaned up.
  pub record_failure-live_count :
      (now at : ℕ) (ip_raw username j : String)
      → now ≤ at
      → IsUnique l.ip_hits
      → IsUnique l.user_hits
      → let after = record_failure split_host_port lower now ip_raw username l in
        let ip = normalize_ip split_host_port lower ip_raw in
        let user = user_key split_host_port lower username in
        (live_count l.window at (hits_of after.ip_hits j)
          ≡ live_count l.window at (hits_of l.ip_hits j)
            + (if str_eq ip j && ltb at (now + l.window) then 1 else 0))
        × (live_count l.window at (hits_of after.user_hits j)
            ≡ live_count l.window at (hits_of l.user_hits j)
              + (if not (is_empty user) && str_eq user j && ltb at (now + l.window) then 1 else 0))
  unfolding record_failure
  record_failure-live_count now at ip_raw username j later ips users =
      let ip = normalize_ip split_host_port lower ip_raw in
      let user = user_key split_host_port lower username in
      let (same_ip, same_user) = gc-live_count now at l j later ips users in
      (
        failed_at-live_count l.window now at (gc now l).ip_hits ip j later ∙ rw same_ip,
        ground (
          arith,
          same_user,
          failed_at-live_count l.window now at (gc now l).user_hits user j later,
        ),
      )
