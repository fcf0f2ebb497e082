-- ===== src/Llm/Router.antt =====
-- router.go: the order of the providers and the attempts at them. The client, which the model only
-- asks, sees the log of the calls before, the last one first.
pub mod Budget
pub mod Candidates
use buat_postingan.Base.{
  ℕ, zero, suc, ◌%◌, String, Bool, true, false, Option, none, some, List, [], ◌∷◌, ◌++◌, ltb, ◌==◌,
  ◌&&◌, ◌||◌, not, str_eq, is_empty, length, if◌then◌else◌,
}
use buat_postingan.Base.Int.{ℤ, pos, negsuc}
use buat_postingan.Config.Effort.{one_of}

-- A provider of `Config.Providers`, with the fields that the router reads.
pub record Provider : Type 0 where
  pub enabled : Bool
  pub max_attempts : ℕ

-- `cfg.Providers[id]`, for the keys of the map in the order of `sort.Strings`
unfoldable pub provider_of : List (String × Provider) → String → Option Provider
provider_of [] id = none
provider_of (p ∷ ps) id = if str_eq p.0 id then some p.1 else provider_of ps id

unfoldable pub enabled_ids : List (String × Provider) → List String
enabled_ids [] = []
enabled_ids (p ∷ ps) = let rest = enabled_ids ps in if p.1.enabled then p.0 ∷ rest else rest

-- `enabled` without one id
unfoldable pub without : String → List String → List String
without id [] = []
without id (x ∷ xs) = let rest = without id xs in if str_eq x id then rest else x ∷ rest

-- `xs[n:]` and `xs[:n]`
unfoldable pub drop : ℕ → List String → List String
drop zero xs = xs
drop (suc n) [] = []
drop (suc n) (x ∷ xs) = drop n xs

unfoldable pub take : ℕ → List String → List String
take zero xs = []
take (suc n) [] = []
take (suc n) (x ∷ xs) = x ∷ take n xs

-- `rotateRoundRobin`: the order and the cursor that is written, from the cursor of the file. In Go
-- the remainder of a negative number is not positive, and a slice from below 0 panics (`none`).
unfoldable pub rotate_round_robin : ℤ → List String → Option (List String × ℤ)
rotate_round_robin cursor [] = some ([], cursor)
rotate_round_robin (pos cursor) (x ∷ xs) =
    let n = suc (length xs) in
    let start = cursor % n in some (drop start (x ∷ xs) ++ take start (x ∷ xs), pos (suc start % n))
rotate_round_robin (negsuc cursor) (x ∷ xs) =
    let n = suc (length xs) in if suc cursor % n == 0 then some (x ∷ xs, pos (1 % n)) else none

-- The end of `candidatesFor`, from the ids that are enabled: the order and the cursor.
unfoldable pub ordered : String → String → String → ℤ → List String → Option (List String × ℤ)
ordered strategy active pinned cursor enabled =
    if str_eq strategy "switch"
    then some (if is_empty active then enabled else active ∷ [], cursor)
    else if not (is_empty pinned) && one_of enabled pinned
    then some (pinned ∷ without pinned enabled, cursor)
    else if str_eq strategy "round_robin"
    then rotate_round_robin cursor enabled
    else if str_eq strategy "failover" && not (is_empty active) && one_of enabled active
    then some (active ∷ without active enabled, cursor)
    else some (enabled, cursor)

-- `candidatesFor`, over the providers in the order of their ids, with the cursor of the file
-- (0 when it does not read)
unfoldable pub candidates_for :
    String → String → String → ℤ → List (String × Provider) → Option (List String × ℤ)
unfolding ordered enabled_ids
candidates_for strategy active pinned cursor ps =
    ordered strategy active pinned cursor (enabled_ids ps)

-- What `ChatWithProvider` answers: only an `*Error` that says so is transient.
pub data Reply (A E : Type 0) : Type 0 where
  answer : A → Reply A E
  transient : E → Reply A E
  fatal : E → Reply A E

-- What `Chat` answers; `exhausted` is its own error.
pub data Outcome (A E : Type 0) : Type 0 where
  answered : A → Outcome A E
  failed : E → Outcome A E
  exhausted : Outcome A E

-- The end of `Chat`, or of the loop over one provider with the attempts made and the last error.
pub data Step (A E : Type 0) : Type 0 where
  stop : Outcome A E → List String → Step A E
  onward : ℕ → List String → Option E → Step A E

module _ {A E : Type 0} where
  abbrev pub outcome_of : Option E → Outcome A E
  outcome_of none = exhausted
  outcome_of (some e) = failed e

-- `cancelled` says whether the wait after the calls of the log was cut off.
module _ {A E : Type 0} (client : List String → String → Reply A E) (cancelled : List String → Bool)
    (budget : ℕ) where
  -- What follows a reply: `left` attempts at this provider are left, and `more` says whether a
  -- candidate follows.
  abbrev pub replied : Bool → ℕ → ℕ → List String → Reply A E → (E → Step A E) → Step A E
  replied more left attempts log (answer a) rest = stop (answered a) log
  replied more left attempts log (fatal e) rest = stop (failed e) log
  replied more left attempts log (transient e) rest =
      if not (ltb 0 left && ltb attempts budget) && not (more && ltb attempts budget)
      then onward attempts log (some e)
      else if cancelled log
      then stop (failed e) log
      else rest e

  -- The loop over the attempts at one provider.
  unfoldable pub try_here : Bool → String → ℕ → ℕ → List String → Option E → Step A E
  try_here more id zero attempts log last = onward attempts log last
  try_here more id (suc left) attempts log last =
      let rest = λ (e : E). try_here more id left (suc attempts) (id ∷ log) (some e) in
      if ltb attempts budget
      then replied more left (suc attempts) (id ∷ log) (client log id) rest
      else onward attempts log last

  -- `max_attempts < 1` counts as 1
  abbrev pub attempts_at : ℕ → ℕ
  attempts_at n = if n == 0 then 1 else n

  abbrev pub is_cons : List String → Bool
  is_cons [] = false
  is_cons (x ∷ xs) = true

  -- What follows the loop over one provider.
  abbrev pub onwards :
      Step A E
      → (ℕ → List String → Option E → Outcome A E × List String)
      → Outcome A E × List String
  onwards (stop o log) rest = (o, log)
  onwards (onward attempts log last) rest =
      if ltb attempts budget then rest attempts log last else (outcome_of last, log)

  abbrev pub try_next :
      Option Provider
      → Bool
      → String
      → ℕ
      → List String
      → Option E
      → (ℕ → List String → Option E → Outcome A E × List String)
      → Outcome A E × List String
  try_next none more id attempts log last rest = rest attempts log last
  try_next (some p) more id attempts log last rest =
      if p.enabled
      then onwards (try_here more id (attempts_at p.max_attempts) attempts log last) rest
      else rest attempts log last

  -- The loop over the candidates.
  unfoldable pub try_all :
      List (String × Provider)
      → List String
      → ℕ
      → List String
      → Option E
      → Outcome A E × List String
  unfolding try_here
  try_all ps [] attempts log last = (outcome_of last, log)
  try_all ps (id ∷ ids) attempts log last =
      let rest = λ (n : ℕ) (l : List String) (o : Option E). try_all ps ids n l o in
      try_next (provider_of ps id) (is_cons ids) id attempts log last rest

-- `Chat`, over the candidates: its answer, and the calls it made
unfoldable pub chat :
    {A E : Type 0}
    → (List String → String → Reply A E)
    → (List String → Bool)
    → ℕ
    → List (String × Provider)
    → List String
    → Outcome A E × List String
unfolding try_all
chat client cancelled total ps candidates =
    let budget = if total == 0 then 4 else total in
    try_all client cancelled budget ps candidates 0 [] none
