-- ===== src/Settings/Patch.antt =====
-- internal/usecase/settings/config_patch.go: the checked patches of the sections. A patch that
-- fails part way leaves a document that its caller drops, so an error here carries none.
use buat_postingan.Base.{
  String, Bool, ◌≡◌, refl, true, false, Option, none, some, [], ◌∷◌, ◌==◌, ◌||◌, trim_space,
  if◌then◌else◌,
}
use buat_postingan.Base.Int.{ℤ, pos, negsuc}
use buat_postingan.Apperr.{new, validation}
use buat_postingan.Exec.{Result, ok, err}
use buat_postingan.Config.Effort.{one_of, parse_vision_mode, parse_effort_mode}
use buat_postingan.Settings.{Limits, Context, Docs, DocsPatch, Llm, LlmPatch}

module _ {A B : Type 0} where
  infixl 5 ◌>>=◌
  -- `if err != nil { return err }`
  abbrev ◌>>=◌ : Result A → (A → Result B) → Result B
  ok a >>= k = k a
  err e >>= k = err e

  -- A chain that answers has its first part answer, and goes on from there.
  pub >>=-eq-ok :
      (r : Result A) (k : A → Result B) (b : B)
      → (r >>= k) ≡ ok b
      → (a : A) × (r ≡ ok a) × (k a ≡ ok b)
  >>=-eq-ok (ok a) k b h = (a, refl, h)
  >>=-eq-ok (err e) k b h = cc

-- `v < 1`
abbrev pub below_one : ℤ → Bool
below_one (pos n) = n == 0
below_one (negsuc n) = true

-- `v < 0`
abbrev pub negative : ℤ → Bool
negative (pos n) = false
negative (negsuc n) = true

-- A field of a patch: absent it keeps the old value, and present it is refused or replaces it.
abbrev pub set_checked :
    {A : Type 0} → (A → Bool) → String → Option A → Option A → Result (Option A)
set_checked bad message none old = ok old
set_checked bad message (some v) old =
    if bad v then err (new 422 validation message) else ok (some v)

abbrev pub replaced : {A : Type 0} → Option A → Option A → Option A
replaced none old = old
replaced (some v) old = some v

abbrev pub mapped : {A B : Type 0} → (A → B) → Option A → B → B
mapped f none old = old
mapped f (some v) old = f v

-- `applyLimitsPatch`
unfoldable pub apply_limits_patch : Limits → Limits → Result Limits
apply_limits_patch dst p = do
  max_tool_rounds ←
      set_checked below_one "limits.max_tool_rounds must be >= 1" p.max_tool_rounds
        dst.max_tool_rounds
  speak_floor_ttl_sec ←
      set_checked below_one "limits.speak_floor_ttl_sec must be >= 1" p.speak_floor_ttl_sec
        dst.speak_floor_ttl_sec
  lock_ttl_sec ←
      set_checked below_one "limits.lock_ttl_sec must be >= 1" p.lock_ttl_sec dst.lock_ttl_sec
  turn_job_timeout_sec ←
      set_checked below_one "limits.turn_job_timeout_sec must be >= 1" p.turn_job_timeout_sec
        dst.turn_job_timeout_sec
  ok (record {
    max_tool_rounds = max_tool_rounds;
    speak_floor_ttl_sec = speak_floor_ttl_sec;
    lock_ttl_sec = lock_ttl_sec;
    turn_job_timeout_sec = turn_job_timeout_sec;
  })

-- `applyContextPatch`
unfoldable pub apply_context_patch : Context → Context → Result Context
apply_context_patch dst p = do
  max_input_tokens ←
      set_checked below_one "context.max_input_tokens must be >= 1" p.max_input_tokens
        dst.max_input_tokens
  reserve_tokens ←
      set_checked negative "context.reserve_tokens must be >= 0" p.reserve_tokens dst.reserve_tokens
  recent_turns ←
      set_checked below_one "context.recent_turns must be >= 1" p.recent_turns dst.recent_turns
  summary_max_chars ←
      set_checked below_one "context.summary_max_chars must be >= 1" p.summary_max_chars
        dst.summary_max_chars
  ok (record {
    compaction_enabled = replaced p.compaction_enabled dst.compaction_enabled;
    max_input_tokens = max_input_tokens;
    reserve_tokens = reserve_tokens;
    recent_turns = recent_turns;
    summary_max_chars = summary_max_chars;
  })

module _ {F : Type 0} (below_zero above_one : F → Bool) where
  abbrev outside : F → Bool
  outside v = below_zero v || above_one v

  -- `applyDocsPatch`
  unfoldable pub apply_docs_patch : Docs F → DocsPatch F → Result (Docs F)
  apply_docs_patch dst p = do
    top_k ← set_checked below_one "docs.top_k must be >= 1" p.top_k dst.top_k
    min_score ←
        set_checked outside "docs.min_score must be between 0 and 1" p.min_score dst.min_score
    ok (record {
      top_k = top_k;
      min_score = min_score;
      fuzzy_enabled = replaced p.fuzzy_enabled dst.fuzzy_enabled;
      app_id = mapped trim_space p.app_id dst.app_id;
    })

  -- `case "failover", "round_robin", "switch"`
  abbrev pub strategy_of : Option String → (String → String) → String → Result String
  strategy_of none lower old = ok old
  strategy_of (some raw) lower old =
      let s = lower (trim_space raw) in
      if one_of ("failover" ∷ "round_robin" ∷ "switch" ∷ []) s
      then ok s
      else err (new 422 validation "llm.strategy must be failover|round_robin|switch")

  -- `applyLLMGlobalsPatch`; `lower` and `upper` are `strings.ToLower` and `strings.ToUpper`
  unfoldable pub apply_llm_globals_patch :
      (String → String) → (String → String) → Llm F → LlmPatch F → Result (Llm F)
  unfolding one_of
  apply_llm_globals_patch lower upper dst p = do
    strategy ← strategy_of p.strategy lower dst.strategy
    total_attempt_budget ←
        set_checked below_one "llm.total_attempt_budget must be >= 1" p.total_attempt_budget
          dst.total_attempt_budget
    retry_base_delay_ms ←
        set_checked below_one "llm.retry_base_delay_ms must be >= 1" p.retry_base_delay_ms
          dst.retry_base_delay_ms
    retry_max_delay_ms ←
        set_checked below_one "llm.retry_max_delay_ms must be >= 1" p.retry_max_delay_ms
          dst.retry_max_delay_ms
    retry_jitter ←
        set_checked outside "llm.retry_jitter must be between 0 and 1" p.retry_jitter
          dst.retry_jitter
    ok (record {
      strategy = strategy;
      active_provider = mapped (λ s. upper (trim_space s)) p.active_provider dst.active_provider;
      stream = replaced p.stream dst.stream;
      vision = mapped (parse_vision_mode lower) p.vision dst.vision;
      effort = mapped (parse_effort_mode lower) p.effort dst.effort;
      total_attempt_budget = total_attempt_budget;
      retry_base_delay_ms = retry_base_delay_ms;
      retry_max_delay_ms = retry_max_delay_ms;
      retry_jitter = retry_jitter;
    })
