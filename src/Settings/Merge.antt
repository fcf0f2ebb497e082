-- ===== src/Settings/Merge.antt =====
-- internal/config/settings_merge.go: the sections of the document over the configuration.
use buat_postingan.Base.{
  String, Bool, Option, none, some, [], ◌∷◌, is_empty, trim_space, if◌then◌else◌,
}
use buat_postingan.Config.Effort.{one_of, parse_vision_mode, parse_effort_mode}
use buat_postingan.Base.Int.{ℤ}
use buat_postingan.Settings.{Limits, Context, Docs, Llm, Config}
use buat_postingan.Settings.Patch.{below_one}

-- `v != nil && *v > 0`
abbrev pub positive_or : Option ℤ → ℤ → ℤ
positive_or none old = old
positive_or (some v) old = if below_one v then old else v

abbrev pub set_or : {A : Type 0} → Option A → A → A
set_or none old = old
set_or (some v) old = v

-- `s := strings.TrimSpace(raw); s != ""`
abbrev pub trimmed_or : String → String → String
trimmed_or raw old = if is_empty (trim_space raw) then old else trim_space raw

module _ {F : Type 0} (at_least_zero : F → Bool) where
  abbrev pub at_least_zero_or : Option F → F → F
  at_least_zero_or none old = old
  at_least_zero_or (some v) old = if at_least_zero v then v else old

  -- `applyLimitsFromFile`
  unfoldable pub apply_limits_from_file : Config F → Limits → Config F
  apply_limits_from_file base limits = record base {
    max_tool_rounds = positive_or limits.max_tool_rounds base.max_tool_rounds;
    speak_floor_ttl = positive_or limits.speak_floor_ttl_sec base.speak_floor_ttl;
    lock_ttl = positive_or limits.lock_ttl_sec base.lock_ttl;
    turn_job_timeout_sec = positive_or limits.turn_job_timeout_sec base.turn_job_timeout_sec;
  }

  -- `applyContextFromFile`
  unfoldable pub apply_context_from_file : Config F → Context → Config F
  apply_context_from_file base ctx = record base {
    context_compaction_enabled = set_or ctx.compaction_enabled base.context_compaction_enabled;
    context_max_input_tokens = positive_or ctx.max_input_tokens base.context_max_input_tokens;
    context_reserve_tokens = positive_or ctx.reserve_tokens base.context_reserve_tokens;
    context_recent_turns = positive_or ctx.recent_turns base.context_recent_turns;
    context_summary_max_chars = positive_or ctx.summary_max_chars base.context_summary_max_chars;
  }

  -- `applyDocsFromFile`
  unfoldable pub apply_docs_from_file : Config F → Docs F → Config F
  apply_docs_from_file base docs = record base {
    docs_top_k = positive_or docs.top_k base.docs_top_k;
    docs_min_score = at_least_zero_or docs.min_score base.docs_min_score;
    docs_fuzzy_enabled = set_or docs.fuzzy_enabled base.docs_fuzzy_enabled;
    docs_app_id = trimmed_or docs.app_id base.docs_app_id;
  }

  abbrev pub strategy_or : String → String → String
  strategy_or s old = if one_of ("failover" ∷ "round_robin" ∷ "switch" ∷ []) s then s else old

  -- `applyLLMGlobalsFromFile`
  unfoldable pub apply_llm_globals_from_file :
      (String → String) → (String → String) → Config F → Llm F → Config F
  apply_llm_globals_from_file lower upper base llm =
      let v = trim_space llm.vision in
      let e = trim_space llm.effort in
      let ap = upper (trim_space llm.active_provider) in
      record base {
        llm_stream = set_or llm.stream base.llm_stream;
        llm_vision = if is_empty v then base.llm_vision else parse_vision_mode lower v;
        llm_effort = if is_empty e then base.llm_effort else parse_effort_mode lower e;
        llm_total_attempt_budget =
            positive_or llm.total_attempt_budget base.llm_total_attempt_budget;
        llm_retry_base_delay_ms = positive_or llm.retry_base_delay_ms base.llm_retry_base_delay_ms;
        llm_retry_max_delay_ms = positive_or llm.retry_max_delay_ms base.llm_retry_max_delay_ms;
        llm_retry_jitter = at_least_zero_or llm.retry_jitter base.llm_retry_jitter;
        llm_strategy = strategy_or (lower (trim_space llm.strategy)) base.llm_strategy;
        llm_active_provider = if is_empty ap then base.llm_active_provider else ap;
      }
