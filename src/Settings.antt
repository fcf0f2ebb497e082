-- ===== src/Settings.antt =====
-- The settings document, the patches of its sections, and their overlay on the configuration.
-- `F` is float64, of which the code only asks whether a value is below 0, above 1, at least 0.
pub mod Patch
pub mod Merge
pub mod Effect
pub mod Service
use buat_postingan.Base.{String, Bool, Option}
use buat_postingan.Base.Int.{ℤ}

-- `SettingsLimits`, and `LimitsPatch`, which has the same fields
pub record Limits : Type 0 where
  pub max_tool_rounds : Option ℤ
  pub speak_floor_ttl_sec : Option ℤ
  pub lock_ttl_sec : Option ℤ
  pub turn_job_timeout_sec : Option ℤ

-- `SettingsContext`, and `ContextPatch`, which has the same fields
pub record Context : Type 0 where
  pub compaction_enabled : Option Bool
  pub max_input_tokens : Option ℤ
  pub reserve_tokens : Option ℤ
  pub recent_turns : Option ℤ
  pub summary_max_chars : Option ℤ

-- `SettingsDocs`
pub record Docs (F : Type 0) : Type 0 where
  pub top_k : Option ℤ
  pub min_score : Option F
  pub fuzzy_enabled : Option Bool
  pub app_id : String

-- `DocsPatch`
pub record DocsPatch (F : Type 0) : Type 0 where
  pub top_k : Option ℤ
  pub min_score : Option F
  pub fuzzy_enabled : Option Bool
  pub app_id : Option String

-- `SettingsLLM`, without its providers, which no patch of this kind touches
pub record Llm (F : Type 0) : Type 0 where
  pub strategy : String
  pub active_provider : String
  pub stream : Option Bool
  pub vision : String
  pub effort : String
  pub total_attempt_budget : Option ℤ
  pub retry_base_delay_ms : Option ℤ
  pub retry_max_delay_ms : Option ℤ
  pub retry_jitter : Option F

-- `LLMGlobalsPatch`
pub record LlmPatch (F : Type 0) : Type 0 where
  pub strategy : Option String
  pub active_provider : Option String
  pub stream : Option Bool
  pub vision : Option String
  pub effort : Option String
  pub total_attempt_budget : Option ℤ
  pub retry_base_delay_ms : Option ℤ
  pub retry_max_delay_ms : Option ℤ
  pub retry_jitter : Option F

-- The fields of `Config` that the limits, the context and the docs overlay.
pub record Config (F : Type 0) : Type 0 where
  pub max_tool_rounds : ℤ
  pub speak_floor_ttl : ℤ
  pub lock_ttl : ℤ
  pub turn_job_timeout_sec : ℤ
  pub context_compaction_enabled : Bool
  pub context_max_input_tokens : ℤ
  pub context_reserve_tokens : ℤ
  pub context_recent_turns : ℤ
  pub context_summary_max_chars : ℤ
  pub docs_top_k : ℤ
  pub docs_min_score : F
  pub docs_fuzzy_enabled : Bool
  pub docs_app_id : String
  pub llm_stream : Bool
  pub llm_vision : String
  pub llm_effort : String
  pub llm_total_attempt_budget : ℤ
  pub llm_retry_base_delay_ms : ℤ
  pub llm_retry_max_delay_ms : ℤ
  pub llm_retry_jitter : F
  pub llm_strategy : String
  pub llm_active_provider : String
