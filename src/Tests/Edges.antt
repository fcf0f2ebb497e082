-- ===== src/Tests/Edges.antt =====
-- Limits on logins, patches of the settings, and the order of the providers.
use buat_postingan.Base.{
  ◌↔◌, ℕ, ◌+◌, ◌≤◌, ◌&&◌, ◌||◌, not, String, Bool, ◌≡◌, refl, Option, none, some, true, false, List,
  [], ◌∷◌, length, ltb, str_eq, is_empty, if◌then◌else◌, arith, trim_space,
}
use buat_postingan.Base.Int.{ℤ, pos}
use buat_postingan.Exec.{ok}
use buat_postingan.Config.Effort.{one_of, parse_effort_mode, parse_vision_mode}
use buat_postingan.Config.Effort.Words.{effort_picker_options, vision_options, parse-options}
use buat_postingan.Network.Limiter.{
  LoginLimiter, hits_of, normalize_ip, user_key, allow, record_failure,
}
use buat_postingan.Network.Limiter.Window.{
  live_count, IsRising, IsUnique, allow-live_count, record_failure-live_count,
}
use buat_postingan.Settings.{Limits, Context, Docs, DocsPatch, Config}
use buat_postingan.Settings.Patch.{apply_limits_patch, apply_context_patch, apply_docs_patch}
use buat_postingan.Settings.Merge.{
  apply_limits_from_file, apply_context_from_file, apply_docs_from_file,
}
use buat_postingan.Settings.Effect.{
  app_id_or, apply_limits_patch-effect, apply_context_patch-effect, apply_docs_patch-effect,
}
use buat_postingan.Mcp.Policy.{McpServer, is_listed, names_tool, looks_mutating, check_call_allowed}
use buat_postingan.Mcp.Policy.Allowed.{check_call_allowed_iff}
use buat_postingan.Llm.Router.{
  Provider, Reply, answer, transient, chat, candidates_for, provider_of,
}
use buat_postingan.Llm.Router.Budget.{IsReply, chat-budget}
use buat_postingan.Llm.Router.Candidates.{is_on, candidates_for-enabled}

abbrev no_port : String → Option String
no_port s = none

abbrev same_case : String → String
same_case s = s

abbrev limiter : LoginLimiter
limiter = record {
  ip_max = 20;
  user_max = 2;
  window = 100;
  ip_hits = ("1.2.3.4", 10 ∷ 20 ∷ []) ∷ [];
  user_hits = ("owner", 10 ∷ 20 ∷ []) ∷ [];
}

ips_IsRising : IsRising (hits_of limiter.ip_hits (normalize_ip no_port same_case "1.2.3.4"))
unfolding IsRising hits_of normalize_ip trim_space
ips_IsRising = ((omega arith, tt), (tt, tt))

users_IsRising : IsRising (hits_of limiter.user_hits (user_key no_port same_case "owner"))
unfolding IsRising hits_of trim_space
users_IsRising = ((omega arith, tt), (tt, tt))

allow-live_count_example : (allow no_port same_case 50 "1.2.3.4" "owner" limiter).0.0 ≡ (
    ltb (live_count 100 50 (hits_of limiter.ip_hits (normalize_ip no_port same_case "1.2.3.4"))) 20
    && (is_empty (user_key no_port same_case "owner")
        || ltb
            (live_count 100 50 (hits_of limiter.user_hits (user_key no_port same_case "owner")))
            2))
allow-live_count_example =
    allow-live_count no_port same_case limiter 50 "1.2.3.4" "owner" ips_IsRising users_IsRising

ips_IsUnique : IsUnique limiter.ip_hits
unfolding IsUnique hits_of
ips_IsUnique = (refl, tt)

users_IsUnique : IsUnique limiter.user_hits
unfolding IsUnique hits_of
users_IsUnique = (refl, tt)

record_failure-live_count_example :
    let after = record_failure no_port same_case 50 "1.2.3.4" "owner" limiter in
    let ip = normalize_ip no_port same_case "1.2.3.4" in
    let user = user_key no_port same_case "owner" in
    (live_count 100 60 (hits_of after.ip_hits "1.2.3.4")
      ≡ live_count 100 60 (hits_of limiter.ip_hits "1.2.3.4")
        + (if str_eq ip "1.2.3.4" && ltb 60 (50 + 100) then 1 else 0))
    × (live_count 100 60 (hits_of after.user_hits "1.2.3.4")
        ≡ live_count 100 60 (hits_of limiter.user_hits "1.2.3.4")
          + (if not (is_empty user) && str_eq user "1.2.3.4" && ltb 60 (50 + 100) then 1 else 0))
record_failure-live_count_example =
    record_failure-live_count no_port same_case limiter 50 60 "1.2.3.4" "owner" "1.2.3.4"
      (omega arith) ips_IsUnique users_IsUnique

-- tenths, in place of floats
abbrev at_least_zero : ℕ → Bool
at_least_zero n = true

abbrev below_zero : ℕ → Bool
below_zero n = false

abbrev above_one : ℕ → Bool
above_one n = ltb 10 n

abbrev base : Config ℕ
base = record {
  max_tool_rounds = pos 8;
  speak_floor_ttl = pos 600;
  lock_ttl = pos 300;
  turn_job_timeout_sec = pos 900;
  context_compaction_enabled = true;
  context_max_input_tokens = pos 12000;
  context_reserve_tokens = pos 1500;
  context_recent_turns = pos 6;
  context_summary_max_chars = pos 4000;
  docs_top_k = pos 5;
  docs_min_score = 2;
  docs_fuzzy_enabled = true;
  docs_app_id = "app";
  llm_stream = true;
  llm_vision = "auto";
  llm_effort = "auto";
  llm_total_attempt_budget = pos 4;
  llm_retry_base_delay_ms = pos 250;
  llm_retry_max_delay_ms = pos 5000;
  llm_retry_jitter = 2;
  llm_strategy = "failover";
  llm_active_provider = "";
}

abbrev no_limits : Limits
no_limits = record {
  max_tool_rounds = none;
  speak_floor_ttl_sec = none;
  lock_ttl_sec = none;
  turn_job_timeout_sec = none;
}

abbrev more_rounds : Limits
more_rounds = record no_limits { max_tool_rounds = some (pos 12) }

limits_patched : apply_limits_patch no_limits more_rounds ≡ ok more_rounds
unfolding apply_limits_patch
limits_patched = refl

apply_limits_patch-effect_example : apply_limits_from_file at_least_zero base more_rounds ≡ (
    let old = apply_limits_from_file at_least_zero base no_limits in
    record old {
      max_tool_rounds = pos 12;
      speak_floor_ttl = old.speak_floor_ttl;
      lock_ttl = old.lock_ttl;
      turn_job_timeout_sec = old.turn_job_timeout_sec;
    })
apply_limits_patch-effect_example =
    apply_limits_patch-effect at_least_zero base no_limits more_rounds more_rounds limits_patched

abbrev old_context : Context
old_context = record {
  compaction_enabled = none;
  max_input_tokens = none;
  reserve_tokens = some (pos 2000);
  recent_turns = none;
  summary_max_chars = none;
}

abbrev no_reserve : Context
no_reserve = record old_context { reserve_tokens = some (pos 0) }

context_patched : apply_context_patch old_context no_reserve ≡ ok no_reserve
unfolding apply_context_patch
context_patched = refl

apply_context_patch-effect_example : apply_context_from_file at_least_zero base no_reserve ≡ (
    let old = apply_context_from_file at_least_zero base old_context in
    record old {
      context_compaction_enabled = old.context_compaction_enabled;
      context_max_input_tokens = old.context_max_input_tokens;
      context_reserve_tokens = pos 1500;
      context_recent_turns = old.context_recent_turns;
      context_summary_max_chars = old.context_summary_max_chars;
    })
apply_context_patch-effect_example =
    apply_context_patch-effect at_least_zero base old_context no_reserve no_reserve context_patched

abbrev old_docs : Docs ℕ
old_docs = record { top_k = none; min_score = none; fuzzy_enabled = none; app_id = "old" }

abbrev docs_patch : DocsPatch ℕ
docs_patch = record {
  top_k = some (pos 3);
  min_score = some 4;
  fuzzy_enabled = none;
  app_id = some " new ";
}

abbrev new_docs : Docs ℕ
new_docs = record { top_k = some (pos 3); min_score = some 4; fuzzy_enabled = none; app_id = "new" }

docs_patched : apply_docs_patch below_zero above_one old_docs docs_patch ≡ ok new_docs
unfolding apply_docs_patch trim_space
docs_patched = refl

apply_docs_patch-effect_example : apply_docs_from_file at_least_zero base new_docs ≡ (
    let old = apply_docs_from_file at_least_zero base old_docs in
    record old {
      docs_top_k = pos 3;
      docs_min_score = 4;
      docs_fuzzy_enabled = old.docs_fuzzy_enabled;
      docs_app_id = app_id_or (some " new ") "app" old.docs_app_id;
    })
apply_docs_patch-effect_example =
    apply_docs_patch-effect at_least_zero below_zero above_one (λ v below. refl) base old_docs
      docs_patch new_docs docs_patched

abbrev flaky : List String → String → Reply ℕ String
flaky log id = if str_eq id "A" then transient "upstream 503" else answer 7

abbrev patient : List String → Bool
patient log = false

abbrev providers : List (String × Provider)
providers =
    ("A", record { enabled = true; max_attempts = 2 })
    ∷ ("B", record { enabled = true; max_attempts = 1 })
    ∷ []

chat-budget_example :
    (length (chat flaky patient 4 providers ("A" ∷ "B" ∷ [])).1 ≤ 4)
    × IsReply flaky
        (chat flaky patient 4 providers ("A" ∷ "B" ∷ [])).0
        (chat flaky patient 4 providers ("A" ∷ "B" ∷ [])).1
chat-budget_example = chat-budget flaky patient 4 providers ("A" ∷ "B" ∷ [])

abbrev mixed : List (String × Provider)
mixed = ("0", record { enabled = false; max_attempts = 1 }) ∷ providers

candidates_for-enabled_example :
    (r : List String × ℤ) × (candidates_for "failover" "B" "" (pos 0) mixed ≡ some r)
    × ((x : String) → one_of r.0 x ≡ is_on (provider_of mixed x))
candidates_for-enabled_example =
    candidates_for-enabled "failover" "B" "" 0 mixed (refl, (refl, (refl, tt))) refl

parse-options_example :
    (one_of effort_picker_options (parse_effort_mode same_case " med ") ≡ true)
    × (one_of vision_options (parse_vision_mode same_case " med ") ≡ true)
parse-options_example = parse-options same_case " med "

abbrev echo_server : McpServer
echo_server = record { allow_tools = "echo" ∷ []; deny_tools = []; allow_mutations = false }

abbrev never : String → String → Bool
never s t = false

check_call_allowed_iff_example :
    (check_call_allowed same_case never (λ s t. str_eq s t) echo_server "echo" "says it" ≡ ok tt)
    ↔ (let tool = trim_space "echo" in
        let named = names_tool same_case never (λ s t. str_eq s t) echo_server.allow_tools tool in
        (not (is_empty tool)
          && not (names_tool same_case never (λ s t. str_eq s t) echo_server.deny_tools tool)
          && (not (is_listed echo_server.allow_tools) || named)
          && (not (looks_mutating same_case never (λ s t. str_eq s t) tool "says it")
              || (echo_server.allow_mutations && is_listed echo_server.allow_tools && named)))
        ≡ true)
check_call_allowed_iff_example =
    check_call_allowed_iff same_case never (λ s t. str_eq s t) echo_server "echo" "says it"
