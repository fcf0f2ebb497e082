-- ===== src/Settings/Effect.antt =====
-- config_patch.go and settings_merge.go together: the configuration after a patch.
use buat_postingan.Base.{
  String, Bool, true, false, Option, none, some, ◌≡◌, refl, sym, ap, ◌∙◌, ◌||◌, arith, trim_space,
  trim_space_idem, if◌then◌else◌,
}
use buat_postingan.Base.Int.{ℤ}
use buat_postingan.Exec.{Result, ok, err}
use buat_postingan.Settings.{Limits, Context, Docs, DocsPatch, Config}
use buat_postingan.Settings.Patch.{
  below_one, negative, set_checked, replaced, mapped, >>=-eq-ok, apply_limits_patch,
  apply_context_patch, apply_docs_patch,
}
use buat_postingan.Settings.Merge.{
  positive_or, set_or, trimmed_or, at_least_zero_or, apply_limits_from_file,
  apply_context_from_file, apply_docs_from_file,
}

-- A field that is checked takes the patch's value, or keeps the document's.
set_checked-positive_or :
    (message : String) (p old new : Option ℤ) (base : ℤ)
    → set_checked below_one message p old ≡ ok new
    → positive_or new base ≡ set_or p (positive_or old base)
set_checked-positive_or message none old new base h = cc
set_checked-positive_or message (some v) old new base h = ground arith

-- The reserve that a patch asks for: 0 is accepted, and gives way to the configuration below.
abbrev pub reserve_or : Option ℤ → ℤ → ℤ → ℤ
reserve_or none base old = old
reserve_or (some v) base old = if below_one v then base else v

-- The app id that a patch asks for: a blank one gives way to the configuration below.
abbrev pub app_id_or : Option String → String → String → String
app_id_or none base old = old
app_id_or (some s) base old = trimmed_or s base

abbrev from_ok : {A : Type 0} → A → Result A → A
from_ok a (ok b) = b
from_ok a (err e) = a

set_checked-reserve_or :
    (message : String) (p old new : Option ℤ) (base : ℤ)
    → set_checked negative message p old ≡ ok new
    → positive_or new base ≡ reserve_or p base (positive_or old base)
set_checked-reserve_or message none old new base h = cc
set_checked-reserve_or message (some v) old new base h = ground arith

replaced-set_or :
    {A : Type 0} (p old : Option A) (base : A)
    → set_or (replaced p old) base ≡ set_or p (set_or old base)
replaced-set_or none old base = refl
replaced-set_or (some v) old base = refl

mapped-app_id_or :
    (p : Option String) (old base : String)
    → trimmed_or (mapped trim_space p old) base ≡ app_id_or p base (trimmed_or old base)
mapped-app_id_or none old base = refl
mapped-app_id_or (some s) old base = rw (trim_space_idem s)

module _ {F : Type 0} (at_least_zero : F → Bool) where
  -- An accepted patch of the limits changes exactly the limits that it names, to its values,
  -- whatever the document and the configuration below it held.
  pub apply_limits_patch-effect :
      (base : Config F) (dst p dst' : Limits)
      → apply_limits_patch dst p ≡ ok dst'
      → apply_limits_from_file at_least_zero base dst' ≡ (
          let old = apply_limits_from_file at_least_zero base dst in
          record old {
            max_tool_rounds = set_or p.max_tool_rounds old.max_tool_rounds;
            speak_floor_ttl = set_or p.speak_floor_ttl_sec old.speak_floor_ttl;
            lock_ttl = set_or p.lock_ttl_sec old.lock_ttl;
            turn_job_timeout_sec = set_or p.turn_job_timeout_sec old.turn_job_timeout_sec;
          })
  unfolding apply_limits_patch apply_limits_from_file
  apply_limits_patch-effect base dst p dst' h = ground arith

  -- An accepted patch of the context changes exactly the knobs that it names, to its values, but
  -- for a reserve of 0 tokens: the patch is accepted, and the configuration below the document
  -- takes effect.
  pub apply_context_patch-effect :
      (base : Config F) (dst p dst' : Context)
      → apply_context_patch dst p ≡ ok dst'
      → apply_context_from_file at_least_zero base dst' ≡ (
          let old = apply_context_from_file at_least_zero base dst in
          record old {
            context_compaction_enabled = set_or p.compaction_enabled old.context_compaction_enabled;
            context_max_input_tokens = set_or p.max_input_tokens old.context_max_input_tokens;
            context_reserve_tokens =
                reserve_or p.reserve_tokens base.context_reserve_tokens old.context_reserve_tokens;
            context_recent_turns = set_or p.recent_turns old.context_recent_turns;
            context_summary_max_chars = set_or p.summary_max_chars old.context_summary_max_chars;
          })
  unfolding apply_context_patch apply_context_from_file
  apply_context_patch-effect base dst p dst' h =
      let (input, e, h₁) = >>=-eq-ok (set_checked below_one _ p.max_input_tokens _) _ dst' h in
      let (reserve, e₁, h₂) = >>=-eq-ok (set_checked negative _ p.reserve_tokens _) _ dst' h₁ in
      let (turns, e₂, h₃) = >>=-eq-ok (set_checked below_one _ p.recent_turns _) _ dst' h₂ in
      let (chars, e₃, h₄) = >>=-eq-ok (set_checked below_one _ p.summary_max_chars _) _ dst' h₃ in
      let same = ap (from_ok dst') (sym h₄) in
      ap (apply_context_from_file at_least_zero base) same ∙ λ i. record base {
        context_compaction_enabled =
            replaced-set_or p.compaction_enabled dst.compaction_enabled
              base.context_compaction_enabled i;
        context_max_input_tokens =
            set_checked-positive_or _ p.max_input_tokens dst.max_input_tokens input
              base.context_max_input_tokens e i;
        context_reserve_tokens =
            set_checked-reserve_or _ p.reserve_tokens dst.reserve_tokens reserve
              base.context_reserve_tokens e₁ i;
        context_recent_turns =
            set_checked-positive_or _ p.recent_turns dst.recent_turns turns
              base.context_recent_turns e₂ i;
        context_summary_max_chars =
            set_checked-positive_or _ p.summary_max_chars dst.summary_max_chars chars
              base.context_summary_max_chars e₃ i;
      }

  set_checked-at_least_zero_or :
      (below_zero above_one : F → Bool)
      → ((v : F) → below_zero v ≡ false → at_least_zero v ≡ true)
      → (message : String) (p old new : Option F) (base : F)
      → set_checked (λ v. below_zero v || above_one v) message p old ≡ ok new
      → at_least_zero_or at_least_zero new base ≡ set_or p (at_least_zero_or at_least_zero old base)
  set_checked-at_least_zero_or below_zero above_one total message none old new base h = cc
  set_checked-at_least_zero_or below_zero above_one total message (some v) old new base h =
      ground (arith, total v)

  -- Where the values that are not below 0 are at least 0, as JSON numbers are, an accepted patch of
  -- the docs changes exactly the knobs that it names, to its values, but for a blank app id, for
  -- which the configuration below the document takes effect.
  pub apply_docs_patch-effect :
      (below_zero above_one : F → Bool)
      → ((v : F) → below_zero v ≡ false → at_least_zero v ≡ true)
      → (base : Config F) (dst : Docs F) (p : DocsPatch F) (dst' : Docs F)
      → apply_docs_patch below_zero above_one dst p ≡ ok dst'
      → apply_docs_from_file at_least_zero base dst' ≡ (
          let old = apply_docs_from_file at_least_zero base dst in
          record old {
            docs_top_k = set_or p.top_k old.docs_top_k;
            docs_min_score = set_or p.min_score old.docs_min_score;
            docs_fuzzy_enabled = set_or p.fuzzy_enabled old.docs_fuzzy_enabled;
            docs_app_id = app_id_or p.app_id base.docs_app_id old.docs_app_id;
          })
  unfolding apply_docs_patch apply_docs_from_file
  apply_docs_patch-effect below_zero above_one total base dst p dst' h =
      let (top_k, e, h₁) = >>=-eq-ok (set_checked below_one _ p.top_k _) _ dst' h in
      let (score, e₁, h₂) =
        >>=-eq-ok (set_checked (λ v. below_zero v || above_one v) _ p.min_score _) _ dst' h₁ in
      let same = ap (from_ok dst') (sym h₂) in
      ap (apply_docs_from_file at_least_zero base) same ∙ λ i. record base {
        docs_top_k = set_checked-positive_or _ p.top_k dst.top_k top_k base.docs_top_k e i;
        docs_min_score =
            set_checked-at_least_zero_or below_zero above_one total _ p.min_score dst.min_score
              score base.docs_min_score e₁ i;
        docs_fuzzy_enabled =
            replaced-set_or p.fuzzy_enabled dst.fuzzy_enabled base.docs_fuzzy_enabled i;
        docs_app_id = mapped-app_id_or p.app_id dst.app_id base.docs_app_id i;
      }
