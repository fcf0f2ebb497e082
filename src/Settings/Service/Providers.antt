-- ===== src/Settings/Service/Providers.antt =====
-- service.go: the providers and their models. Each operation answers the provider that it stored,
-- where the code answers its public view.
use buat_postingan.Base.{
  ℕ, String, Bool, true, false, Option, none, some, List, [], ◌∷◌, ◌++◌, ltb, ◌&&◌, ◌||◌, not,
  str_eq, is_empty, trim_space, if◌then◌else◌,
}
use buat_postingan.Apperr.{new, validation, error_text}
use buat_postingan.Exec.{Result, ok, err, fail}
use buat_postingan.Settings.Service.{
  SettingsModel, SettingsProvider, SettingsFile, Env, Settings, edit_and_reload, invalid, missing,
}

-- `ProviderInput`
pub record ProviderInput : Type 0 where
  pub kind : String
  pub id : String
  pub name : String
  pub prefix : String
  pub api : String
  pub base_url : String
  pub api_key : Option String
  pub enabled : Option Bool
  pub models : Option (List SettingsModel)
  pub model_id : String
  pub timeout_sec : ℕ
  pub max_attempts : ℕ
  pub weight : ℕ

unfoldable pub provider_with : String → List SettingsProvider → Option SettingsProvider
provider_with id [] = none
provider_with id (p ∷ ps) = if str_eq p.id id then some p else provider_with id ps

-- `doc.LLM.Providers[idx] = sp`, at the first provider with the id
unfoldable pub with_provider :
    String → SettingsProvider → List SettingsProvider → List SettingsProvider
with_provider id sp [] = []
with_provider id sp (p ∷ ps) =
    let rest = with_provider id sp ps in if str_eq p.id id then sp ∷ ps else p ∷ rest

unfoldable pub without_provider : String → List SettingsProvider → List SettingsProvider
without_provider id [] = []
without_provider id (p ∷ ps) =
    let rest = without_provider id ps in if str_eq p.id id then ps else p ∷ rest

unfoldable pub has_model : String → List SettingsModel → Bool
has_model id [] = false
has_model id (m ∷ ms) = str_eq m.id id || has_model id ms

unfoldable pub without_model : String → List SettingsModel → List SettingsModel
without_model id [] = []
without_model id (m ∷ ms) =
    let rest = without_model id ms in if str_eq m.id id then rest else m ∷ rest

abbrev bare_model : String → SettingsModel
bare_model id = record {
  id = id;
  label = "";
  task = "";
  context_window = 0;
  max_output = 0;
  input_modes = [];
  output_modes = [];
  effort_levels = [];
  supports_tools = false;
  description = "";
}

abbrev models_or : Option (List SettingsModel) → String → List SettingsModel
models_or (some (m ∷ ms)) id = m ∷ ms
models_or _ id = if is_empty (trim_space id) then [] else bare_model (trim_space id) ∷ []

abbrev enabled_or : Option Bool → Bool → Bool
enabled_or none b = b
enabled_or (some b) _ = b

abbrev key_or : Option String → String → String
key_or none key = key
key_or (some raw) key = if is_empty (trim_space raw) then key else trim_space raw

abbrev or_other : String → String → String
or_other s other = if is_empty s then other else s

abbrev above_zero_or : ℕ → ℕ → ℕ
above_zero_or n old = if ltb 0 n then n else old

abbrev is_api : String → Bool
is_api api = str_eq api "chat" || str_eq api "responses" || str_eq api "messages"

-- The change of a provider that is there.
abbrev pub at_provider :
    (SettingsFile → SettingsProvider → Result SettingsProvider)
    → String
    → SettingsFile
    → Result (SettingsFile × SettingsProvider)
at_provider change id doc = elim (provider_with id doc.providers) [
  | none ↦ missing "provider not found"
  | some sp ↦ elim (change doc sp) [
    | err e ↦ err e
    | ok sp' ↦ ok (record doc { providers = with_provider id sp' doc.providers }, sp')
  ]
]

module _ (env : Env) where
  -- the id of `CreateProvider`
  abbrev wanted_id : ProviderInput → String
  wanted_id input =
      let id = env.to_upper (trim_space input.id) in
      if is_empty id then env.to_upper (trim_space input.prefix) else id

  abbrev no_registry : Option (SettingsProvider → Result SettingsProvider) → Bool
  no_registry none = true
  no_registry (some f) = false

  -- Whether the registry cannot fill in what is left out.
  abbrev unaided : ProviderInput → Bool
  unaided input = no_registry env.normalize || is_empty (trim_space input.kind)

  abbrev wanted_api : ProviderInput → String
  wanted_api input =
      let api = env.to_lower (trim_space input.api) in
      if is_empty api && unaided input then "responses" else api

  abbrev base_of : ProviderInput → String
  base_of input = env.trim_slashes (trim_space input.base_url)

  abbrev first_form : ProviderInput → SettingsProvider
  first_form input =
      let id = wanted_id input in
      record {
        kind = env.to_lower (trim_space input.kind);
        id = id;
        name = or_other (trim_space input.name) id;
        prefix = or_other (trim_space input.prefix) (env.to_lower id);
        api = wanted_api input;
        base_url = base_of input;
        api_key = key_or input.api_key "";
        api_key_optional = false;
        enabled = enabled_or input.enabled true;
        models = models_or input.models input.model_id;
        timeout_sec = input.timeout_sec;
        max_attempts = input.max_attempts;
        weight = input.weight;
      }

  abbrev refused_as_invalid : Result SettingsProvider → Result SettingsProvider
  refused_as_invalid (ok sp) = ok sp
  refused_as_invalid (err e) = invalid (error_text e)

  abbrev normalized :
      Option (SettingsProvider → Result SettingsProvider)
      → SettingsProvider
      → Result SettingsProvider
  normalized none sp = ok sp
  normalized (some f) sp = refused_as_invalid (f sp)

  unfoldable pub is_taken : String → List SettingsProvider → Bool
  is_taken id [] = false
  is_taken id (p ∷ ps) = env.equal_fold p.id id || is_taken id ps

  abbrev pub provider_added :
      Result SettingsProvider → SettingsFile → Result (SettingsFile × SettingsProvider)
  provider_added (err e) doc = err e
  provider_added (ok sp) doc =
      if is_taken sp.id doc.providers
      then invalid "provider id already exists"
      else ok (
        record doc {
          providers = doc.providers ++ sp ∷ [];
          active_provider = if is_empty doc.active_provider then sp.id else doc.active_provider;
        },
        sp,
      )

  -- `CreateProvider`
  unfoldable pub create_provider : ProviderInput → Settings SettingsProvider
  unfolding is_taken edit_and_reload
  create_provider input =
      if is_empty (wanted_id input) && is_empty (trim_space input.kind)
      then fail (new 422 validation "id or prefix required")
      else if not (is_empty (wanted_api input)) && not (is_api (wanted_api input))
      then fail (new 422 validation "api must be chat|responses|messages")
      else if is_empty (base_of input) && unaided input
      then fail (new 422 validation "base_url required")
      else edit_and_reload env (provider_added (normalized env.normalize (first_form input)))

  abbrev models_after : ProviderInput → List SettingsModel → List SettingsModel
  models_after input old = elim input.models [
    | some ms ↦ ms
    | none ↦ if is_empty (trim_space input.model_id) then old else elim old [
      | [] ↦ bare_model (trim_space input.model_id) ∷ []
      | m ∷ ms ↦ record m { id = trim_space input.model_id } ∷ ms
    ]
  ]

  abbrev provider_changed :
      ProviderInput → SettingsFile → SettingsProvider → Result SettingsProvider
  provider_changed input doc sp =
      let api = env.to_lower (trim_space input.api) in
      if not (is_empty api) && not (is_api api)
      then invalid "api must be chat|responses|messages"
      else ok (record sp {
        name = or_other (trim_space input.name) sp.name;
        prefix = or_other (trim_space input.prefix) sp.prefix;
        api = or_other api sp.api;
        base_url = or_other (base_of input) sp.base_url;
        api_key = key_or input.api_key sp.api_key;
        enabled = enabled_or input.enabled sp.enabled;
        models = models_after input sp.models;
        timeout_sec = above_zero_or input.timeout_sec sp.timeout_sec;
        max_attempts = above_zero_or input.max_attempts sp.max_attempts;
        weight = above_zero_or input.weight sp.weight;
      })

  -- `UpdateProvider`
  unfoldable pub update_provider : String → ProviderInput → Settings SettingsProvider
  unfolding provider_with with_provider edit_and_reload
  update_provider raw input =
      edit_and_reload env (at_provider (provider_changed input) (env.to_upper (trim_space raw)))

  abbrev first_id : List SettingsProvider → String
  first_id [] = ""
  first_id (p ∷ ps) = p.id

  abbrev pub provider_deleted : String → SettingsFile → Result (SettingsFile × Unit {0})
  provider_deleted id doc =
      let left = without_provider id doc.providers in
      elim (provider_with id doc.providers) [
        | none ↦ missing "provider not found"
        | some sp ↦ ok (
          record doc {
            providers = left;
            active_provider =
                if env.equal_fold doc.active_provider id
                then first_id left
                else doc.active_provider;
          },
          tt,
        )
      ]

  -- `DeleteProvider`
  unfoldable pub delete_provider : String → Settings (Unit {0})
  unfolding provider_with without_provider edit_and_reload
  delete_provider raw = edit_and_reload env (provider_deleted (env.to_upper (trim_space raw)))

  abbrev model_added : SettingsModel → SettingsFile → SettingsProvider → Result SettingsProvider
  model_added model doc sp =
      let id = trim_space model.id in
      if has_model id sp.models
      then invalid "model already listed"
      else ok (record sp {
        models = sp.models ++ record (bare_model id) { label = trim_space model.label } ∷ [];
      })

  -- `AddModel`
  unfoldable pub add_model : String → SettingsModel → Settings SettingsProvider
  unfolding provider_with with_provider has_model edit_and_reload
  add_model raw model =
      if is_empty (trim_space model.id)
      then fail (new 422 validation "model id required")
      else edit_and_reload env (at_provider (model_added model) (env.to_upper (trim_space raw)))

  abbrev model_removed : String → SettingsFile → SettingsProvider → Result SettingsProvider
  model_removed id doc sp =
      if has_model id sp.models
      then ok (record sp { models = without_model id sp.models })
      else missing "model not found"

  -- `RemoveModel`
  unfoldable pub remove_model : String → String → Settings SettingsProvider
  unfolding provider_with with_provider has_model without_model edit_and_reload
  remove_model raw id =
      edit_and_reload env
        (at_provider (model_removed (trim_space id)) (env.to_upper (trim_space raw)))
