-- ===== src/Settings/Service.antt =====
-- internal/usecase/settings/service.go: the users, the providers and the models of the document.
pub mod Users
pub mod Providers
pub mod Owners
use buat_postingan.Base.{
  ℕ, suc, String, Bool, true, false, Option, none, some, List, [], ◌∷◌, if◌then◌else◌,
}
use buat_postingan.Apperr.{Error, plain, internal, wrap, new, validation, not_found}
use buat_postingan.Exec.{Result, ok, err, Exec, pure, fail, lift, modify, ◌>>=◌, ◌>>◌}

-- `SettingsUser`
pub record SettingsUser : Type 0 where
  pub id : String
  pub name : String
  pub role : String

-- `SettingsModel`
pub record SettingsModel : Type 0 where
  pub id : String
  pub label : String
  pub task : String
  pub context_window : ℕ
  pub max_output : ℕ
  pub input_modes : List String
  pub output_modes : List String
  pub effort_levels : List String
  pub supports_tools : Bool
  pub description : String

-- `SettingsProvider`
pub record SettingsProvider : Type 0 where
  pub kind : String
  pub id : String
  pub name : String
  pub prefix : String
  pub api : String
  pub base_url : String
  pub api_key : String
  pub api_key_optional : Bool
  pub enabled : Bool
  pub models : List SettingsModel
  pub timeout_sec : ℕ
  pub max_attempts : ℕ
  pub weight : ℕ

-- The parts of `SettingsFile` that the operations change.
pub record SettingsFile : Type 0 where
  pub users : List SettingsUser
  pub active_provider : String
  pub providers : List SettingsProvider

-- What the service relies on: which calls of the store fail, the document of `DefaultSeedFile`, the
-- ids of `idgen.New`, and the functions of `strings`. `normalize` is that of the provider registry,
-- if there is one.
pub record Env : Type 0 where
  pub fails : ℕ → Bool
  pub seed : SettingsFile
  pub new_id : ℕ → String
  pub to_lower : String → String
  pub to_upper : String → String
  pub equal_fold : String → String → Bool
  pub trim_slashes : String → String
  pub normalize : Option (SettingsProvider → Result SettingsProvider)

-- The file of the store, if it exists, the document that the runtime was given last, and the
-- number of the next call.
pub record State : Type 0 where
  pub file : Option SettingsFile
  pub runtime : Option SettingsFile
  pub tick : ℕ

abbrev pub Settings : Type 0 → Type 0
Settings A = Exec State A

abbrev pub default_owner : SettingsUser
default_owner = record { id = "usr_owner"; name = "Owner"; role = "owner" }

abbrev pub users_or_owner : List SettingsUser → List SettingsUser
users_or_owner [] = default_owner ∷ []
users_or_owner (u ∷ us) = u ∷ us

-- the document that `loadOrSeedLocked` makes of the file
abbrev pub loaded : Env → Option SettingsFile → SettingsFile
loaded env none = env.seed
loaded env (some doc) = record doc { users = users_or_owner doc.users }

module _ (env : Env) where
  abbrev load_failed : Option SettingsFile → Bool → Result SettingsFile
  load_failed none failed = ok env.seed
  load_failed (some doc) true = err (wrap 500 internal "load config" (plain "i/o error"))
  load_failed (some doc) false = ok (loaded env (some doc))

  -- `loadOrSeedLocked`
  unfoldable pub load_or_seed : Settings SettingsFile
  load_or_seed s = (load_failed s.file (env.fails s.tick), record s { tick = suc s.tick })

  -- `persistLocked`
  unfoldable pub persist : SettingsFile → Settings (Unit {0})
  persist doc s =
      if env.fails s.tick
      then (
        err (wrap 500 internal "save config" (plain "i/o error")),
        record s { tick = suc s.tick },
      )
      else (ok tt, record s { file = some doc; tick = suc s.tick })

  -- `reloadLocked`
  abbrev pub reload : SettingsFile → Settings (Unit {0})
  reload doc = modify (λ s. record s { runtime = some doc })

  -- A change of the document that is loaded, and saved when the change is made.
  unfoldable pub edit : {A : Type 0} → (SettingsFile → Result (SettingsFile × A)) → Settings A
  unfolding load_or_seed persist
  edit change = do doc ← load_or_seed; r ← lift (change doc); persist r.0; pure r.1

  -- A change that the runtime is then given too.
  unfoldable pub edit_and_reload :
      {A : Type 0} → (SettingsFile → Result (SettingsFile × A)) → Settings A
  unfolding load_or_seed persist
  edit_and_reload change = do
    doc ← load_or_seed
    r ← lift (change doc)
    persist r.0
    reload r.0
    pure r.1

abbrev pub invalid : {A : Type 0} → String → Result A
invalid why = err (new 422 validation why)

abbrev pub missing : {A : Type 0} → String → Result A
missing why = err (new 404 not_found why)
