-- ===== src/Tests/Options.antt =====
-- Users of the settings, and the effort of a model.
use buat_postingan.Base.{◌<◌, ◌≡◌, refl, true, false, none, List, [], ◌∷◌, arith, trim_space}
use buat_postingan.Config.Effort.{one_of, parse_effort_mode}
use buat_postingan.Settings.Service.{Env, State, SettingsFile, default_owner, loaded}
use buat_postingan.Settings.Service.Users.{count_owners}
use buat_postingan.Settings.Service.Owners.{
  Owned, UserCall, create_call, update_call, delete_call, after_calls, after_calls-Owned,
}
use buat_postingan.Llm.Effort.{ModelEffortInfo, allowed_levels, map_to_supported, effort_rank}
use buat_postingan.Llm.Effort.Supported.{map_to_supported-allowed}

abbrev seed : SettingsFile
seed = record { users = default_owner ∷ []; active_provider = ""; providers = [] }

abbrev env : Env
env = record {
  fails = λ n. false;
  seed = seed;
  new_id = λ n. "usr_new";
  to_lower = λ s. s;
  to_upper = λ s. s;
  equal_fold = λ a b. true;
  trim_slashes = λ s. s;
  normalize = none;
}

abbrev state : State
state = record { file = none; runtime = none; tick = 0 }

-- The only owner is demoted and deleted, in vain, after another user was made.
abbrev calls : List UserCall
calls =
    create_call (record { name = "Budi"; role = "member" })
    ∷ update_call "usr_owner" (record { name = ""; role = "admin" })
    ∷ delete_call "usr_owner"
    ∷ []

state-Owned : Owned env state
unfolding count_owners
state-Owned = omega arith

after_calls-Owned_example : 0 < count_owners (loaded env (after_calls env calls state).file).users
after_calls-Owned_example = after_calls-Owned env calls state state-Owned

abbrev info : ModelEffortInfo
info = record {
  supports = true;
  supported_efforts = "low" ∷ "high" ∷ [];
  default_effort = "";
  mandatory = false;
  supports_max_tokens = false;
}

map_to_supported-allowed_example :
    one_of (allowed_levels (λ s. s) info.supported_efforts) (map_to_supported (λ s. s) "max" info)
    ≡ true
unfolding allowed_levels parse_effort_mode trim_space effort_rank
map_to_supported-allowed_example = map_to_supported-allowed (λ s. s) "max" info refl
