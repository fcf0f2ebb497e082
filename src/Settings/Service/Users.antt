-- ===== src/Settings/Service/Users.antt =====
-- service.go: the users.
use buat_postingan.Base.{
  ℕ, ◌+◌, String, Option, none, some, List, [], ◌∷◌, ◌++◌, leb, ◌&&◌, not, str_eq, is_empty,
  trim_space, if◌then◌else◌,
}
use buat_postingan.Apperr.{new, validation}
use buat_postingan.Config.Effort.{one_of}
use buat_postingan.Exec.{Result, ok, err, pure, fail, gets, ◌>>=◌}
use buat_postingan.Settings.Service.{
  SettingsUser, SettingsFile, Env, Settings, edit, load_or_seed, invalid, missing,
}

-- `UserInput`
pub record UserInput : Type 0 where
  pub name : String
  pub role : String

-- `countOwners`
unfoldable pub count_owners : List SettingsUser → ℕ
count_owners [] = 0
count_owners (u ∷ us) = (if str_eq u.role "owner" then 1 else 0) + count_owners us

-- `append(doc.Users[:idx], doc.Users[idx+1:]...)`, at the first user with the id
unfoldable pub without_user : String → List SettingsUser → List SettingsUser
without_user id [] = []
without_user id (u ∷ us) = let rest = without_user id us in if str_eq u.id id then us else u ∷ rest

-- `doc.Users[idx] = u`, at the first user with the id
unfoldable pub with_user : String → SettingsUser → List SettingsUser → List SettingsUser
with_user id new_user [] = []
with_user id new_user (u ∷ us) =
    let rest = with_user id new_user us in if str_eq u.id id then new_user ∷ us else u ∷ rest

unfoldable pub user_with : String → List SettingsUser → Option SettingsUser
user_with id [] = none
user_with id (u ∷ us) = if str_eq u.id id then some u else user_with id us

module _ (env : Env) where
  -- `normalizeRole`
  unfoldable pub normalize_role : String → String
  unfolding one_of
  normalize_role raw =
      let role = env.to_lower (trim_space raw) in
      if one_of ("owner" ∷ "admin" ∷ "member" ∷ []) role then role else ""

  abbrev pub user_added : SettingsUser → SettingsFile → Result (SettingsFile × SettingsUser)
  user_added u doc = ok (record doc { users = doc.users ++ u ∷ [] }, u)

  -- `CreateUser`
  unfoldable pub create_user : UserInput → Settings SettingsUser
  unfolding normalize_role edit
  create_user input =
      let name = trim_space input.name in
      let role = normalize_role input.role in
      if is_empty name
      then fail (new 422 validation "name required")
      else if is_empty role
      then fail (new 422 validation "role must be owner|admin|member")
      else (do
        id ← gets (λ s. env.new_id s.tick)
        edit env (user_added (record { id = id; name = name; role = role })))

  abbrev pub renamed : UserInput → SettingsUser → SettingsUser
  renamed input u = record u {
    name = if is_empty (trim_space input.name) then u.name else trim_space input.name;
  }

  -- The user with the new name and role, when the rules allow it.
  abbrev pub changed : UserInput → List SettingsUser → SettingsUser → Result SettingsUser
  changed input users u =
      let role = normalize_role input.role in
      if is_empty input.role
      then ok (renamed input u)
      else if is_empty role
      then invalid "role must be owner|admin|member"
      else if str_eq u.role "owner" && not (str_eq role "owner") && leb (count_owners users) 1
      then invalid "cannot demote the last owner"
      else ok (record (renamed input u) { role = role })

  abbrev pub stored :
      String → SettingsFile → Result SettingsUser → Result (SettingsFile × SettingsUser)
  stored id doc (err e) = err e
  stored id doc (ok u) = ok (record doc { users = with_user id u doc.users }, u)

  abbrev pub changed_in :
      String → UserInput → SettingsFile → Option SettingsUser → Result (SettingsFile × SettingsUser)
  changed_in id input doc none = missing "user not found"
  changed_in id input doc (some u) = stored id doc (changed input doc.users u)

  abbrev pub user_updated : String → UserInput → SettingsFile → Result (SettingsFile × SettingsUser)
  user_updated id input doc = changed_in id input doc (user_with id doc.users)

  -- `UpdateUser`
  unfoldable pub update_user : String → UserInput → Settings SettingsUser
  unfolding normalize_role edit count_owners user_with with_user
  update_user raw input =
      let id = trim_space raw in
      if is_empty id
      then fail (new 422 validation "id required")
      else edit env (user_updated id input)

  abbrev pub deleted_in :
      String → SettingsFile → Option SettingsUser → Result (SettingsFile × Unit {0})
  deleted_in id doc none = missing "user not found"
  deleted_in id doc (some u) =
      if str_eq u.role "owner" && leb (count_owners doc.users) 1
      then invalid "cannot delete the last owner"
      else ok (record doc { users = without_user id doc.users }, tt)

  abbrev pub user_deleted : String → SettingsFile → Result (SettingsFile × Unit {0})
  user_deleted id doc = deleted_in id doc (user_with id doc.users)

  -- `DeleteUser`
  unfoldable pub delete_user : String → Settings (Unit {0})
  unfolding edit count_owners user_with without_user
  delete_user raw = edit env (user_deleted (trim_space raw))

  -- `ListUsers`
  unfoldable pub list_users : Settings (List SettingsUser)
  unfolding load_or_seed
  list_users = do doc ← load_or_seed env; pure doc.users
