-- ===== src/Settings/Service/Owners.antt =====
-- service.go: the document has an owner.
use buat_postingan.Base.{
  ℕ, suc, ◌+◌, ◌<◌, String, Bool, true, false, ◌≡◌, refl, sym, subst, Option, none, some, List, [],
  ◌∷◌, ◌++◌, leb, ◌&&◌, str_eq, is_empty, trim_space, arith, Bool-cases, inl, inr, if◌then◌else◌,
}
use buat_postingan.Apperr.{Error, new, validation}
use buat_postingan.Exec.{Result, ok, err, ok-injective, lift, proceed, pure, fail, ◌>>=◌, ◌>>◌}
use buat_postingan.Settings.Service.{
  SettingsUser, SettingsFile, Env, State, Settings, loaded, users_or_owner, load_or_seed, persist,
  edit,
}
use buat_postingan.Settings.Service.Users.{
  UserInput, count_owners, without_user, with_user, user_with, normalize_role, user_added, changed,
  user_updated, user_deleted, deleted_in, changed_in, stored, create_user, update_user, delete_user,
}

own : SettingsUser → ℕ
own u = if str_eq u.role "owner" then 1 else 0

-- The document that the service works with has an owner.
abbrev pub Owned : Env → State → Type 0
Owned env s = 0 < count_owners (loaded env s.file).users

count_owners-append :
    (us vs : List SettingsUser) → count_owners (us ++ vs) ≡ count_owners us + count_owners vs
unfolding count_owners
count_owners-append [] vs = omega arith
count_owners-append (u ∷ us) vs = omega (arith, count_owners-append us vs)

count_owners-without_user :
    (id : String) (us : List SettingsUser) (u : SettingsUser)
    → user_with id us ≡ some u
    → count_owners (without_user id us) + own u ≡ count_owners us
unfolding count_owners without_user user_with own
count_owners-without_user id [] u found = cc
count_owners-without_user id (x ∷ us) u found = ground (arith, count_owners-without_user id us u)

count_owners-with_user :
    (id : String) (us : List SettingsUser) (u v : SettingsUser)
    → user_with id us ≡ some u
    → count_owners (with_user id v us) + own u ≡ count_owners us + own v
unfolding count_owners with_user user_with own
count_owners-with_user id [] u v found = cc
count_owners-with_user id (x ∷ us) u v found = ground (arith, count_owners-with_user id us u v)

users_or_owner-owners :
    (us : List SettingsUser) → 0 < count_owners us → 0 < count_owners (users_or_owner us)
unfolding count_owners
users_or_owner-owners [] h = omega arith
users_or_owner-owners (u ∷ us) h = h

-- A change that leaves an owner where there was one.
abbrev pub KeepsOwner : {A : Type 0} → (SettingsFile → Result (SettingsFile × A)) → Type 0
KeepsOwner {A} change =
    (doc : SettingsFile) (r : SettingsFile × A)
    → 0 < count_owners doc.users
    → change doc ≡ ok r
    → 0 < count_owners r.0.users

module _ (env : Env) {A : Type 0} where
  persist-Owned :
      (doc : SettingsFile) (a : A) (v : State)
      → 0 < count_owners doc.users
      → Owned env v
      → Owned env ((persist env doc >> pure a) v).1
  unfolding persist
  persist-Owned doc a v h owned = elim (Bool-cases (env.fails v.tick)) [
    | inl failed ↦ rw failed owned
    | inr saved ↦ rw saved (users_or_owner-owners doc.users h)
  ]

  save_of : SettingsFile × A → Settings A
  save_of r = persist env r.0 >> pure r.1

  saved-Owned :
      (change : SettingsFile → Result (SettingsFile × A)) (doc : SettingsFile)
      (r : Result (SettingsFile × A)) (v : State)
      → KeepsOwner change
      → 0 < count_owners doc.users
      → change doc ≡ r
      → Owned env v
      → Owned env (proceed r save_of v).1
  unfolding save_of
  saved-Owned change doc (err e) v keeps h same owned = owned
  saved-Owned change doc (ok r) v keeps h same owned =
      persist-Owned r.0 r.1 v (keeps doc r h same) owned

  from_loaded :
      (change : SettingsFile → Result (SettingsFile × A)) (r : Result SettingsFile) (v : State)
      → KeepsOwner change
      → ((doc : SettingsFile) → r ≡ ok doc → 0 < count_owners doc.users)
      → Owned env v
      → Owned env (proceed r (λ doc. lift (change doc) >>= save_of) v).1
  from_loaded change (err e) v keeps h owned = owned
  from_loaded change (ok doc) v keeps h owned =
      saved-Owned change doc (change doc) v keeps (h doc refl) refl owned

load_or_seed-loaded :
    (env : Env) (s : State) (doc : SettingsFile)
    → (load_or_seed env s).0 ≡ ok doc
    → doc ≡ loaded env s.file
unfolding load_or_seed
load_or_seed-loaded env s doc done = ground arith

edit-Owned :
    {A : Type 0} (env : Env) (change : SettingsFile → Result (SettingsFile × A)) (s : State)
    → KeepsOwner change
    → Owned env s
    → Owned env (edit env change s).1
unfolding edit load_or_seed save_of
edit-Owned env change s keeps owned =
    from_loaded env change (load_or_seed env s).0 (record s { tick = suc s.tick }) keeps
      (λ doc got.
        subst (λ d. 0 < count_owners d.users) (sym (load_or_seed-loaded env s doc got)) owned)
      owned

-- A test that refuses and did not.
if-ok :
    {A : Type 0} (b : Bool) (e : Error) (m : Result A) (a : A)
    → (if b then err e else m) ≡ ok a
    → (b ≡ false) × (m ≡ ok a)
if-ok true e m a done = cc
if-ok false e m a done = (refl, done)

module _ (env : Env) where
  user_added-KeepsOwner : (u : SettingsUser) → KeepsOwner (user_added env u)
  user_added-KeepsOwner u doc r h done =
      subst (λ x. 0 < count_owners x.0.users) (ok-injective _ r done)
        (omega (arith, count_owners-append doc.users (u ∷ [])))

  deleted_in-owner :
      (id : String) (doc : SettingsFile) (found : Option SettingsUser) (r : SettingsFile × Unit {0})
      → user_with id doc.users ≡ found
      → 0 < count_owners doc.users
      → deleted_in env id doc found ≡ ok r
      → 0 < count_owners r.0.users
  unfolding own
  deleted_in-owner id doc none r there h done = cc
  deleted_in-owner id doc (some u) r there h done =
      let (spare, same) =
        if-ok (str_eq u.role "owner" && leb (count_owners doc.users) 1)
          (new 422 validation "cannot delete the last owner")
          (ok (record doc { users = without_user id doc.users }, tt)) r done in
      subst (λ x. 0 < count_owners x.0.users) (ok-injective _ r same)
        (ground (arith, spare, h, count_owners-without_user id doc.users u there))

  changed-own :
      (input : UserInput) (users : List SettingsUser) (u v : SettingsUser)
      → 0 < count_owners users
      → changed env input users u ≡ ok v
      → own u < count_owners users + own v
  unfolding own
  changed-own input users u v h done = ground (arith, h)

  updated-owner :
      (id : String) (input : UserInput) (doc : SettingsFile) (u : SettingsUser)
      (next : Result SettingsUser) (r : SettingsFile × SettingsUser)
      → user_with id doc.users ≡ some u
      → 0 < count_owners doc.users
      → changed env input doc.users u ≡ next
      → stored env id doc next ≡ ok r
      → 0 < count_owners r.0.users
  updated-owner id input doc u (err e) r there h was done = cc
  updated-owner id input doc u (ok v) r there h was done =
      subst (λ x. 0 < count_owners x.0.users) (ok-injective _ r done)
        (omega (
          arith,
          count_owners-with_user id doc.users u v there,
          changed-own input doc.users u v h was,
        ))

  changed_in-owner :
      (id : String) (input : UserInput) (doc : SettingsFile) (found : Option SettingsUser)
      (r : SettingsFile × SettingsUser)
      → user_with id doc.users ≡ found
      → 0 < count_owners doc.users
      → changed_in env id input doc found ≡ ok r
      → 0 < count_owners r.0.users
  changed_in-owner id input doc none r there h done = cc
  changed_in-owner id input doc (some u) r there h done =
      updated-owner id input doc u (changed env input doc.users u) r there h refl done

-- A call that changes the users, whoever makes it.
pub data UserCall : Type 0 where
  create_call : UserInput → UserCall
  update_call : String → UserInput → UserCall
  delete_call : String → UserCall

module _ (env : Env) where
  -- The state after a call, its answer dropped.
  unfoldable pub after_call : UserCall → State → State
  after_call (create_call input) s = (create_user env input s).1
  after_call (update_call id input) s = (update_user env id input s).1
  after_call (delete_call id) s = (delete_user env id s).1

  unfoldable pub after_calls : List UserCall → State → State
  unfolding after_call
  after_calls [] s = s
  after_calls (c ∷ cs) s = after_calls cs (after_call c s)

  unless-Owned :
      {A : Type 0} (b : Bool) (e : Error) (m : Settings A) (s : State)
      → Owned env s
      → Owned env (m s).1
      → Owned env ((if b then fail e else m) s).1
  unless-Owned true e m s h k = h
  unless-Owned false e m s h k = k

  after_call-Owned : (c : UserCall) (s : State) → Owned env s → Owned env (after_call c s)
  unfolding after_call create_user update_user delete_user
  after_call-Owned (create_call input) s h =
      unless-Owned (is_empty (trim_space input.name)) _ _ s h (
        unless-Owned (is_empty (normalize_role env input.role)) _ _ s h
          (edit-Owned env _ s (user_added-KeepsOwner env _) h))
  after_call-Owned (update_call id input) s h = unless-Owned (is_empty (trim_space id)) _ _ s h (
      edit-Owned env (user_updated env (trim_space id) input) s
        (λ doc r.
          changed_in-owner env (trim_space id) input doc (user_with (trim_space id) doc.users) r
            refl)
        h)
  after_call-Owned (delete_call id) s h =
      edit-Owned env (user_deleted env (trim_space id)) s
        (λ doc r.
          deleted_in-owner env (trim_space id) doc (user_with (trim_space id) doc.users) r refl)
        h

  -- A settings document that has an owner still has one after any calls that create, change and
  -- delete users, whichever of them fail and wherever loading or saving the file fails.
  pub after_calls-Owned :
      (cs : List UserCall) (s : State) → Owned env s → Owned env (after_calls cs s)
  unfolding after_calls
  after_calls-Owned [] s h = h
  after_calls-Owned (c ∷ cs) s h = after_calls-Owned cs (after_call c s) (after_call-Owned c s h)
