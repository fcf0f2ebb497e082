-- ===== src/Auth.antt =====
-- internal/infrastructure/auth/store.go: the users and their sessions, in two tables.
pub mod Sessions
use buat_postingan.Base.{
  ℕ, zero, suc, ◌+◌, ◌-◌, String, Bool, true, false, Option, none, some, List, [], ◌∷◌, ◌++◌, ltb,
  leb, ◌==◌, ◌&&◌, ◌||◌, not, str_eq, is_empty, trim_space, length, if◌then◌else◌,
}
use buat_postingan.Apperr.{Error, plain}
use buat_postingan.Config.Effort.{one_of}
use buat_postingan.Exec.{
  Result, ok, err, Exec, pure, fail, lift, gets, modify, dropping, attempt, ◌>>=◌, ◌>>◌,
}
use buat_postingan.Worker.Texts.{byte_length}

-- What the store relies on: whether a statement fails and what the clock shows, by the number of
-- the call; the random token; the format of a time, its reading and the order of texts in SQL;
-- SHA-256; bcrypt, which may refuse a password; `COLLATE NOCASE`.
pub record Env : Type 0 where
  pub fails : ℕ → Bool
  pub clock : ℕ → ℕ
  pub token : ℕ → Option String
  pub format : ℕ → String
  pub parse : String → Option ℕ
  pub text_le : String → String → Bool
  pub sha256 : String → String
  pub bcrypt : ℕ → String → Option String
  pub bcrypt_matches : String → String → Bool
  pub same_name : String → String → Bool

-- a row of `users`
pub record UserRow : Type 0 where
  pub id : ℕ
  pub username : String
  pub display_name : String
  pub role : String
  pub password_hash : String
  pub active : Bool

-- a row of `sessions`
pub record SessionRow : Type 0 where
  pub token_hash : String
  pub user_id : ℕ
  pub expires_at : String
  pub created_at : String

-- `User`
pub record User : Type 0 where
  pub id : ℕ
  pub username : String
  pub display_name : String
  pub role : String

-- The tables, with the number of the next user and of the next call.
pub record Db : Type 0 where
  pub users : List UserRow
  pub sessions : List SessionRow
  pub next_id : ℕ
  pub tick : ℕ

abbrev pub Sql : Type 0 → Type 0
Sql A = Exec Db A

abbrev pub max_sessions_per_user : ℕ
max_sessions_per_user = 10

abbrev pub invalid_credentials : Error
invalid_credentials = plain "invalid credentials"

abbrev pub session_not_found : Error
session_not_found = plain "session not found"

module _ (env : Env) where
  -- a statement, which may fail
  abbrev pub statement : String → Sql (Unit {0})
  statement what db =
      (if env.fails db.tick then err (plain what) else ok tt, record db { tick = suc db.tick })

  abbrev pub time_now : Sql ℕ
  time_now db = (ok (env.clock db.tick), record db { tick = suc db.tick })

abbrev pub user_of : UserRow → User
user_of row = record {
  id = row.id;
  username = row.username;
  display_name = row.display_name;
  role = row.role;
}

-- the rows that a `DELETE` leaves
unfoldable pub rows_where : (SessionRow → Bool) → List SessionRow → List SessionRow
rows_where keep [] = []
rows_where keep (row ∷ rows) =
    let rest = rows_where keep rows in if keep row then row ∷ rest else rest

unfoldable pub find_user : (UserRow → Bool) → List UserRow → Option UserRow
find_user is_it [] = none
find_user is_it (row ∷ rows) = if is_it row then some row else find_user is_it rows

unfoldable pub find_session : String → List SessionRow → Option SessionRow
find_session hash [] = none
find_session hash (row ∷ rows) =
    if str_eq row.token_hash hash then some row else find_session hash rows

-- `ORDER BY created_at ASC`
unfoldable pub insert_by : (String → String → Bool) → SessionRow → List SessionRow → List SessionRow
insert_by le row [] = row ∷ []
insert_by le row (row' ∷ rows) =
    let rest = insert_by le row rows in
    if le row.created_at row'.created_at then row ∷ row' ∷ rows else row' ∷ rest

unfoldable pub oldest_first : (String → String → Bool) → List SessionRow → List SessionRow
unfolding insert_by
oldest_first le [] = []
oldest_first le (row ∷ rows) = insert_by le row (oldest_first le rows)

-- `LIMIT ?`
unfoldable pub first_hashes : ℕ → List SessionRow → List String
first_hashes zero rows = []
first_hashes (suc n) [] = []
first_hashes (suc n) (row ∷ rows) = row.token_hash ∷ first_hashes n rows

abbrev pub is_of : ℕ → SessionRow → Bool
is_of user row = row.user_id == user

-- the sessions of a user
abbrev pub sessions_of : ℕ → List SessionRow → List SessionRow
sessions_of user rows = rows_where (is_of user) rows

abbrev pub authenticated : Env → String → Option UserRow → Result User
authenticated env password none = err invalid_credentials
authenticated env password (some row) =
    if not row.active || not (env.bcrypt_matches row.password_hash password)
    then err invalid_credentials
    else ok (user_of row)

abbrev pub drawn : Option String → Result String
drawn none = err (plain "generate session token")
drawn (some token) = ok token

-- the join of the tables, on the hash of a token and an active user
abbrev pub session_user : Db → String → Option (UserRow × SessionRow)
session_user db hash = elim (find_session hash db.sessions) [
  | none ↦ none
  | some row ↦ elim (find_user (λ u. u.id == row.user_id) db.users) [
    | none ↦ none
    | some u ↦ if u.active then some (u, row) else none
  ]
]

abbrev pub after_now : Option ℕ → ℕ → Bool
after_now none at = false
after_now (some expires) at = ltb at expires

module _ (env : Env) where
  -- the row of the first user
  abbrev insert_user : String → Option String → Sql Bool
  insert_user name none = fail (plain "hash bootstrap password")
  insert_user name (some hash) = do
    statement env "create bootstrap user"
    modify (λ db. record db {
      users =
          record {
            id = db.next_id;
            username = name;
            display_name = name;
            role = "admin";
            password_hash = hash;
            active = true;
          }
          ∷ db.users;
      next_id = suc db.next_id;
    })
    pure true

  abbrev insert_first : String → String → List UserRow → Sql Bool
  insert_first name password (u ∷ us) = pure false
  insert_first name password [] = do
    hashed ← gets (λ db. env.bcrypt db.tick password)
    insert_user name hashed

  -- `Bootstrap`
  unfoldable pub bootstrap : String → String → Sql Bool
  unfolding byte_length
  bootstrap username password =
      let name = trim_space username in
      if is_empty name || ltb 64 (byte_length name)
      then fail (plain "auth bootstrap username must be 1-64 characters")
      else if ltb (byte_length password) 8 || ltb 128 (byte_length password)
      then fail (plain "auth bootstrap password must be 8-128 characters")
      else (do
        statement env "count auth users"
        users ← gets (λ db. db.users)
        insert_first name password users)

  -- `Authenticate`
  unfoldable pub authenticate : String → String → Sql User
  unfolding find_user
  authenticate username password = do
    statement env "invalid credentials"
    row ← gets (λ db. find_user (λ u. env.same_name u.username (trim_space username)) db.users)
    lift (authenticated env password row)

  -- `PurgeExpiredSessions`
  unfoldable pub purge_expired_sessions : Sql (Unit {0})
  unfolding rows_where
  purge_expired_sessions = do
    now ← time_now env
    statement env "purge"
    modify (λ db. record db {
      sessions = rows_where (λ row. not (env.text_le row.expires_at (env.format now))) db.sessions;
    })

  abbrev pub trimmed : ℕ → List SessionRow → List SessionRow
  trimmed user rows =
      let mine = sessions_of user rows in
      let doomed =
        first_hashes (length mine - max_sessions_per_user) (oldest_first env.text_le mine) in
      if leb (length mine) max_sessions_per_user
      then rows
      else rows_where (λ row. not (one_of doomed row.token_hash)) rows

  -- `trimUserSessions`
  unfoldable pub trim_user_sessions : ℕ → Sql (Unit {0})
  unfolding rows_where oldest_first first_hashes one_of
  trim_user_sessions user = do
    statement env "count user sessions"
    rows ← gets (λ db. db.sessions)
    if leb (length (sessions_of user rows)) max_sessions_per_user then pure tt else do
      statement env "trim user sessions"
      modify (λ db. record db { sessions = trimmed user db.sessions })

  abbrev pub is_new : String → List SessionRow → Result (Unit {0})
  is_new hash rows = elim (find_session hash rows) [
    | none ↦ ok tt
    | some row ↦ err (plain "create session")
  ]

  -- `INSERT INTO sessions`
  abbrev pub insert_session : ℕ → String → ℕ → ℕ → Sql (Unit {0})
  insert_session user token expires now = modify (λ db. record db {
    sessions =
        record {
          token_hash = env.sha256 token;
          user_id = user;
          expires_at = env.format expires;
          created_at = env.format now;
        }
        ∷ db.sessions;
  })

  -- `CreateSession`: the token and when it expires
  unfoldable pub create_session : ℕ → ℕ → Sql (String × ℕ)
  unfolding find_session
  create_session user ttl =
      if user == 0 || ttl == 0
      then fail (plain "invalid session parameters")
      else dropping purge_expired_sessions (do
        raw ← gets (λ db. env.token db.tick)
        token ← lift (drawn raw)
        began ← time_now env
        now ← time_now env
        statement env "create session"
        taken ← gets (λ db. is_new (env.sha256 token) db.sessions)
        lift taken
        insert_session user token (began + ttl) now
        trim_user_sessions user
        pure (token, began + ttl))

  -- `DELETE FROM sessions WHERE token_hash = ?`
  abbrev pub delete_session : String → Sql (Unit {0})
  delete_session hash = do
    statement env "delete session"
    modify (λ db. record db {
      sessions = rows_where (λ row. not (str_eq row.token_hash hash)) db.sessions;
    })

  abbrev pub still_valid : String → Option (UserRow × SessionRow) → ℕ → Sql User
  still_valid hash none at = fail session_not_found
  still_valid hash (some found) at =
      if after_now (env.parse found.1.expires_at) at
      then pure (user_of found.0)
      else dropping (delete_session hash) (fail session_not_found)

  -- `UserBySession`
  unfoldable pub user_by_session : String → Sql User
  unfolding find_user find_session rows_where
  user_by_session token = do
    statement env "session not found"
    found ← gets (λ db. session_user db (env.sha256 token))
    at ← time_now env
    still_valid (env.sha256 token) found at

  -- `RevokeSession`
  unfoldable pub revoke_session : String → Sql (Unit {0})
  unfolding rows_where
  revoke_session token = delete_session (env.sha256 token)

  -- `UserCount`
  unfoldable pub user_count : Sql ℕ
  user_count = do statement env "count"; gets (λ db. length db.users)
