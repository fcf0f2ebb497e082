-- ===== src/Auth/Sessions.antt =====
-- store.go: what the operations on the sessions leave in the tables.
use buat_postingan.Base.{
  ℕ, zero, suc, ◌+◌, ◌-◌, ◌≤◌, ◌<◌, String, Bool, true, false, ◌≡◌, refl, sym, ap, ◌∙◌, subst,
  Option, none, some, List, [], ◌∷◌, not, str_eq, leb, ◌==◌, length, ◌||◌, All, arith, Bool-cases,
  inl, inr,
}
use buat_postingan.Apperr.{plain}
use buat_postingan.Config.Effort.{one_of}
use buat_postingan.Config.Effort.Words.{one_of_self}
use buat_postingan.Exec.{
  ok, err, >>=-eq-ok, pure, lift, gets, Gives, Gives-bind, Gives-if, Gives-fail, Gives-dropping,
  Gives-after,
}
use buat_postingan.Auth.{
  Env, UserRow, SessionRow, User, Db, session_not_found, user_of, rows_where, find_session,
  insert_by, oldest_first, first_hashes, is_of, sessions_of, session_user, trimmed,
  trim_user_sessions, create_session, purge_expired_sessions, still_valid, user_by_session,
  revoke_session, statement, time_now, drawn, is_new, insert_session,
}

module _ (keep : SessionRow → Bool) where
  insert_by-rows :
      (le : String → String → Bool) (row : SessionRow) (rows : List SessionRow)
      → length (rows_where keep (insert_by le row rows)) ≡ length (rows_where keep (row ∷ rows))
  unfolding rows_where insert_by
  insert_by-rows le row [] = refl
  insert_by-rows le row (row' ∷ rows) = ground (arith, insert_by-rows le row rows)

  -- Sorting keeps the number of the rows of a kind.
  oldest_first-rows :
      (le : String → String → Bool) (rows : List SessionRow)
      → length (rows_where keep (oldest_first le rows)) ≡ length (rows_where keep rows)
  unfolding rows_where oldest_first
  oldest_first-rows le [] = refl
  oldest_first-rows le (row ∷ rows) =
      insert_by-rows le row (oldest_first le rows) ∙ ground (arith, oldest_first-rows le rows)

  rows_where_comm :
      (other : SessionRow → Bool) (rows : List SessionRow)
      → rows_where keep (rows_where other rows) ≡ rows_where other (rows_where keep rows)
  unfolding rows_where
  rows_where_comm other [] = refl
  rows_where_comm other (row ∷ rows) = ground (arith, rows_where_comm other rows)

length-insert_by :
    (le : String → String → Bool) (row : SessionRow) (rows : List SessionRow)
    → length (insert_by le row rows) ≡ suc (length rows)
unfolding insert_by
length-insert_by le row [] = refl
length-insert_by le row (row' ∷ rows) = ground (arith, length-insert_by le row rows)

length-oldest_first :
    (le : String → String → Bool) (rows : List SessionRow)
    → length (oldest_first le rows) ≡ length rows
unfolding oldest_first
length-oldest_first le [] = refl
length-oldest_first le (row ∷ rows) =
    length-insert_by le row (oldest_first le rows) ∙ ap suc (length-oldest_first le rows)

-- the rows whose hashes are not among the doomed ones
abbrev spared : List String → SessionRow → Bool
spared doomed row = not (one_of doomed row.token_hash)

rows_where-length :
    (keep : SessionRow → Bool) (rows : List SessionRow)
    → length (rows_where keep rows) ≤ length rows
unfolding rows_where
rows_where-length keep [] = omega arith
rows_where-length keep (row ∷ rows) = ground (arith, rows_where-length keep rows)

spared-few :
    (doomed : List String) (k : ℕ) (rows : List SessionRow)
    → All (λ h. one_of doomed h ≡ true) (first_hashes k rows)
    → k ≤ length rows
    → length (rows_where (spared doomed) rows) + k ≤ length rows
unfolding rows_where first_hashes
spared-few doomed zero rows h le = omega (arith, rows_where-length (spared doomed) rows)
spared-few doomed (suc k) [] h le = omega arith
spared-few doomed (suc k) (row ∷ rows) h le =
    rw h.0 (omega (arith, spared-few doomed k rows h.1 (omega arith)))

above_ten : (n : ℕ) → leb n 10 ≡ false → 10 ≤ n
above_ten n many = ground arith

module _ (env : Env) (user : ℕ) where
  trimmed-few : (rows : List SessionRow) → length (sessions_of user (trimmed env user rows)) ≤ 10
  trimmed-few rows = elim (Bool-cases (leb (length (sessions_of user rows)) 10)) [
    | inl few ↦ rw few (ground arith)
    | inr many ↦ rw many (
        let mine = sessions_of user rows in
        let sorted = oldest_first env.text_le mine in
        let excess = length mine - 10 in
        let doomed = first_hashes excess sorted in
        let left =
          spared-few doomed excess sorted (one_of_self doomed)
            (omega (arith, length-oldest_first env.text_le mine)) in
        rw (rows_where_comm (is_of user) (spared doomed) rows) (
          omega (
            arith,
            left,
            oldest_first-rows (spared doomed) env.text_le mine,
            length-oldest_first env.text_le mine,
            above_ten (length mine) many,
          )))
  ]

  abbrev Few : {A : Type 0} → A → Db → Type 0
  Few a db = length (sessions_of user db.sessions) ≤ 10

  trim_user_sessions-trimmed :
      (db : Db)
      → (trim_user_sessions env user db).0 ≡ ok tt
      → (trim_user_sessions env user db).1.sessions ≡ trimmed env user db.sessions
  unfolding trim_user_sessions
  trim_user_sessions-trimmed db done = ground arith

  trim_user_sessions-Few : Gives Few (trim_user_sessions env user)
  trim_user_sessions-Few = record {
    given = λ db u done.
        subst (λ rows. length (sessions_of user rows) ≤ 10)
          (sym (trim_user_sessions-trimmed db done)) (trimmed-few db.sessions);
  }

  -- A session that is created leaves its user with at most ten sessions.
  pub create_session-few :
      (ttl : ℕ) (db : Db) (answer : String × ℕ)
      → (create_session env user ttl db).0 ≡ ok answer
      → length (sessions_of user (create_session env user ttl db).1.sessions) ≤ 10
  unfolding create_session
  create_session-few ttl db answer done =
      (Gives-if Few (user == 0 || ttl == 0) _ _
          (Gives-fail Few (plain "invalid session parameters"))
          (Gives-dropping Few (purge_expired_sessions env) _ (
            Gives-bind Few (gets (λ db'. env.token db'.tick)) _ λ raw.
              Gives-bind Few (lift (drawn raw)) _ λ token. Gives-bind Few (time_now env) _ λ began.
                Gives-bind Few (time_now env) _ λ now.
                  Gives-bind Few (statement env "create session") _ λ _.
                    Gives-bind Few (gets (λ db'. is_new env (env.sha256 token) db'.sessions)) _
                      λ taken. Gives-bind Few (lift taken) _ λ _.
                        Gives-bind Few (insert_session env user token (began + ttl) now) _ λ _.
                          Gives-after Few Few (trim_user_sessions env user)
                            (λ _. pure (token, began + ttl)) trim_user_sessions-Few
                            (λ u db' b few done'. few)))).given
        db answer done

-- What `UserBySession` finds for the hash of a token: a session that has not expired at the time,
-- and its user, who is active.
pub record IsSession (env : Env) (db : Db) (hash : String) (answer : User) (at : ℕ) : Type 0 where
  pub row : SessionRow
  pub owner : UserRow
  pub expires : ℕ
  pub found : session_user db hash ≡ some (owner, row)
  pub answered : answer ≡ user_of owner
  pub active : owner.active ≡ true
  pub expiry : env.parse row.expires_at ≡ some expires
  pub unexpired : at < expires

session_user-active :
    (db : Db) (hash : String) (u : UserRow) (row : SessionRow)
    → session_user db hash ≡ some (u, row)
    → u.active ≡ true
session_user-active db hash u row found = ground arith

module _ (env : Env) (db v : Db) (hash : String) (answer : User) (at : ℕ) where
  parsed-IsSession :
      (u : UserRow) (row : SessionRow) (parsed : Option ℕ)
      → env.parse row.expires_at ≡ parsed
      → session_user db hash ≡ some (u, row)
      → (still_valid env hash (some (u, row)) at v).0 ≡ ok answer
      → IsSession env db hash answer at
  parsed-IsSession u row none parse found done = ground (arith, parse)
  parsed-IsSession u row (some expires) parse found done = record {
    row = row;
    owner = u;
    expires = expires;
    found = found;
    answered = ground (arith, parse);
    active = session_user-active db hash u row found;
    expiry = parse;
    unexpired = ground (arith, parse);
  }

  found-IsSession :
      (found : Option (UserRow × SessionRow))
      → session_user db hash ≡ found
      → (still_valid env hash found at v).0 ≡ ok answer
      → IsSession env db hash answer at
  found-IsSession none found done = cc
  found-IsSession (some (u, row)) found done =
      parsed-IsSession u row (env.parse row.expires_at) refl found done

module _ (env : Env) (token : String) (db : Db) where
  -- When `UserBySession` answers for a token, there is a session with the hash of the token that
  -- has not expired at the time that the clock shows, and the answer is its user, who is active.
  pub user_by_session-IsSession :
      (answer : User)
      → (user_by_session env token db).0 ≡ ok answer
      → IsSession env db (env.sha256 token) answer (env.clock (suc db.tick))
  unfolding user_by_session
  user_by_session-IsSession answer done =
      let (read, got, rest) = >>=-eq-ok (statement env "session not found") _ db answer done in
      found-IsSession env db (record db { tick = suc (suc db.tick) }) (env.sha256 token) answer
        (env.clock (suc db.tick)) (session_user db (env.sha256 token)) refl
        (sym (ap (λ p. p.0) rest) ∙ done)

-- A session that was revoked is not found again.
find_session-deleted :
    (hash : String) (rows : List SessionRow)
    → find_session hash (rows_where (λ row. not (str_eq row.token_hash hash)) rows) ≡ none
unfolding find_session rows_where
find_session-deleted hash [] = refl
find_session-deleted hash (row ∷ rows) = ground (arith, find_session-deleted hash rows)

module _ (env : Env) (token : String) (db : Db) where
  revoked-none :
      (revoke_session env token db).0 ≡ ok tt
      → find_session (env.sha256 token) (revoke_session env token db).1.sessions ≡ none
  unfolding revoke_session
  revoked-none done =
      let (u, got, rest) = >>=-eq-ok (statement env "delete session") _ db tt done in
      ap (λ p. find_session (env.sha256 token) p.1.sessions) rest
      ∙ find_session-deleted (env.sha256 token) db.sessions

  refused :
      (v : Db)
      → find_session (env.sha256 token) v.sessions ≡ none
      → (user_by_session env token v).0 ≡ err session_not_found
  unfolding user_by_session
  refused v gone = ground (arith, gone)

  -- A token whose session was revoked finds no user any more.
  pub revoke_session-refused :
      (revoke_session env token db).0 ≡ ok tt
      → (user_by_session env token (revoke_session env token db).1).0 ≡ err session_not_found
  revoke_session-refused done = refused (revoke_session env token db).1 (revoked-none done)
