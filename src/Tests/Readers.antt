-- ===== src/Tests/Readers.antt =====
-- A reader of a thread that fails and comes back, and sessions of a user.
use buat_postingan.Base.{
  ◌≤◌, ◌≡◌, refl, true, false, none, some, List, [], ◌∷◌, ◌++◌, str_eq, length, arith,
  if◌then◌else◌,
}
use buat_postingan.Apperr.{plain}
use buat_postingan.Exec.{ok, err}
use buat_postingan.Domain.{TranscriptItem}
use buat_postingan.Sse.Events.{map_item}
use buat_postingan.Sse.Streamer.{Stream, Emit, emit_items}
use buat_postingan.Sse.Streamer.Resume.{polled, events_after, emit_items-resume}
use buat_postingan.Jsonl.Store.{after}
use buat_postingan.Auth.{
  Env, Db, UserRow, create_session, user_by_session, revoke_session, user_of, sessions_of,
  session_not_found, purge_expired_sessions, trim_user_sessions, rows_where, find_user,
  find_session,
}
use buat_postingan.Auth.Sessions.{
  IsSession, create_session-few, user_by_session-IsSession, revoke_session-refused,
}
use buat_postingan.Tests.Fixtures.{message, failure}

abbrev items : List TranscriptItem
items = message ∷ failure ∷ []

abbrev later : List TranscriptItem
later = record failure { seq = 3 } ∷ []

-- The first call fails at its second event.
abbrev broken : Emit
broken [] event = none
broken (e ∷ es) event = some (plain "gone")

abbrev steady : Emit
steady sent event = none

abbrev reader : Stream
reader = record { cursor = 0; sent = [] }

abbrev after_break : Stream
after_break = polled broken steady items later reader

caught_up : (emit_items steady (after after_break.cursor (items ++ later)) after_break).0 ≡ ok tt
unfolding emit_items map_item
caught_up = refl

emit_items-resume_example :
    (emit_items steady (after after_break.cursor (items ++ later)) after_break).1.sent
    ≡ [] ++ events_after 0 (items ++ later)
emit_items-resume_example =
    emit_items-resume broken steady items later reader
      ((omega arith, (omega arith, tt)), ((omega arith, tt), (tt, tt))) caught_up

-- Every time is written "b", which reads as the time 200.
abbrev env : Env
env = record {
  fails = λ n. false;
  clock = λ n. 100;
  token = λ n. some "secret";
  format = λ t. "b";
  parse = λ s. if str_eq s "b" then some 200 else none;
  text_le = λ a b. false;
  sha256 = λ s. s;
  bcrypt = λ n s. some s;
  bcrypt_matches = str_eq;
  same_name = str_eq;
}

abbrev owner : UserRow
owner = record {
  id = 1;
  username = "ann";
  display_name = "Ann";
  role = "admin";
  password_hash = "password";
  active = true;
}

abbrev empty_db : Db
empty_db = record { users = owner ∷ []; sessions = []; next_id = 2; tick = 0 }

created : (create_session env 1 60 empty_db).0 ≡ ok ("secret", 160)
unfolding create_session purge_expired_sessions trim_user_sessions rows_where find_session
created = refl

create_session-few_example :
    length (sessions_of 1 (create_session env 1 60 empty_db).1.sessions) ≤ 10
create_session-few_example = create_session-few env 1 60 empty_db ("secret", 160) created

abbrev open_db : Db
open_db = record empty_db {
  sessions = record { token_hash = "secret"; user_id = 1; expires_at = "b"; created_at = "b" } ∷ [];
}

known : (user_by_session env "secret" open_db).0 ≡ ok (user_of owner)
unfolding user_by_session find_user find_session
known = refl

user_by_session-IsSession_example : IsSession env open_db "secret" (user_of owner) 100
user_by_session-IsSession_example =
    user_by_session-IsSession env "secret" open_db (user_of owner) known

revoked : (revoke_session env "secret" open_db).0 ≡ ok tt
unfolding revoke_session
revoked = refl

revoke_session-refused_example :
    (user_by_session env "secret" (revoke_session env "secret" open_db).1).0 ≡ err session_not_found
revoke_session-refused_example = revoke_session-refused env "secret" open_db revoked
