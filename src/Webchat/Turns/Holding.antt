-- ===== src/Webchat/Turns/Holding.antt =====
-- methods.go: the lock and the queue around what runs under the lock of a thread.
use buat_postingan.Base.{ℕ, suc, ◌+◌, String, ◌≡◌, sym, ap, ◌∙◌, ◌∷◌, inl, inr, subst}
use buat_postingan.Apperr.{Error}
use buat_postingan.Exec.{
  ok, err, Keeps, FailKeeps, Steps, on_error, on_error-eq-err, on_error-eq-ok, >>=-eq-ok,
  >>=-eq-err, ◌>>=◌,
}
use buat_postingan.Domain.{TurnJob}
use buat_postingan.Jsonl.Disk.{Os, LockRecord, LockFile, World, M, SameFiles, Reads}
use buat_postingan.Jsonl.Lock.{unix, try_acquire, release}
use buat_postingan.Jsonl.Lock.Holding.{
  CanRelease, try_acquire-held, try_acquire-failed, try_acquire-queue, release-own, release-queue,
}
use buat_postingan.Webchat.Turns.Locking.{locks_of, queue_of}

-- A lock of the thread after the run was there before it, and the queue is what it was.
pub record Unchanged (tid : String) (w v : World) : Type 0 where
  pub lock : (rec : LockRecord) → v.locks tid ≡ LockFile.held rec → w.locks tid ≡ LockFile.held rec
  pub queue : v.queue ≡ w.queue

-- The lock of the thread is held by the token until the time, and the queue got the job.
pub record Taken (tid token : String) (expires_at : ℕ) (job : TurnJob) (w v : World) : Type 0 where
  pub lock : v.locks tid ≡ LockFile.held (record { token = token; expires_at = expires_at })
  pub queue : v.queue ≡ job ∷ w.queue

module _ (os : Os) (tid : String) {A : Type 0} (body : M A) where
  locked-failed :
      (w : World) (rec : LockRecord) (e : Error)
      → CanRelease os
      → Keeps locks_of body
      → FailKeeps queue_of body
      → w.locks tid ≡ LockFile.held rec
      → (on_error body (release os tid rec.token) w).0 ≡ err e
      → ((on_error body (release os tid rec.token) w).1.locks tid ≡ LockFile.absent)
        × ((on_error body (release os tid rec.token) w).1.queue ≡ w.queue)
  locked-failed w rec e can keeps fails held failed =
      let v = (body w).1 in
      let (failed_body, left) = on_error-eq-err body (release os tid rec.token) w e failed in
      let held' = ap (λ locks. locks tid) (keeps.kept w) ∙ held in
      (
        ap (λ u. u.locks tid) left ∙ release-own os 0 tid v rec can held',
        ap (λ u. u.queue) left ∙ release-queue os 0 tid v rec.token ∙ fails.kept w e failed_body,
      )

  locked-ok :
      (w : World) (token : String) (g : A → TurnJob) (a : A)
      → Keeps locks_of body
      → Steps queue_of (λ res queue. g res ∷ queue) body
      → (on_error body (release os tid token) w).0 ≡ ok a
      → ((on_error body (release os tid token) w).1.locks ≡ w.locks)
        × ((on_error body (release os tid token) w).1.queue ≡ g a ∷ w.queue)
  locked-ok w token g a keeps steps done =
      let (done_body, left) = on_error-eq-ok body (release os tid token) w a done in
      (ap (λ u. u.locks) left ∙ keeps.kept w, ap (λ u. u.queue) left ∙ steps.stepped w a done_body)

-- What is checked, then what runs under the lock by the token.
abbrev pub guarded : {C A : Type 0} → Os → ℕ → String → M C → (C → String → M A) → M A
guarded os ttl_sec tid checked body = checked >>= λ c.
    try_acquire os ttl_sec tid >>= λ token. on_error (body c token) (release os tid token)

module _ (os : Os) (ttl_sec : ℕ) (tid : String) {A : Type 0} (body : String → M A) where
  from_lock : M A
  from_lock = try_acquire os ttl_sec tid >>= λ token. on_error (body token) (release os tid token)

  from_lock-failed :
      (w : World) (e : Error)
      → CanRelease os
      → ((token : String) → Keeps locks_of (body token))
      → ((token : String) → FailKeeps queue_of (body token))
      → (from_lock w).0 ≡ err e
      → Unchanged tid w (from_lock w).1
  unfolding from_lock
  from_lock-failed w e can keeps fails failed =
      elim (>>=-eq-err (try_acquire os ttl_sec tid) _ w e failed) [
        | inl (refused, left) ↦ record {
          lock = λ rec held.
              try_acquire-failed os ttl_sec tid w e rec refused
                (sym (ap (λ u. u.locks tid) left) ∙ held);
          queue = ap (λ u. u.queue) left ∙ try_acquire-queue os ttl_sec tid w;
        }
        | inr (token, got, rest) ↦
            let v = (try_acquire os ttl_sec tid w).1 in
            let (gone, same) =
              locked-failed os tid (body token) v _ e can (keeps token) (fails token)
                (try_acquire-held os ttl_sec tid w token got) (sym (ap (λ p. p.0) rest) ∙ failed) in
            record {
              lock = λ rec held. cc (gone, held, rest);
              queue = ap (λ p. p.1.queue) rest ∙ same ∙ try_acquire-queue os ttl_sec tid w;
            }
      ]

  from_lock-ok :
      (w : World) (g : String → A → TurnJob) (a : A)
      → ((token : String) → Keeps locks_of (body token))
      → ((token : String) → Steps queue_of (λ res queue. g token res ∷ queue) (body token))
      → (from_lock w).0 ≡ ok a
      → (token : String) × Taken tid token
          (unix (os.clock (suc (suc w.tick))) + ttl_sec)
          (g token a)
          w
          (from_lock w).1
  unfolding from_lock
  from_lock-ok w g a keeps steps done =
      let (token, got, rest) = >>=-eq-ok (try_acquire os ttl_sec tid) _ w a done in
      let v = (try_acquire os ttl_sec tid w).1 in
      let (locks, queue) =
        locked-ok os tid (body token) v token (g token) a (keeps token) (steps token)
          (sym (ap (λ p. p.0) rest) ∙ done) in
      (
        token,
        record {
          lock =
              ap (λ p. p.1.locks tid) rest
              ∙ ap (λ f. f tid) locks
              ∙ try_acquire-held os ttl_sec tid w token got;
          queue =
              ap (λ p. p.1.queue) rest
              ∙ queue
              ∙ ap (λ q. g token a ∷ q) (try_acquire-queue os ttl_sec tid w);
        },
      )

Unchanged-after :
    (tid : String) (u w v : World) → SameFiles u w → Unchanged tid w v → Unchanged tid u v
Unchanged-after tid u w v same h = record {
  lock = λ rec held. sym (ap (λ f. f tid) same.locks) ∙ h.lock rec held;
  queue = h.queue ∙ same.queue;
}

module _ (os : Os) (ttl_sec : ℕ) (tid : String) {C A : Type 0} (checked : M C)
    (body : C → String → M A) where
  -- checked first, then under the lock
  pub guarded-failed :
      (w : World) (e : Error)
      → CanRelease os
      → Reads checked
      → ((c : C) (token : String) → Keeps locks_of (body c token))
      → ((c : C) (token : String) → FailKeeps queue_of (body c token))
      → (guarded os ttl_sec tid checked body w).0 ≡ err e
      → Unchanged tid w (guarded os ttl_sec tid checked body w).1
  unfolding from_lock
  guarded-failed w e can reads keeps fails failed =
      elim (>>=-eq-err checked (λ c. from_lock os ttl_sec tid (body c)) w e failed) [
        | inl (refused, left) ↦ record {
          lock = λ rec held.
              sym (ap (λ f. f tid) (reads.at w).locks) ∙ sym (ap (λ u. u.locks tid) left) ∙ held;
          queue = ap (λ u. u.queue) left ∙ (reads.at w).queue;
        }
        | inr (c, got, rest) ↦
            subst (λ p. Unchanged tid w p.1) (sym rest)
              (Unchanged-after tid w (checked w).1 _ (reads.at w) (
                from_lock-failed os ttl_sec tid (body c) (checked w).1 e can (keeps c) (fails c)
                  (sym (ap (λ p. p.0) rest) ∙ failed)))
      ]

  pub guarded-ok :
      (w : World) (g : C → String → A → TurnJob) (a : A)
      → Reads checked
      → ((c : C) (token : String) → Keeps locks_of (body c token))
      → ((c : C) (token : String)
          → Steps queue_of (λ res queue. g c token res ∷ queue) (body c token))
      → (guarded os ttl_sec tid checked body w).0 ≡ ok a
      → (c : C) × (token : String) × (n : ℕ) × ((checked w).0 ≡ ok c)
        × Taken tid token
            (unix (os.clock n) + ttl_sec)
            (g c token a)
            w
            (guarded os ttl_sec tid checked body w).1
  unfolding from_lock
  guarded-ok w g a reads keeps steps done =
      let (c, got, rest) = >>=-eq-ok checked (λ c. from_lock os ttl_sec tid (body c)) w a done in
      let (token, took) =
        from_lock-ok os ttl_sec tid (body c) (checked w).1 (g c) a (keeps c) (steps c)
          (sym (ap (λ p. p.0) rest) ∙ done) in
      (
        c,
        token,
        _,
        got,
        record {
          lock = ap (λ p. p.1.locks tid) rest ∙ took.lock;
          queue =
              ap (λ p. p.1.queue) rest ∙ took.queue ∙ ap (λ q. g c token a ∷ q) (reads.at w).queue;
        },
      )
