-- ===== src/Jsonl/Lock/Exclusion.antt =====
-- lock.go: sequences of calls on the locks, while one of them is held.
use buat_postingan.Base.{
  ℕ, ◌<◌, ◌≤◌, suc, eq_refl, String, ◌≡◌, ◌∙◌, subst, sym, ◌⊎◌, true, false, List, [], ◌∷◌, inl,
  inr, Bool-cases, arith, str_eq, eq_iff, is_empty, All,
}
use native.Mathlib.Nat.{le_trans}
use buat_postingan.Apperr.{thread_busy, new}
use buat_postingan.Exec.{err}
use buat_postingan.Jsonl.Disk.{Os, LockRecord, LockFile, World, lock_open, lock_read}
use buat_postingan.Jsonl.Lock.{unix, try_acquire, release, is_busy}

-- A call on the lock of a thread, whoever makes it.
pub data LockCall : Type 0 where
  acquire_call busy_call : String → LockCall
  release_call : String → String → LockCall

-- Any call but the release of this lock by its token.
abbrev pub Respects : String → String → LockCall → Type 0
Respects tid token (release_call t tok) = (str_eq t tid ≡ true) → str_eq token tok ≡ false
Respects tid token _ = Unit

module _ (os : Os) (ttl_sec : ℕ) where
  -- The call, its answer dropped.
  unfoldable pub call : LockCall → World → World
  call (acquire_call t) w = (try_acquire os ttl_sec t w).1
  call (busy_call t) w = (is_busy os t w).1
  call (release_call t token) w = (release os t token w).1

  tick-try_acquire : (t : String) (w : World) → w.tick ≤ (try_acquire os ttl_sec t w).1.tick
  unfolding try_acquire
  tick-try_acquire t w = ground arith

  unfoldable pub calls : List LockCall → World → World
  unfolding call
  calls [] w = w
  calls (c ∷ cs) w = calls cs (call c w)

  tick-call : (c : LockCall) (w : World) → w.tick ≤ (call c w).tick
  unfolding call try_acquire is_busy release
  tick-call (acquire_call t) w = ground arith
  tick-call (busy_call t) w = ground arith
  tick-call (release_call t token) w = ground arith

  tick-calls : (cs : List LockCall) (w : World) → w.tick ≤ (calls cs w).tick
  unfolding calls
  tick-calls [] w = omega arith
  tick-calls (c ∷ cs) w = omega (arith, tick-call c w, tick-calls cs (call c w))

-- The lock of the thread is held, and no lock file fails to be read, and the clock shows it unexpired, at every call before `end`.
pub record IsHeld (os : Os) (tid : String) (rec : LockRecord) (end : ℕ) (w : World) : Type 0 where
  pub held : w.locks tid ≡ LockFile.held rec
  pub named : is_empty rec.token ≡ false
  pub readable : (n : ℕ) → n < end → os.fails n lock_read ≡ false
  pub unexpired : (n : ℕ) → n < end → unix (os.clock n) < rec.expires_at

module _ (os : Os) (ttl_sec : ℕ) (tid : String) (rec : LockRecord) (end : ℕ) (w : World) where
  acquire-other :
      (t : String) → str_eq t tid ≡ false → (try_acquire os ttl_sec t w).1.locks tid ≡ w.locks tid
  unfolding try_acquire
  acquire-other t e = ground arith

  acquire_self :
      IsHeld os tid rec end w
      → (try_acquire os ttl_sec tid w).1.tick ≤ end
      → (try_acquire os ttl_sec tid w).1.locks tid ≡ LockFile.held rec
  unfolding try_acquire
  acquire_self h room =
      ground (
        arith,
        eq_refl tid,
        h.held,
        h.named,
        h.readable (suc w.tick),
        h.unexpired (suc (suc w.tick)),
      )

  busy-other : (t : String) → str_eq t tid ≡ false → (is_busy os t w).1.locks tid ≡ w.locks tid
  unfolding is_busy
  busy-other t e = ground arith

  busy_self :
      IsHeld os tid rec end w
      → (is_busy os tid w).1.tick ≤ end
      → (is_busy os tid w).1.locks tid ≡ LockFile.held rec
  unfolding is_busy
  busy_self h room = ground (arith, h.held, h.readable w.tick, h.unexpired (suc w.tick))

  release-other :
      (t token : String) → str_eq t tid ≡ false → (release os t token w).1.locks tid ≡ w.locks tid
  unfolding release
  release-other t token e = ground arith

  release_self :
      (token : String)
      → IsHeld os tid rec end w
      → str_eq rec.token token ≡ false
      → (release os tid token w).1.locks tid ≡ LockFile.held rec
  unfolding release
  release_self token h other = ground (arith, h.held)

module _ (os : Os) (ttl_sec : ℕ) (tid : String) (rec : LockRecord) (end : ℕ) where
  IsHeld-at :
      (w v : World)
      → v.locks tid ≡ LockFile.held rec
      → IsHeld os tid rec end w
      → IsHeld os tid rec end v
  IsHeld-at w v e h = record {
    held = e;
    named = h.named;
    readable = h.readable;
    unexpired = h.unexpired;
  }

  call-IsHeld :
      (c : LockCall) (w : World)
      → Respects tid rec.token c
      → IsHeld os tid rec end w
      → (call os ttl_sec c w).tick ≤ end
      → IsHeld os tid rec end (call os ttl_sec c w)
  unfolding call
  call-IsHeld (acquire_call t) w keeps h room = elim (Bool-cases (str_eq t tid)) [
    | inl e ↦
        IsHeld-at w _
          (subst
            (λ u.
              (try_acquire os ttl_sec u w).1.tick ≤ end
              → (try_acquire os ttl_sec u w).1.locks tid ≡ LockFile.held rec)
            (sym ((eq_iff t tid).0 e)) (acquire_self os ttl_sec tid rec end w h) room)
          h
    | inr e ↦ IsHeld-at w _ (acquire-other os ttl_sec tid rec end w t e ∙ h.held) h
  ]
  call-IsHeld (busy_call t) w keeps h room = elim (Bool-cases (str_eq t tid)) [
    | inl e ↦
        IsHeld-at w _
          (subst
            (λ u. (is_busy os u w).1.tick ≤ end → (is_busy os u w).1.locks tid ≡ LockFile.held rec)
            (sym ((eq_iff t tid).0 e)) (busy_self os ttl_sec tid rec end w h) room)
          h
    | inr e ↦ IsHeld-at w _ (busy-other os ttl_sec tid rec end w t e ∙ h.held) h
  ]
  call-IsHeld (release_call t token) w keeps h room = elim (Bool-cases (str_eq t tid)) [
    | inl e ↦
        IsHeld-at w _
          (subst (λ u. (release os u token w).1.locks tid ≡ LockFile.held rec)
            (sym ((eq_iff t tid).0 e)) (release_self os ttl_sec tid rec end w token h (keeps e)))
          h
    | inr e ↦ IsHeld-at w _ (release-other os ttl_sec tid rec end w t token e ∙ h.held) h
  ]

  calls-IsHeld :
      (cs : List LockCall) (w : World)
      → All (Respects tid rec.token) cs
      → IsHeld os tid rec end w
      → (calls os ttl_sec cs w).tick ≤ end
      → IsHeld os tid rec end (calls os ttl_sec cs w)
  unfolding calls
  calls-IsHeld [] w keeps h room = h
  calls-IsHeld (c ∷ cs) w keeps h room =
      calls-IsHeld cs (call os ttl_sec c w) keeps.1
        (call-IsHeld c w keeps.0 h (omega (arith, tick-calls os ttl_sec cs (call os ttl_sec c w))))
        room

  acquire-refused :
      (w : World)
      → IsHeld os tid rec end w
      → (try_acquire os ttl_sec tid w).1.tick ≤ end
      → (os.fails w.tick lock_open ≡ true)
        ⊎ ((try_acquire os ttl_sec tid w).0 ≡ err (new 409 thread_busy "thread busy"))
  unfolding try_acquire
  acquire-refused w h room =
      ground (
        arith,
        eq_refl tid,
        h.held,
        h.named,
        h.readable (suc w.tick),
        h.unexpired (suc (suc w.tick)),
      )

  -- While no read of a lock file fails, and the lock has not expired: after any calls on the locks
  -- of any threads, none of them the release of this lock by its own token, the lock is still held
  -- by that token, and another attempt to acquire it fails: the file does not open, or the thread
  -- is busy.
  pub exclusion :
      (cs : List LockCall) (w : World)
      → All (Respects tid rec.token) cs
      → IsHeld os tid rec end w
      → (try_acquire os ttl_sec tid (calls os ttl_sec cs w)).1.tick ≤ end
      → ((calls os ttl_sec cs w).locks tid ≡ LockFile.held rec)
        × ((os.fails (calls os ttl_sec cs w).tick lock_open ≡ true)
            ⊎ ((try_acquire os ttl_sec tid (calls os ttl_sec cs w)).0
                ≡ err (new 409 thread_busy "thread busy")))
  exclusion cs w keeps h room =
      let before : (calls os ttl_sec cs w).tick ≤ end =
        le_trans (tick-try_acquire os ttl_sec tid (calls os ttl_sec cs w)) room in
      let h' : IsHeld os tid rec end (calls os ttl_sec cs w) = calls-IsHeld cs w keeps h before in
      (h'.held, acquire-refused (calls os ttl_sec cs w) h' room)
