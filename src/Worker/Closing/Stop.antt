-- ===== src/Worker/Closing/Stop.antt =====
-- worker.go: a stop request that reaches the model's call of a round.
use buat_postingan.Base.{
  ℕ, zero, suc, ◌+◌, String, Bool, true, false, ◌≡◌, refl, sym, ap, ◌∙◌, Option, some, [], ◌∷◌,
  ◌++◌, append_assoc, leb, ◌==◌, ◌&&◌, arith, if◌then◌else◌,
}
use buat_postingan.Exec.{Result, ok, err, pure, proceed, ◌>>=◌, ◌>>◌, >>=-eq-ok}
use buat_postingan.Json.{field}
use buat_postingan.Domain.{TurnJob, TranscriptItem}
use buat_postingan.Domain.ItemType
use buat_postingan.Jsonl.LineMap.{item_to_line_map}
use buat_postingan.Jsonl.Disk.{Os, World, M}
use buat_postingan.Jsonl.Interrupt
use buat_postingan.Worker.{Deps, Tools, chat_cancelled}
use buat_postingan.Worker.Items.{append, stopped_by_user}
use buat_postingan.Worker.Agent.{
  Chat, Loop, agent_round, agent_loop, finish, cut_off, model_field, poll_said,
}
use buat_postingan.Worker.Closing.{IsWritten, append_id-IsWritten}

module _ (os : Os) (deps : Deps) (job : TurnJob) (chat : Chat) (tools : Tools) (workspace : String)
    (st : Loop) (w : World) where
  cancelled-round :
      (last : Bool)
      → chat (suc w.tick) st.messages true st.pinned ≡ chat_cancelled
      → agent_round os deps job chat tools workspace last st w
        ≡ cut_off os deps job st (record w { tick = suc (suc w.tick) })
  unfolding agent_round
  cancelled-round last stop = rw stop refl

  poll-quiet :
      (left rounds : ℕ)
      → Interrupt.has_flag (w.flags job.thread_id) job.turn_id ≡ false
      → agent_loop os deps job chat tools workspace (suc left) rounds st w
        ≡ (do
          r ← agent_round os deps job chat tools workspace (left == 0) st
          if r.0
              then pure (some (suc rounds, r.1))
              else agent_loop os deps job chat tools workspace left (suc rounds) r.1)
            w
  unfolding agent_loop Interrupt.is_requested
  poll-quiet left rounds quiet = rw quiet refl

  -- the state in which the stop is written
  abbrev stopping : World
  stopping = (Interrupt.clear os job.thread_id job.turn_id (record w { tick = suc (suc w.tick) })).1

  stopping-lines : stopping.lines ≡ w.lines
  unfolding Interrupt.clear
  stopping-lines = ground arith

  abbrev left_by : TranscriptItem → M (Bool × Loop)
  left_by it = pure (true, st)

  after_append :
      {A : Type 0} (r : Result TranscriptItem) (k : Bool × Loop → M A) (v : World)
      → proceed {B = A} (proceed r left_by v).0 k (proceed r left_by v).1
        ≡ proceed r (λ _. k (true, st)) v
  after_append (ok it) k v = refl
  after_append (err e) k v = refl

  -- The loop is left as if the round had answered.
  cancelled-loop :
      (left rounds : ℕ)
      → chat (suc w.tick) st.messages true st.pinned ≡ chat_cancelled
      → Interrupt.has_flag (w.flags job.thread_id) job.turn_id ≡ false
      → agent_loop os deps job chat tools workspace (suc left) rounds st w
        ≡ (append os job ItemType.turn_failed (stopped_by_user deps) >>= λ _.
              pure (some (suc rounds, st)))
            stopping
  cancelled-loop left rounds stop quiet =
      let k : Bool × Loop → M (Option (ℕ × Loop)) = λ r.
        if r.0
        then pure (some (suc rounds, r.1))
        else agent_loop os deps job chat tools workspace left (suc rounds) r.1 in
      poll-quiet left rounds quiet
      ∙ ap (λ p. proceed p.0 k p.1) (cancelled-round (left == 0) stop)
      ∙ after_append (append os job ItemType.turn_failed (stopped_by_user deps) stopping).0 k
          (append os job ItemType.turn_failed (stopped_by_user deps) stopping).1

  finish-append :
      (limit rounds : ℕ) (v : World)
      → (leb limit rounds && st.last_tool_only) ≡ false
      → finish os deps job limit (some (rounds, st)) v
        ≡ (append os job ItemType.turn_completed
                (field "usage" st.last_usage (model_field os deps job st.last_model))
              >> pure tt)
            v
  finish-append limit rounds v short = rw short refl

-- Two items are the new last lines of the thread.
pub record AreWritten (tid : String) (first second : TranscriptItem) (w v : World) : Type 0 where
  pub lines : v.lines tid ≡ w.lines tid ++ item_to_line_map first ∷ item_to_line_map second ∷ []

IsWritten-twice :
    (tid : String) (first second : TranscriptItem) (u v w : World)
    → IsWritten tid first u v
    → IsWritten tid second v w
    → AreWritten tid first second u w
IsWritten-twice tid first second u v w h k = record {
  lines =
      k.lines
      ∙ ap (λ lines. lines ++ item_to_line_map second ∷ []) h.lines
      ∙ append_assoc (u.lines tid) (item_to_line_map first ∷ []) (item_to_line_map second ∷ []);
}

module _ (os : Os) (deps : Deps) (job : TurnJob) (chat : Chat) (tools : Tools) (workspace : String)
    (st : Loop) (w : World) where
  -- The same from the round itself on.
  pub cancelled_here :
      (left limit rounds : ℕ) (u : Unit {0})
      → chat (suc w.tick) st.messages true st.pinned ≡ chat_cancelled
      → Interrupt.has_flag (w.flags job.thread_id) job.turn_id ≡ false
      → (leb limit (suc rounds) && st.last_tool_only) ≡ false
      → ((agent_loop os deps job chat tools workspace (suc left) rounds st
            >>= finish os deps job limit)
          w).0
        ≡ ok u
      → (failed : TranscriptItem) × (completed : TranscriptItem) × AreWritten job.thread_id failed
          completed w
          ((agent_loop os deps job chat tools workspace (suc left) rounds st
              >>= finish os deps job limit)
            w).1
        × (failed.item_type ≡ ItemType.turn_failed)
        × (completed.item_type ≡ ItemType.turn_completed)
  unfolding append
  cancelled_here left limit rounds u stop quiet short done =
      let from = stopping os deps job chat tools workspace st w in
      let mark = append os job ItemType.turn_failed (stopped_by_user deps) in
      let leave : TranscriptItem → M (Option (ℕ × Loop)) = λ it. pure (some (suc rounds, st)) in
      let close = finish os deps job limit in
      let usage = field "usage" st.last_usage (model_field os deps job st.last_model) in
      let whole =
        ap (λ p. proceed p.0 close p.1)
          (cancelled-loop os deps job chat tools workspace st w left rounds stop quiet) in
      let (r, got, rest) =
        >>=-eq-ok (mark >>= leave) close from u (sym (ap (λ p. p.0) whole) ∙ done) in
      let (failed, wrote, left_so) = >>=-eq-ok mark leave from r got in
      let v = (mark from).1 in
      let ending =
        whole
        ∙ ap (λ p. proceed p.0 close p.1) left_so
        ∙ finish-append os deps job chat tools workspace st w limit (suc rounds) v short in
      let (completed, wrote', rest') =
        >>=-eq-ok (append os job ItemType.turn_completed usage) (λ it. pure tt) v u
          (sym (ap (λ p. p.0) ending) ∙ done) in
      let (one, typed, turned) =
        append_id-IsWritten os job ItemType.turn_failed failed from "" (stopped_by_user deps)
          wrote in
      let (two, typed', turned') =
        append_id-IsWritten os job ItemType.turn_completed completed v "" usage wrote' in
      (
        failed,
        completed,
        record {
          lines =
              ap (λ p. p.1.lines job.thread_id) (ending ∙ rest')
              ∙ (IsWritten-twice job.thread_id failed completed from v _ one two).lines
              ∙ ap
                  (λ lines.
                    lines job.thread_id
                    ++ item_to_line_map failed ∷ item_to_line_map completed ∷ [])
                  (stopping-lines os deps job chat tools workspace st w);
        },
        typed,
        typed',
      )

module _ (os : Os) (deps : Deps) (job : TurnJob) (chat : Chat) (tools : Tools)
    (workspace : String) where
  -- A round that goes on: no stop is requested, and the model's answer calls tools or is asked for
  -- again. It takes the loop and the files to the next round.
  pub record GoesOn (st : Loop) (w : World) (st' : Loop) (w' : World) : Type 0 where
    pub requested : Result Bool
    pub polled : World
    pub poll : Interrupt.is_requested os job.thread_id job.turn_id w ≡ (requested, polled)
    pub quiet : poll_said requested ≡ false
    pub round : agent_round os deps job chat tools workspace false st polled ≡ (ok (false, st'), w')

  -- `n` rounds that go on
  abbrev pub Ran : ℕ → Loop → World → Loop → World → Type 0
  Ran zero st w st' w' = (st ≡ st') × (w ≡ w')
  Ran (suc n) st w st' w' =
      (mid : Loop) × (between : World) × GoesOn st w mid between × Ran n mid between st' w'

  loop-GoesOn :
      (left rounds : ℕ) (st : Loop) (w : World) (st' : Loop) (w' : World)
      → (left == 0) ≡ false
      → GoesOn st w st' w'
      → agent_loop os deps job chat tools workspace (suc left) rounds st w
        ≡ agent_loop os deps job chat tools workspace left (suc rounds) st' w'
  unfolding agent_loop
  loop-GoesOn left rounds st w st' w' not_last goes =
      let k : Bool × Loop → M (Option (ℕ × Loop)) = λ r.
        if r.0
        then pure (some (suc rounds, r.1))
        else agent_loop os deps job chat tools workspace left (suc rounds) r.1 in
      rw (goes.poll, goes.quiet, not_last) (ap (λ p. proceed p.0 k p.1) goes.round)

  loop-Ran :
      (n left rounds : ℕ) (st : Loop) (w : World) (st' : Loop) (w' : World)
      → Ran n st w st' w'
      → agent_loop os deps job chat tools workspace (n + suc left) rounds st w
        ≡ agent_loop os deps job chat tools workspace (suc left) (rounds + n) st' w'
  loop-Ran zero left rounds st w st' w' ran =
      let none_more : 0 + suc left ≡ suc left = omega arith in
      let same : rounds + 0 ≡ rounds = omega arith in rw (none_more, same, ran.0, ran.1) refl
  loop-Ran (suc n) left rounds st w st' w' (mid, between, goes, ran) =
      let one_more : suc n + suc left ≡ suc (n + suc left) = omega arith in
      let one_done : rounds + suc n ≡ suc rounds + n = omega arith in
      let not_last : ((n + suc left) == 0) ≡ false = ground arith in
      rw (one_more, one_done)
        (loop-GoesOn (n + suc left) rounds st w mid between not_last goes
          ∙ loop-Ran n left (suc rounds) mid between st' w' ran)

  -- After any rounds that went on, when no stop is requested as a round begins and the model's call
  -- of that round is cancelled by one, then a loop and an end of it that succeed append two items to
  -- what the thread had as the round began, a `turn.failed` and after it a `turn.completed`, as long
  -- as no message on the limit of the rounds is due.
  pub cancelled-completed :
      (n left limit rounds : ℕ) (st : Loop) (w : World) (st' : Loop) (w' : World) (u : Unit {0})
      → Ran n st w st' w'
      → chat (suc w'.tick) st'.messages true st'.pinned ≡ chat_cancelled
      → Interrupt.has_flag (w'.flags job.thread_id) job.turn_id ≡ false
      → (leb limit (suc (rounds + n)) && st'.last_tool_only) ≡ false
      → ((agent_loop os deps job chat tools workspace (n + suc left) rounds st
            >>= finish os deps job limit)
          w).0
        ≡ ok u
      → (failed : TranscriptItem) × (completed : TranscriptItem) × AreWritten job.thread_id failed
          completed w'
          ((agent_loop os deps job chat tools workspace (n + suc left) rounds st
              >>= finish os deps job limit)
            w).1
        × (failed.item_type ≡ ItemType.turn_failed)
        × (completed.item_type ≡ ItemType.turn_completed)
  cancelled-completed n left limit rounds st w st' w' u ran stop quiet short done =
      let whole =
        ap (λ p. proceed p.0 (finish os deps job limit) p.1)
          (loop-Ran n left rounds st w st' w' ran) in
      let (failed, completed, wrote, typed, typed') =
        cancelled_here os deps job chat tools workspace st' w' left limit (rounds + n) u stop quiet
          short (sym (ap (λ p. p.0) whole) ∙ done) in
      (
        failed,
        completed,
        record { lines = ap (λ p. p.1.lines job.thread_id) whole ∙ wrote.lines },
        typed,
        typed',
      )
