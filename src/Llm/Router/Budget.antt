-- ===== src/Llm/Router/Budget.antt =====
-- router.go: the attempts of `Chat` and its answer.
use buat_postingan.Base.{
  ℕ, zero, suc, ◌≤◌, String, Bool, ◌≡◌, refl, true, false, Option, none, some, List, [], ◌∷◌, ltb,
  ◌==◌, ◌&&◌, not, length, arith, Bool-cases, inl, inr, if◌then◌else◌,
}
use buat_postingan.Llm.Router.{
  Provider, Reply, answer, transient, fatal, Outcome, answered, failed, exhausted, Step, stop,
  onward, replied, try_here, onwards, try_next, try_all, outcome_of, provider_of, is_cons, chat,
}

-- An answer is what the client gave to the last call of the log.
abbrev pub IsReply :
    {A E : Type 0} → (List String → String → Reply A E) → Outcome A E → List String → Type 0
IsReply client (answered a) log =
    (id : String) × (before : List String) × (log ≡ id ∷ before) × (client before id ≡ answer a)
IsReply client (failed e) log = Unit
IsReply client exhausted log = Unit

module _ {A E : Type 0} (client : List String → String → Reply A E) (cancelled : List String → Bool)
    (budget : ℕ) where
  abbrev Within : Step A E → Type 0
  Within (stop o log) = (length log ≤ budget) × IsReply client o log
  Within (onward attempts log last) = (attempts ≡ length log) × (attempts ≤ budget)

  abbrev Ends : Outcome A E × List String → Type 0
  Ends r = (length r.1 ≤ budget) × IsReply client r.0 r.1

  Ends-outcome_of :
      (last : Option E) (log : List String) → length log ≤ budget → Ends (outcome_of last, log)
  Ends-outcome_of none log h = (h, tt)
  Ends-outcome_of (some e) log h = (h, tt)

  Within-replied :
      (more : Bool) (left : ℕ) (id : String) (log : List String) (reply : Reply A E)
      (rest : E → Step A E)
      → client log id ≡ reply
      → suc (length log) ≤ budget
      → ((e : E) → Within (rest e))
      → Within (replied client cancelled budget more left (suc (length log)) (id ∷ log) reply rest)
  Within-replied more left id log (answer a) rest e h k = (h, (id, log, refl, e))
  Within-replied more left id log (fatal x) rest e h k = (h, tt)
  Within-replied more left id log (transient x) rest e h k =
      within_onward
        (not (ltb 0 left && ltb (suc (length log)) budget)
          && not (more && ltb (suc (length log)) budget))
        (cancelled (id ∷ log))
    where
      within_onward :
          (done cut : Bool)
          → Within (
              if done
              then onward (suc (length log)) (id ∷ log) (some x)
              else if cut
              then stop (failed x) (id ∷ log)
              else rest x)
      within_onward true cut = (refl, h)
      within_onward false true = (h, tt)
      within_onward false false = k x

  Within-try_here :
      (more : Bool) (id : String) (left : ℕ) (log : List String) (last : Option E)
      → length log ≤ budget
      → Within (try_here client cancelled budget more id left (length log) log last)
  unfolding try_here
  Within-try_here more id zero log last h = (refl, h)
  Within-try_here more id (suc left) log last h = elim (Bool-cases (ltb (length log) budget)) [
    | inl room ↦
        let fits : suc (length log) ≤ budget = ground arith in
        rw room (
          Within-replied more left id log (client log id) _ refl fits
            (λ e. Within-try_here more id left (id ∷ log) (some e) fits))
    | inr full ↦ rw full (refl, h)
  ]

  Ends-onwards :
      (s : Step A E) (rest : ℕ → List String → Option E → Outcome A E × List String)
      → Within s
      → ((log : List String) (last : Option E)
          → length log ≤ budget
          → Ends (rest (length log) log last))
      → Ends (onwards client cancelled budget s rest)
  Ends-onwards (stop o log) rest h k = h
  Ends-onwards (onward attempts log last) rest h k = elim (Bool-cases (ltb attempts budget)) [
    | inl room ↦ rw room (rw (h.0) (k log last (omega (arith, h.0, h.1))))
    | inr full ↦ rw full (Ends-outcome_of last log (omega (arith, h.0, h.1)))
  ]

  Ends-try_next :
      (p : Option Provider) (more : Bool) (id : String) (log : List String) (last : Option E)
      (rest : ℕ → List String → Option E → Outcome A E × List String)
      → length log ≤ budget
      → ((log : List String) (last : Option E)
          → length log ≤ budget
          → Ends (rest (length log) log last))
      → Ends (try_next client cancelled budget p more id (length log) log last rest)
  Ends-try_next none more id log last rest h k = k log last h
  Ends-try_next (some p) more id log last rest h k = elim (Bool-cases p.enabled) [
    | inl on ↦ rw on (Ends-onwards _ rest (Within-try_here more id _ log last h) k)
    | inr off ↦ rw off (k log last h)
  ]

  Ends-try_all :
      (ps : List (String × Provider)) (ids : List String) (log : List String) (last : Option E)
      → length log ≤ budget
      → Ends (try_all client cancelled budget ps ids (length log) log last)
  unfolding try_all
  Ends-try_all ps [] log last h = Ends-outcome_of last log h
  Ends-try_all ps (id ∷ ids) log last h =
      Ends-try_next (provider_of ps id) (is_cons client cancelled budget ids) id log last _ h
        (λ log last h. Ends-try_all ps ids log last h)

-- `Chat` makes at most as many calls as its budget, which is 4 where the configured one is 0, and
-- an answer of it is what the client gave to the last of them.
pub chat-budget :
    {A E : Type 0} (client : List String → String → Reply A E) (cancelled : List String → Bool)
    (total : ℕ) (ps : List (String × Provider)) (candidates : List String)
    → (length (chat client cancelled total ps candidates).1 ≤ (if total == 0 then 4 else total))
      × IsReply client
          (chat client cancelled total ps candidates).0
          (chat client cancelled total ps candidates).1
unfolding chat
chat-budget client cancelled total ps candidates =
    Ends-try_all client cancelled (if total == 0 then 4 else total) ps candidates [] none
      (ground arith)
