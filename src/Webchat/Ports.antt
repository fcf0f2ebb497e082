-- ===== src/Webchat/Ports.antt =====
-- service.go: the collaborators of the use cases that are not modelled, each by what it answers.
use buat_postingan.Base.{ℕ, String, Option}
use buat_postingan.Exec.{Result}
use buat_postingan.Domain.{DocsIndexGate, TurnJob}

-- `Deps`: an absent collaborator is `none`. `enqueue` is the answer of `Worker.Enqueue`, and
-- `to_lower` is `strings.ToLower`.
pub record Ports : Type 0 where
  pub gate : Result DocsIndexGate
  pub redact : Option (String → Result String)
  pub resolve_model : Option (String → Result String)
  pub resolve_path : Option (String → String → Result (Unit {0}))
  pub enqueue : TurnJob → Result (Unit {0})
  pub floor_ttl_sec : ℕ
  pub lock_ttl_sec : ℕ
  pub to_lower : String → String
