-- ===== src/Webchat/Turns/Interrupting.antt =====
-- methods.go: who may stop a turn.
use buat_postingan.Base.{
  ℕ, String, ◌≡◌, refl, Option, some, none, true, false, Option-cases, inl, inr, arith, is_empty,
  eq_refl,
}
use buat_postingan.Exec.{ok}
use buat_postingan.Domain.{ConversationMeta}
use buat_postingan.Jsonl.Disk.{Os, World}
use buat_postingan.Jsonl.Store.{get_thread, resolve_conversation, seq_head}
use buat_postingan.Jsonl.Store.Conversations.{conversation}
use buat_postingan.Jsonl.Interrupt.{flag_name, has_flag, request}
use buat_postingan.Webchat.Ports.{Ports}
use buat_postingan.Webchat.Turns.{active_turn, may_interrupt, interrupt_turn}

-- The turn that a stop request names, and that the admin may stop.
pub record MayStop (found : Option ConversationMeta) (turn : String) (admin : ℕ) (active : String)
    : Type 0 where
  pub meta : ConversationMeta
  pub known : found ≡ some meta
  pub named : active ≡ active_turn turn meta.active_turn_id
  pub present : is_empty active ≡ false
  pub initiator : may_interrupt meta.active_turn_initiator_admin_id admin ≡ true

module _ (os : Os) (ports : Ports) (w : World) (tid turn : String) (admin : ℕ) where
  interrupted :
      (meta : ConversationMeta)
      → conversation w tid ≡ some meta
      → (interrupt_turn os ports tid turn admin w).0 ≡ ok tt
      → MayStop (conversation w tid) turn admin (active_turn turn meta.active_turn_id)
        × (has_flag
              ((interrupt_turn os ports tid turn admin w).1.flags tid)
              (active_turn turn meta.active_turn_id)
            ≡ true)
  unfolding interrupt_turn get_thread resolve_conversation seq_head request has_flag
  interrupted meta found done = (
    record {
      meta = meta;
      known = found;
      named = refl;
      present = ground arith;
      initiator = ground arith;
    },
    ground (arith, eq_refl tid, eq_refl (flag_name (active_turn turn meta.active_turn_id))),
  )

  unknown : conversation w tid ≡ none → (interrupt_turn os ports tid turn admin w).0 ≡ ok tt → ⊥
  unfolding interrupt_turn get_thread resolve_conversation
  unknown missing done = ground arith

  -- An `InterruptTurn` that goes through leaves a stop request for a turn that is named, by the
  -- caller or else as the active turn of the thread, and its admin is the initiator of the active
  -- turn, if there is one.
  pub interrupt_turn-requested :
      (interrupt_turn os ports tid turn admin w).0 ≡ ok tt
      → (active : String) × MayStop (conversation w tid) turn admin active
        × (has_flag ((interrupt_turn os ports tid turn admin w).1.flags tid) active ≡ true)
  interrupt_turn-requested done = elim (Option-cases (conversation w tid)) [
    | inl missing ↦ absurd (unknown missing done)
    | inr (meta, found) ↦
        let (may, flagged) = interrupted meta found done in
        (active_turn turn meta.active_turn_id, may, flagged)
  ]
