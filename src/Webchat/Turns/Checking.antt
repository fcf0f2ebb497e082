-- ===== src/Webchat/Turns/Checking.antt =====
-- methods.go: the checks before a turn, as computations that only read.
use buat_postingan.Base.{
  ℕ, String, List, [], if◌then◌else◌, ◌&&◌, ◌∷◌, Option, none, some, is_empty, trim_space, arith,
}
use buat_postingan.Exec.{Result, ok, err}
use buat_postingan.Apperr.{new, empty, not_retryable, not_initiator}
use buat_postingan.Webchat.Retryable.{find_user_message, is_retryable_failed, as_int64, is_other}
use buat_postingan.Jsonl.Disk.{Os, SameFiles-refl, Reads, Reads-bind, Reads-lift}
use buat_postingan.Jsonl.Store.{get_thread, resolve_conversation}
use buat_postingan.Jsonl.Store.Reading.{get_thread-SameFiles}
use buat_postingan.Jsonl.Floor.{assert, remaining_sec}
use buat_postingan.Webchat.Ports.{Ports}
use buat_postingan.Webchat.Checks.{
  resolve_turn_overrides, require_docs_ready, all_attached, assert_attachments, redacted, none_left,
  unique_non_empty, attached, attachments_of,
}
use buat_postingan.Webchat.Turns.{
  StartTurnInput, RetryTurnInput, start_checked, retry_checked, retried,
}

assert-Reads :
    (os : Os) (ttl_sec : ℕ) (tid : String) (admin : ℕ) → Reads (assert os ttl_sec tid admin)
unfolding assert resolve_conversation remaining_sec
assert-Reads os ttl_sec tid admin = record {
  at = λ w. record {
    index = ground arith;
    lines = ground arith;
    seqs = ground arith;
    locks = ground arith;
    flags = ground arith;
    queue = ground arith;
  };
}

get_thread-Reads : (os : Os) (tid : String) (since : ℕ) → Reads (get_thread os tid since)
get_thread-Reads os tid since = record { at = λ w. get_thread-SameFiles os tid w since }

resolve_turn_overrides-Reads :
    (ports : Ports) (model effort : String) → Reads (resolve_turn_overrides ports model effort)
unfolding resolve_turn_overrides
resolve_turn_overrides-Reads ports model effort = record {
  at = λ w. record {
    index = ground arith;
    lines = ground arith;
    seqs = ground arith;
    locks = ground arith;
    flags = ground arith;
    queue = ground arith;
  };
}

require_docs_ready-Reads : (ports : Ports) → Reads (require_docs_ready ports)
unfolding require_docs_ready
require_docs_ready-Reads ports = Reads-bind _ _ (Reads-lift ports.gate) λ g. Reads-lift _

all_attached-Reads :
    (resolve : String → Result (Unit {0})) (ids : List String) → Reads (all_attached resolve ids)
unfolding all_attached
all_attached-Reads resolve [] = record { at = SameFiles-refl }
all_attached-Reads resolve (id ∷ ids) =
    Reads-bind _ _ (Reads-lift (attached id (resolve id))) λ x. all_attached-Reads resolve ids

attachments_of-Reads :
    (found : Option (String → String → Result (Unit {0}))) (tid : String) (ids : List String)
    → Reads (attachments_of found tid ids)
attachments_of-Reads none tid ids = record { at = SameFiles-refl }
attachments_of-Reads (some resolve) tid ids = all_attached-Reads (resolve tid) ids

assert_attachments-Reads :
    (ports : Ports) (tid : String) (ids : List String) → Reads (assert_attachments ports tid ids)
unfolding assert_attachments
assert_attachments-Reads ports tid [] = record { at = SameFiles-refl }
assert_attachments-Reads ports tid (id ∷ ids) =
    attachments_of-Reads ports.resolve_path tid (id ∷ ids)

module _ (os : Os) (ports : Ports) where
  pub start_checked-Reads : (input : StartTurnInput) → Reads (start_checked os ports input)
  unfolding start_checked
  start_checked-Reads input =
      let none_sent = is_empty (trim_space input.message) in
      let att_ids = unique_non_empty input.attachment_ids in
      let text = if none_sent then "(attached files)" else trim_space input.message in
      Reads-bind _ _
        (Reads-lift {A = Unit {0}}
          (if none_sent && none_left att_ids then err (new 422 empty "message empty") else ok tt))
        λ x.
          Reads-bind _ _ (resolve_turn_overrides-Reads ports input.model input.effort) λ overrides.
            Reads-bind _ _ (require_docs_ready-Reads ports) λ y.
              Reads-bind _ _ (get_thread-Reads os input.thread_id 0) λ snap.
                Reads-bind _ _ (assert_attachments-Reads ports input.thread_id att_ids) λ z.
                  Reads-bind _ _
                    (assert-Reads os ports.floor_ttl_sec input.thread_id input.admin_user_id)
                    λ u.
                      Reads-bind _ _ (Reads-lift (redacted ports.redact text))
                        λ safe. Reads-lift (ok (safe, att_ids, overrides))

  pub retry_checked-Reads : (input : RetryTurnInput) → Reads (retry_checked os ports input)
  unfolding retry_checked
  retry_checked-Reads input = Reads-bind _ _ (require_docs_ready-Reads ports) λ x.
      Reads-bind _ _ (resolve_turn_overrides-Reads ports input.model input.effort) λ overrides.
        Reads-bind _ _ (get_thread-Reads os input.thread_id 0) λ snap.
          Reads-bind _ _ (Reads-lift (retried (find_user_message snap.items input.turn_id)))
            λ user_msg.
              Reads-bind _ _
                (Reads-lift {A = Unit {0}} (
                  if is_retryable_failed snap.items input.turn_id
                  then ok tt
                  else err (new 409 not_retryable "turn not retryable")))
                λ y.
                  Reads-bind _ _
                    (Reads-lift {A = Unit {0}} (
                      if is_other (as_int64 (user_msg.payload "admin_user_id")) input.admin_user_id
                      then err (new 403 not_initiator "only initiator can retry")
                      else ok tt))
                    λ z.
                      Reads-bind _ _
                        (assert-Reads os ports.floor_ttl_sec input.thread_id input.admin_user_id)
                        λ u. Reads-lift (ok (user_msg, snap.seq_head, overrides))
