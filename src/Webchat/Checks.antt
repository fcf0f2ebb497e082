-- ===== src/Webchat/Checks.antt =====
-- methods.go: what a request is checked against before a turn is queued.
pub mod UniqueIds
use buat_postingan.Base.{
  String, Bool, true, false, Option, none, some, List, [], ◌∷◌, ◌||◌, is_empty, trim_space,
  if◌then◌else◌,
}
use Prim.Native.String.{◌++◌ as append}
use buat_postingan.Apperr.{app, new, validation, docs_index_not_ready, docs_index}
use buat_postingan.Exec.{Result, ok, err, pure, fail, lift, ◌>>=◌, ◌>>◌}
use buat_postingan.Domain.{DocsIndexGate}
use buat_postingan.Config.Effort.{one_of, normalize_effort_override}
use buat_postingan.Jsonl.Disk.{M}
use buat_postingan.Webchat.Ports.{Ports}

abbrev pub none_left : List String → Bool
none_left [] = true
none_left (id ∷ ids) = false

-- The loop of `uniqueNonEmpty`, with the ids that were kept.
unfoldable pub unique_from : List String → List String → List String
unfolding one_of
unique_from seen [] = []
unique_from seen (raw ∷ ids) =
    let id = trim_space raw in
    let skip = unique_from seen ids in
    let keep = id ∷ unique_from (id ∷ seen) ids in
    if is_empty id || one_of seen id then skip else keep

-- `uniqueNonEmpty`
unfoldable pub unique_non_empty : List String → List String
unfolding unique_from
unique_non_empty ids = unique_from [] ids

abbrev pub redacted : Option (String → Result String) → String → Result String
redacted none message = ok message
redacted (some redact) message = redact message

abbrev pub gate_ready : DocsIndexGate → Result (Unit {0})
gate_ready g =
    if g.usable
    then ok tt
    else err (
        app 503 docs_index_not_ready "Docs index belum siap"
          (docs_index g.usable g.status g.message g.document_count))

abbrev pub model_provider : Option (String → Result String) → String → Result String
model_provider none model = err (new 422 validation "model not allowed")
model_provider (some resolve) model = resolve model

abbrev pub effort_of : Option String → Result String
effort_of none = err (new 422 validation "effort not allowed")
effort_of (some effort) = ok effort

abbrev pub attached : String → Result (Unit {0}) → Result (Unit {0})
attached id (ok x) = ok tt
attached id (err e) = err (new 422 validation (append "unknown attachment_id: " id))

unfoldable pub all_attached : (String → Result (Unit {0})) → List String → M (Unit {0})
all_attached resolve [] = pure tt
all_attached resolve (id ∷ ids) = do lift (attached id (resolve id)); all_attached resolve ids

abbrev pub attachments_of :
    Option (String → String → Result (Unit {0})) → String → List String → M (Unit {0})
attachments_of none tid ids = fail (new 422 validation "attachments not configured")
attachments_of (some resolve) tid ids = all_attached (resolve tid) ids

module _ (ports : Ports) where
  -- `requireDocsReady`
  unfoldable pub require_docs_ready : M (Unit {0})
  require_docs_ready = do g ← lift ports.gate; lift (gate_ready g)

  -- `resolveTurnOverrides`: the provider, the model and the effort
  unfoldable pub resolve_turn_overrides : String → String → M (String × String × String)
  resolve_turn_overrides model_raw effort_raw = do
    effort ← lift (effort_of (normalize_effort_override ports.to_lower effort_raw))
    let model = trim_space model_raw
    if is_empty model then pure ("", "", effort) else do
      provider_id ← lift (model_provider ports.resolve_model model)
      pure (provider_id, model, effort)

  -- `assertAttachments`
  unfoldable pub assert_attachments : String → List String → M (Unit {0})
  unfolding all_attached
  assert_attachments tid [] = pure tt
  assert_attachments tid (id ∷ ids) = attachments_of ports.resolve_path tid (id ∷ ids)
