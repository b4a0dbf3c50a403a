-- ===== src/Workflow/Failures/Long.antt =====
-- Failures whose key is longer than the fields of the work state.
use aether_fx.Base.{◌<◌, Bool, false, List, Bytes, length, Bool-cases, inl, inr, ◌≡◌, ap, arith}
use aether_fx.Work.{max_work_field_bytes}
use aether_fx.Work.Verify.Long.{clear_blocker-long, record_blocker-nonempty}
use aether_fx.Workflow.State.{WorkflowState, WorkflowFailure, category_name}
use aether_fx.Workflow.Director.{sync_director}
use aether_fx.Workflow.Failures.{record_failure, clear_failure}
use aether_fx.Workflow.Completion.{complete_if_ready_with_evidence}
use aether_fx.Workflow.Completion.Ready.{complete_if_ready_lem}
use aether_fx.Workflow.Limits.{IsLimited}
use aether_fx.Workflow.Limits.Checks.{record_failure-IsLimited}

-- A failure whose key has more than 192 bytes blocks completion also after it is cleared: its
-- blocker was recorded under a shortened key, and clearing compares the whole one.
pub clear_failure-long :
    (failure : WorkflowFailure) (s : WorkflowState) (modified : List Bytes)
    (evidence_current preserved : Bool)
    → IsLimited s
    → max_work_field_bytes < length failure.key.text
    → let cleared = clear_failure failure.key.text (record_failure failure s) in
      (complete_if_ready_with_evidence modified evidence_current preserved cleared).1 ≡ false
unfolding clear_failure record_failure sync_director
clear_failure-long failure s modified evidence_current preserved b h =
    let key = failure.key.text in
    let (_, _, _, _, _, work, _) = record_failure-IsLimited failure s b in
    let kept = clear_blocker-long key (record_failure failure s).work h work in
    let blocked =
      record_blocker-nonempty s.work key (category_name failure.category) failure.message.text
        failure.revision in
    let granted =
      complete_if_ready_lem modified evidence_current preserved
        (clear_failure key (record_failure failure s)) in
    elim (Bool-cases _) [
      | inl e ↦
          let (_, _, (_, _, _, none_left), _, _, _, _) = granted.0.0 e in
          absurd (omega (arith, blocked, ap length kept, ap length none_left))
      | inr e ↦ e
    ]
