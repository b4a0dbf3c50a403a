-- ===== src/Scheduler/Tests.antt =====
-- A step of three calls: a write, a read of the written path, and a read elsewhere.
use aether_fx.Base.{
  ◌≢◌, true, false, Option, none, some, List, [], ◌∷◌, length, All, ◌≤◌, Bytes, bytes_eq, codes,
  ◌≡◌, refl, inl, arith,
}
use aether_fx.BoundedText.{empty_text}
use aether_fx.Permission.{PermissionClass, deny}
use aether_fx.WorkspacePath.{component_eq, components, starts_with}
use aether_fx.Tools.{ToolEffect, workspace_path, conflicts}
use aether_fx.Tools.Action.{PreparedAction, ActionClassification, EvidenceProvenance}
use aether_fx.Scheduler.{World, ScheduledCall, default_max_parallel_tools}
use aether_fx.Scheduler.Ends.{Ends, Interrupted}
use aether_fx.Scheduler.Prepare.{scheduled}
use aether_fx.Scheduler.Prepare.Authority.{authority}
use aether_fx.Scheduler.Select.{select_pending_calls, schedule_ready_calls}
use aether_fx.Scheduler.Select.Order.{Ascending, In, Startable, select-Startable, not-In-select}
use aether_fx.Scheduler.Run.{execute_prepared_tool_calls}
use aether_fx.Scheduler.Run.Outcome.{Performed}
use aether_fx.Scheduler.Run.Step.{execute-Ends}
use aether_fx.Scheduler.Select.Progress.{select-ne-nil}

abbrev touching : ToolEffect → Bytes → PreparedAction (Unit {0})
touching effect id = record {
  call_id = id;
  tool = codes "tool";
  normalized_input = tt;
  fingerprint = [];
  effects = record { effects = effect ∷ []; unknown = false };
  requirements = record {
    permission = PermissionClass.workspace_write;
    user_authorization = false;
    current_workspace_evidence = false;
  };
  paths = [];
  classification = ActionClassification.other;
  provenance = EvidenceProvenance.model;
  permission_request = none;
}

abbrev write_a : PreparedAction (Unit {0})
write_a = touching (ToolEffect.write (workspace_path (codes "a"))) (codes "1")

abbrev read_a : PreparedAction (Unit {0})
read_a = touching (ToolEffect.read (workspace_path (codes "a"))) (codes "2")

abbrev read_b : PreparedAction (Unit {0})
read_b = touching (ToolEffect.read (workspace_path (codes "b"))) (codes "3")

-- Nobody cancels, the user denies what is asked, and each tool succeeds.
abbrev calm : World (Unit {0})
calm = record {
  needs_prompt = λ i r. true;
  decide = λ i r. deny;
  gate = λ i a. none;
  cancelled_before = λ i. false;
  cancelled_deciding = λ i. false;
  cancelled_round = λ i. false;
  cancelled_batch = λ i. false;
  execute = λ round a p. some (record {
    call_id = a.call_id;
    ok = true;
    output = empty_text;
    payload = none;
    error = none;
  });
  channel_open = λ n. true;
}

abbrev calm_uninterrupted : Interrupted calm ⊥
calm_uninterrupted = record {
  before = λ i. inl refl;
  deciding = λ i. inl refl;
  round = λ i. inl refl;
  batch = λ i. inl refl;
  channel = λ n. inl refl;
}

abbrev three : List (PreparedAction (Unit {0}))
three = write_a ∷ read_a ∷ read_b ∷ []

abbrev three_calls : List (Option (ScheduledCall (Unit {0})))
three_calls =
    some (scheduled calm 0 write_a (authority calm 0 write_a))
    ∷ some (scheduled calm 1 read_a (authority calm 1 read_a))
    ∷ some (scheduled calm 2 read_b (authority calm 2 read_b))
    ∷ []

select_runs : select_pending_calls three_calls ≡ 0 ∷ 2 ∷ []
unfolding select_pending_calls conflicts components starts_with component_eq bytes_eq
select_runs = refl

ready_runs :
    schedule_ready_calls (write_a.effects ∷ read_a.effects ∷ read_b.effects ∷ []) 4 2 ≡ 0 ∷ 2 ∷ []
unfolding schedule_ready_calls conflicts components starts_with component_eq bytes_eq
ready_runs = refl

execute-Ends_example : Ends ⊥ (Performed calm three) (execute_prepared_tool_calls calm three []).1
execute-Ends_example = execute-Ends calm calm_uninterrupted three [] (omega arith)

select-Startable_example :
    Ascending 0 (select_pending_calls three_calls)
    × (length (select_pending_calls three_calls) ≤ default_max_parallel_tools)
    × All (Startable three_calls) (select_pending_calls three_calls)
select-Startable_example = select-Startable three_calls

not-In-select_example : ¬ In 1 (select_pending_calls three_calls)
not-In-select_example =
    not-In-select three_calls (scheduled calm 0 write_a (authority calm 0 write_a))
      (scheduled calm 1 read_a (authority calm 1 read_a)) 0 1 (omega arith) refl refl (λ e. cc)
      (unfold conflicts components starts_with component_eq bytes_eq in refl)

select-ne-nil_example : select_pending_calls three_calls ≢ []
select-ne-nil_example = select-ne-nil three_calls (λ e. cc)
