-- ===== src/Permission/Broker/Tests.antt =====
-- A broker that is asked twice, answered once and cancelled.
use aether_fx.Base.{
  ◌≡◌, ◌≢◌, ◌↔◌, refl, none, true, false, List, [], ◌∷◌, codes, lookup, insert, ne_of_test,
  bytes_eq, inl,
}
use aether_fx.Permission.{PermissionClass, PermissionRequest, allow_once, allow_session, class_eq}
use aether_fx.Permission.Broker.{
  Broker, Event, asks, answers, cancels, decide, resolve, step, run, new_broker, ready,
  has_session_grant,
}
use aether_fx.Permission.Broker.Grants.{Approved, decide-Approved}
use aether_fx.Permission.Broker.Receivers.{Answered, receiver-Answered, resolve-run_ended}

abbrev shell_request : PermissionRequest (Unit {0})
shell_request = record {
  call_id = codes "c7";
  tool = codes "shell";
  class = PermissionClass.process_execute;
  operation = codes "shell";
  target = none;
  details = tt;
}

abbrev again : PermissionRequest (Unit {0})
again = record shell_request { call_id = codes "c8" }

abbrev approval : List (Event (Unit {0}))
approval = asks shell_request ∷ answers (codes "c7") allow_session true ∷ []

granted_after_approval :
    has_session_grant
      (run (new_broker (Unit {0})) approval)
      (codes "shell")
      PermissionClass.process_execute
    ≡ true
unfolding run step has_session_grant new_broker lookup insert bytes_eq class_eq
granted_after_approval = refl

decide-Approved_example :
    let b = run (new_broker (Unit {0})) approval in
    (((decide b again).1 ≡ ready allow_session)
      ↔ Approved (codes "shell") PermissionClass.process_execute (new_broker (Unit {0})) approval)
    × ((decide b again).1 ≢ ready allow_once)
    × (¬ Approved (codes "shell") PermissionClass.browser_action (new_broker (Unit {0})) approval)
decide-Approved_example = decide-Approved approval again

receiver-Answered_example : Answered 0 allow_session (new_broker (Unit {0})) approval
receiver-Answered_example =
    receiver-Answered approval 0 allow_session (λ e. cc)
      (unfold run step has_session_grant new_broker lookup insert bytes_eq class_eq in inl refl)

abbrev asked : Broker (Unit {0})
asked = step (new_broker (Unit {0})) (asks shell_request)

resolve-run_ended_example :
    let b = run (step asked (cancels (codes "c7"))) (asks again ∷ []) in
    resolve b (codes "c7") allow_session true ≡ (b, false)
resolve-run_ended_example =
    resolve-run_ended asked (codes "c7") (cancels (codes "c7")) (asks again ∷ []) allow_session true
      (unfold step has_session_grant new_broker lookup insert in refl) refl
      (ne_of_test (codes "c8") (codes "c7") (unfold bytes_eq in refl), tt)
