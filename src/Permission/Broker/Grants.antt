-- ===== src/Permission/Broker/Grants.antt =====
-- Which session grants a broker can hold, and which decisions its receivers can finish with.
use aether_fx.Base.{
  Bool, true, false, ◌&&◌, ◌||◌, some, List, [], ◌∷◌, Bytes, bytes_eq, bytes_eq_iff, lookup, any,
  ◌≡◌, ◌≢◌, ◌↔◌, ◌⊎◌, ◌∙◌, inl, inr, refl, ap, arith, Option-cases, Bool-cases,
}
use aether_fx.Permission.{
  PermissionClass, class_eq, PermissionDecision, allow_once, allow_session, PermissionRequest,
}
use aether_fx.Permission.Policy.{class_eq_iff}
use aether_fx.Permission.Broker.{
  Broker, PendingPermission, Event, asks, answers, cancels, is_grant, has_session_grant, decide,
  resolve, step, run, new_broker, ready, insert_grant, grants_after,
}

module _ {Value : Type 0} (tool : Bytes) (class : PermissionClass) where
  -- The user answers `AllowSession` to a pending request for this tool and class, and the class is
  -- not that of sensitive browser actions.
  pub data Approves (b : Broker Value) (e : Event Value) : Type 0 where
    approve :
        (call_id : Bytes) (is_open : Bool) (p : PendingPermission Value)
        → e ≡ answers call_id allow_session is_open
        → lookup call_id b.pending ≡ some p
        → p.request.tool ≡ tool
        → p.request.class ≡ class
        → class ≢ PermissionClass.browser_action
        → Approves b e

  -- Somewhere in the history there is such an answer.
  pub data Approved : Broker Value → List (Event Value) → Type 0 where
    now :
        {b : Broker Value} {es : List (Event Value)} (e : Event Value)
        → Approves b e
        → Approved b (e ∷ es)
    later :
        {b : Broker Value} {es : List (Event Value)} (e : Event Value)
        → Approved (step b e) es
        → Approved b (e ∷ es)

-- A new entry changes the test for its own tool and class only.
any-insert_grant :
    (t tool : Bytes) (c class : PermissionClass) (grants : List (Bytes × PermissionClass))
    → any (is_grant tool class) (insert_grant (t, c) grants)
      ≡ (bytes_eq t tool && class_eq c class || any (is_grant tool class) grants)
any-insert_grant t tool c class grants = ground (arith, bytes_eq_iff t tool, class_eq_iff c class)

step-poisoned :
    {Value : Type 0} (b : Broker Value) (e : Event Value) → (step b e).poisoned ≡ b.poisoned
unfolding step
step-poisoned b (asks request) = ground arith
step-poisoned b (answers call_id decision is_open) = ground arith
step-poisoned b (cancels call_id) = ground arith

module _ {Value : Type 0} (tool : Bytes) (class : PermissionClass) (b : Broker Value)
    (sound : b.poisoned ≡ false) where
  granted :
      (d : PermissionDecision) (p : PendingPermission Value)
      → any (is_grant tool class) (grants_after d p.request b.session_grants) ≡ true
      → (any (is_grant tool class) b.session_grants ≡ true)
        ⊎ ((d ≡ allow_session)
            × (p.request.tool ≡ tool)
            × (p.request.class ≡ class)
            × (class ≢ PermissionClass.browser_action))
  granted allow_session p h = ground (
    arith,
    any-insert_grant p.request.tool tool p.request.class class b.session_grants,
    bytes_eq_iff p.request.tool tool,
    class_eq_iff p.request.class class,
    class_eq_iff p.request.class PermissionClass.browser_action,
  )
  granted d p h = inl h

  resolve-grant :
      (call_id : Bytes) (d : PermissionDecision) (is_open : Bool)
      → has_session_grant (resolve b call_id d is_open).0 tool class ≡ true
      → (has_session_grant b tool class ≡ true) ⊎ Approves tool class b (answers call_id d is_open)
  unfolding resolve has_session_grant
  resolve-grant call_id d is_open h = elim (Option-cases (lookup call_id b.pending)) [
    | inl e ↦ inl (ground arith)
    | inr (p, e) ↦ elim (granted d p (ground arith)) [
      | inl old ↦ inl (ground arith)
      | inr (s, t, c, n) ↦
          inr (approve call_id is_open p (ap (λ x. answers call_id x is_open) s) e t c n)
    ]
  ]

  grant-resolve :
      (e : Event Value) → Approves tool class b e → has_session_grant (step b e) tool class ≡ true
  unfolding step has_session_grant
  grant-resolve e (approve call_id is_open p q found t c n) = rw q (
      ground (
        arith,
        found,
        any-insert_grant p.request.tool tool p.request.class class b.session_grants,
        bytes_eq_iff p.request.tool tool,
        class_eq_iff p.request.class class,
        class_eq_iff p.request.class PermissionClass.browser_action,
      ))

  grants_after-keeps :
      (d : PermissionDecision) (p : PendingPermission Value)
      → any (is_grant tool class) b.session_grants ≡ true
      → any (is_grant tool class) (grants_after d p.request b.session_grants) ≡ true
  grants_after-keeps allow_session p h =
      ground (arith, any-insert_grant p.request.tool tool p.request.class class b.session_grants)
  grants_after-keeps d p h = h

  grant-step :
      (e : Event Value)
      → has_session_grant b tool class ≡ true
      → has_session_grant (step b e) tool class ≡ true
  unfolding step has_session_grant
  grant-step (asks request) h = ground arith
  grant-step (cancels call_id) h = ground arith
  grant-step (answers call_id d is_open) h = elim (Option-cases (lookup call_id b.pending)) [
    | inl e ↦ ground arith
    | inr (p, e) ↦ ground (arith, grants_after-keeps d p)
  ]

  step-grant :
      (e : Event Value)
      → has_session_grant (step b e) tool class ≡ true
      → (has_session_grant b tool class ≡ true) ⊎ Approves tool class b e
  unfolding step has_session_grant
  step-grant (asks request) h = inl (ground arith)
  step-grant (cancels call_id) h = inl (ground arith)
  step-grant (answers call_id d is_open) h = resolve-grant call_id d is_open h

run-grant :
    {Value : Type 0} (tool : Bytes) (class : PermissionClass) (b : Broker Value)
    (es : List (Event Value))
    → b.poisoned ≡ false
    → has_session_grant (run b es) tool class ≡ true
    → (has_session_grant b tool class ≡ true) ⊎ Approved tool class b es
unfolding run
run-grant tool class b [] s h = inl h
run-grant tool class b (e ∷ es) s h =
    elim (run-grant tool class (step b e) es (step-poisoned b e ∙ s) h) [
      | inr a ↦ inr (later e a)
      | inl g ↦ elim (step-grant tool class b s e g) [ inl old ↦ inl old | inr a ↦ inr (now e a) ]
    ]

grant-run :
    {Value : Type 0} (tool : Bytes) (class : PermissionClass) (b : Broker Value)
    (es : List (Event Value))
    → b.poisoned ≡ false
    → has_session_grant b tool class ≡ true
    → has_session_grant (run b es) tool class ≡ true
unfolding run
grant-run tool class b [] s h = h
grant-run tool class b (e ∷ es) s h =
    grant-run tool class (step b e) es (step-poisoned b e ∙ s) (grant-step tool class b s e h)

Approved-grant :
    {Value : Type 0} (tool : Bytes) (class : PermissionClass) {b : Broker Value}
    {es : List (Event Value)}
    → Approved tool class b es
    → b.poisoned ≡ false
    → has_session_grant (run b es) tool class ≡ true
unfolding run
Approved-grant tool class {b} (now {es = es} e a) s =
    grant-run tool class (step b e) es (step-poisoned b e ∙ s) (grant-resolve tool class b s e a)
Approved-grant tool class {b} (later e a) s = Approved-grant tool class a (step-poisoned b e ∙ s)

no_grant :
    (Value : Type 0) (tool : Bytes) (class : PermissionClass)
    → has_session_grant (new_broker Value) tool class ≡ false
unfolding has_session_grant new_broker
no_grant Value tool class = refl

run-poisoned :
    {Value : Type 0} (b : Broker Value) (es : List (Event Value)) → (run b es).poisoned ≡ b.poisoned
unfolding run
run-poisoned b [] = refl
run-poisoned b (e ∷ es) = run-poisoned (step b e) es ∙ step-poisoned b e

not-Approved_browser_action :
    {Value : Type 0} (tool : Bytes) {b : Broker Value} {es : List (Event Value)}
    → ¬ Approved tool PermissionClass.browser_action b es
not-Approved_browser_action tool (now e (approve call_id is_open p q found t c n)) = n refl
not-Approved_browser_action tool (later e a) = not-Approved_browser_action tool a

decide_ready :
    {Value : Type 0} (b : Broker Value) (request : PermissionRequest Value)
    → (((decide b request).1 ≡ ready allow_session)
        ↔ (has_session_grant b request.tool request.class ≡ true))
      × ((decide b request).1 ≢ ready allow_once)
unfolding decide
decide_ready b request = elim (Bool-cases (has_session_grant b request.tool request.class)) [
  | inl e ↦ ground arith
  | inr e ↦ ground arith
]

run-new_broker :
    {Value : Type 0} (tool : Bytes) (class : PermissionClass) (es : List (Event Value))
    → has_session_grant (run (new_broker Value) es) tool class ≡ true
    → Approved tool class (new_broker Value) es
run-new_broker {Value} tool class es h =
    elim (run-grant tool class (new_broker Value) es (unfold new_broker in refl) h) [
      | inl g ↦ absurd (cc (no_grant Value tool class))
      | inr a ↦ a
    ]

-- After any history of a new broker, a request is allowed without asking the user exactly when an
-- earlier answer of the user approved its tool and class for the session. No history makes such an
-- approval for sensitive browser actions.
pub decide-Approved :
    {Value : Type 0} (es : List (Event Value)) (request : PermissionRequest Value)
    → let b = run (new_broker Value) es in
      (((decide b request).1 ≡ ready allow_session)
        ↔ Approved request.tool request.class (new_broker Value) es)
      × ((decide b request).1 ≢ ready allow_once)
      × (¬ Approved request.tool PermissionClass.browser_action (new_broker Value) es)
decide-Approved {Value} es request =
    let found = decide_ready (run (new_broker Value) es) request in
    (
      (
        λ h. run-new_broker request.tool request.class es (found.0.0 h),
        λ a. found.0.1 (Approved-grant request.tool request.class a (unfold new_broker in refl)),
      ),
      found.1,
      not-Approved_browser_action request.tool,
    )
