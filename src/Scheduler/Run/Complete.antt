-- ===== src/Scheduler/Run/Complete.antt =====
-- How the loop over the rounds ends.
use mathlib.Core.List.{Perm}
use mathlib.Core.List.Perm
use mathlib.Core.List.{append-nil, append_assoc}
use aether_fx.Base.{
  ℕ, zero, suc, ◌+◌, ◌<◌, ◌≤◌, All, some, Option, none, List, [], ◌∷◌, ◌++◌, map, length,
  length-map, ltb, if◌then◌else◌, ◌≡◌, ◌≢◌, refl, ap, sym, ◌∙◌, inl, inr, arith, Bool-cases,
}
use aether_fx.Events.{AgentEvent, tool_started, tool_output, tool_finished}
use aether_fx.Scheduler.{ScheduledCall, cancelled, World, ◌>>◌, return, fail, send_event}
use aether_fx.Scheduler.Select.{select_pending_calls}
use aether_fx.Scheduler.Select.Order.{Startable, select-Startable, All-map}
use aether_fx.Scheduler.Select.Progress.{pending, select-ne-nil}
use aether_fx.Scheduler.Run.Batch.{Batch, Kept, Pending, completions, take_selected-Batch}
use aether_fx.Scheduler.Run.Turns.{
  Ordered, merged, merged-taken, merged-le, merged-Ordered, completions-left,
}
use aether_fx.Scheduler.Ends.{Ends, Interrupted, interrupted, Ends-after, Ends-mono, send-Ends}
use aether_fx.Scheduler.Run.{
  Completed, complete, take_selected, start_all, report_all, run_batch, run_selected, run_round,
  run_loop,
}

module _ {Value : Type 0} (w : World Value) {I : Type 0} (q : Interrupted w I) where
  start_all-Ends :
      (calls : List (ScheduledCall Value)) (log : List (AgentEvent Value))
      → Ends I (λ _. Unit {0}) (start_all w calls log).1
  unfolding start_all
  start_all-Ends [] log = tt
  start_all-Ends (c ∷ cs) log =
      Ends-after I (λ _. Unit {0}) (λ _. Unit {0})
        (send_event w (tool_started c.action.call_id c.action.tool c.permission c.action.tool none)
          log)
        (λ _. start_all w cs) (send-Ends w q _ log) (λ _ later _. start_all-Ends cs later)

  report_all-Ends :
      (cs : List (Completed Value)) (log : List (AgentEvent Value))
      → Ends I (λ _. Unit {0}) (report_all w cs log).1
  unfolding report_all
  report_all-Ends [] log = tt
  report_all-Ends (c ∷ cs) log =
      Ends-after I (λ _. Unit {0}) (λ _. Unit {0})
        (send_event w (tool_output c.action.call_id c.result.output) log)
        (λ _. send_event w (tool_finished c.action.call_id c.result.ok) >> report_all w cs)
        (send-Ends w q _ log)
        (λ _ later _.
          Ends-after I (λ _. Unit {0}) (λ _. Unit {0})
            (send_event w (tool_finished c.action.call_id c.result.ok) later) (λ _. report_all w cs)
            (send-Ends w q _ later) (λ _ last _. report_all-Ends cs last))

  -- After a round, the selected calls are completed in it, and the others are pending still.
  abbrev Round :
      ℕ
      → List (Option (ScheduledCall Value))
      → List ℕ
      → List (Completed Value) × List (Option (ScheduledCall Value))
      → Type 0
  Round round calls is r =
      ((at : ℕ → ℕ)
        → All (λ i. at i ≡ round) is
        → Perm (completions w at calls) (r.0 ++ completions w at r.1))
      × ((j : ℕ) → Kept w calls is r.1 j)
      × (length r.1 ≡ length calls)
      × (length (pending calls) ≡ length r.0 + length (pending r.1))
      × (0 < length r.0)

  run_batch-Ends :
      (round : ℕ) (calls : List (Option (ScheduledCall Value))) (is : List ℕ)
      (log : List (AgentEvent Value))
      → 0 < length is
      → Batch w round calls is
      → Ends I (Round round calls is) (run_batch w round (take_selected is calls) log).1
  run_batch-Ends round calls is log pos (batch, left, t, p, k, l, n, m) = rw t (
      Ends-after I (λ _. Unit {0}) (Round round calls is) (start_all w batch log) _
        (start_all-Ends batch log) (λ _ later _. finish later))
    where
      left_over : Round round calls is (map (complete w round) batch, left)
      left_over = (
        p,
        k,
        l,
        m ∙ ap (λ k. k + length (pending left)) (sym (length-map (complete w round) batch)),
        omega (arith, length-map (complete w round) batch),
      )

      finish :
          (later : List (AgentEvent Value))
          → Ends I
              (Round round calls is)
              ((if w.cancelled_batch round
                  then fail cancelled
                  else (report_all w (map (complete w round) batch)
                      >> return (map (complete w round) batch, left)))
                later).1
      finish later = elim (Bool-cases (w.cancelled_batch round)) [
        | inl e ↦ rw e (interrupted (q.batch round) e)
        | inr e ↦ rw e (
            Ends-after I (λ _. Unit {0}) (Round round calls is)
              (report_all w (map (complete w round) batch) later) _
              (report_all-Ends (map (complete w round) batch) later) (λ _ _ _. left_over))
      ]

  run_selected-Ends :
      (round : ℕ) (calls : List (Option (ScheduledCall Value))) (is : List ℕ)
      (log : List (AgentEvent Value))
      → is ≢ []
      → Batch w round calls is
      → Ends I (Round round calls is) (run_selected w round calls is log).1
  run_selected-Ends round calls [] log n b = absurd (n refl)
  run_selected-Ends round calls (i ∷ is) log n b =
      run_batch-Ends round calls (i ∷ is) log (omega arith) b

  run_round-Ends :
      (round : ℕ) (calls : List (Option (ScheduledCall Value))) (log : List (AgentEvent Value))
      → pending calls ≢ []
      → Ends I (Round round calls (select_pending_calls calls)) (run_round w round calls log).1
  unfolding run_round
  run_round-Ends round calls log n =
      let (rising, bounded, startable) = select-Startable calls in
      let there =
        All-map (Startable calls) (Pending w calls) (select_pending_calls calls) (λ i s. (s.0, s.1))
          startable in
      elim (Bool-cases (w.cancelled_round round)) [
        | inl e ↦ rw e (interrupted (q.round round) e)
        | inr e ↦ rw e (
            run_selected-Ends round calls (select_pending_calls calls) log (select-ne-nil calls n)
              (take_selected-Batch w round calls 0 (select_pending_calls calls) rising there))
      ]

  some_pending : (cs : List (ScheduledCall Value)) → 0 < length cs → cs ≢ []
  some_pending [] h e = absurd (omega arith)
  some_pending (c ∷ cs) h e = cc

  none_pending : (cs : List (ScheduledCall Value)) → length cs ≡ 0 → cs ≡ []
  none_pending [] h = refl
  none_pending (c ∷ cs) h = absurd (omega arith)

  -- The call at each index that is pending runs in one round, from this one on, and in a later one
  -- than the calls before it with which it conflicts.
  abbrev pub Done :
      ℕ
      → List (Option (ScheduledCall Value))
      → List (Completed Value)
      → List (Completed Value)
      → Type 0
  Done round calls outputs outs =
      (at : ℕ → ℕ) × ((j : ℕ) → round ≤ at j)
      × Ordered w at calls
      × Perm (outputs ++ completions w at calls) outs

  nothing-completions :
      (at : ℕ → ℕ) (calls : List (Option (ScheduledCall Value)))
      → pending calls ≡ []
      → completions w at calls ≡ []
  nothing-completions at [] h = refl
  nothing-completions at (none ∷ calls) h = nothing-completions (λ i. at (suc i)) calls h
  nothing-completions at (some c ∷ calls) h = absurd (cc)

  nothing-Ordered :
      (at : ℕ → ℕ) (calls : List (Option (ScheduledCall Value)))
      → pending calls ≡ []
      → Ordered w at calls
  nothing-Ordered at [] h i j a b lt ea eb p c = absurd (cc)
  nothing-Ordered at (none ∷ calls) h zero j a b lt ea eb p c = absurd (cc)
  nothing-Ordered at (none ∷ calls) h (suc i) zero a b lt ea eb p c = absurd (omega arith)
  nothing-Ordered at (none ∷ calls) h (suc i) (suc j) a b lt ea eb p c =
      let both = nothing-Ordered (λ k. at (suc k)) calls h i j a b (omega arith) ea eb p c in both
  nothing-Ordered at (some d ∷ calls) h i j a b lt ea eb p c = absurd (cc)

  Done-Round :
      (round : ℕ) (calls : List (Option (ScheduledCall Value))) (outputs : List (Completed Value))
      (r : List (Completed Value) × List (Option (ScheduledCall Value)))
      (outs : List (Completed Value))
      → Round round calls (select_pending_calls calls) r
      → Done (suc round) r.1 (outputs ++ r.0) outs
      → Done round calls outputs outs
  Done-Round round calls outputs r outs (p, k, _, _, _) (later, le, o, q) =
      let at = merged w calls r.1 round k later in
      let now = p at (merged-taken w calls r.1 round k later) in
      (
        at,
        merged-le w calls r.1 round k later le,
        merged-Ordered w calls r.1 round k later le o,
        Perm.trans (Perm.append (Perm.refl outputs) now) (
            rw (completions-left w calls r.1 round k later)
              (rw (← append_assoc outputs r.0 (completions w later r.1)) q)),
      )

  pub run_loop-Ends :
      (fuel round completed : ℕ) (calls : List (Option (ScheduledCall Value)))
      (outputs : List (Completed Value)) (log : List (AgentEvent Value))
      → length (pending calls) < fuel
      → completed + length (pending calls) ≡ length calls
      → Ends I (Done round calls outputs) (run_loop w fuel round completed calls outputs log).1
  unfolding run_loop
  run_loop-Ends zero round completed calls outputs log f c = absurd (omega arith)
  run_loop-Ends (suc fuel) round completed calls outputs log f c =
      elim (Bool-cases (ltb completed (length calls))) [
        | inr e ↦
            let nothing : pending calls ≡ [] = none_pending (pending calls) (ground arith) in
            rw (e, Ends)
              (
                λ _. round,
                λ j. omega arith,
                nothing-Ordered (λ _. round) calls nothing,
                rw (nothing-completions (λ _. round) calls nothing, append-nil outputs)
                    (Perm.refl outputs),
              )
        | inl e ↦
            let n : pending calls ≢ [] = some_pending (pending calls) (ground arith) in
            rw (e, Ends)
              (Ends-after I (Round round calls (select_pending_calls calls))
                (Done round calls outputs) (run_round w round calls log) _
                (run_round-Ends round calls log n)
                (λ r later h.
                  let (p, k, l, m, pos) = h in
                  Ends-mono I (Done (suc round) r.1 (outputs ++ r.0)) (Done round calls outputs)
                    (run_loop w fuel (suc round) (completed + length r.0) r.1 (outputs ++ r.0)
                      later).1
                    (λ outs q. Done-Round round calls outputs r outs h q)
                    (run_loop-Ends fuel (suc round) (completed + length r.0) r.1 (outputs ++ r.0)
                      later (omega arith) (omega arith))))
      ]
