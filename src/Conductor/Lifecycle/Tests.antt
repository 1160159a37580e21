-- ===== src/Conductor/Lifecycle/Tests.antt =====
-- The events of one subagent in the worst order.
use agent_tooling.Prelude.{◌≡◌, refl, true, false, none, some, List, [], ◌∷◌}
use agent_tooling.Conductor.Schemas.{LifecycleKind, start, stop, cost, cancelled, costed}
use agent_tooling.Conductor.Lifecycle.{follow, fresh, state_for_orphan}
use agent_tooling.Conductor.Lifecycle.Convergence.{
  follow_converges, follow_converges_orphan, follow_final,
}

abbrev backwards : List LifecycleKind
backwards = cost ∷ stop ∷ stop ∷ start ∷ []

follow_converges_example : follow fresh backwards ≡ (costed, false, none)
follow_converges_example = follow_converges backwards refl refl refl refl

follow_converges_orphan_example :
    follow (state_for_orphan cost, true, some "cost before reservation") (stop ∷ start ∷ [])
    ≡ (costed, false, none)
follow_converges_orphan_example =
    follow_converges_orphan cost "cost before reservation" (stop ∷ start ∷ []) refl refl refl refl

follow_final_example : follow (cancelled, false, none) backwards ≡ (cancelled, false, none)
follow_final_example = follow_final backwards cancelled false none refl refl
