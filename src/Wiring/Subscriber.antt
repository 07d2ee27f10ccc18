-- ===== src/Wiring/Subscriber.antt =====
-- The licence manager and the escalation service together.
use maintenant.Base.{◌≡◌, ◌∙◌, ap, inl, inr, true, false, some, List, [], ◌∷◌, arith, Bool-cases}
use maintenant.License.Manager.{Edition, Build, Moment, Manager}
use maintenant.License.Manager.Checks.{Answer}
use maintenant.License.Manager.Changes.{Leads, checks, changes-checks}
use maintenant.Escalation.Store.{World}
use maintenant.Escalation.Policies.{ServiceEnv, deactivate, stop_runs}
use maintenant.Escalation.Policies.Editions.{IsStill, on_edition_downgraded-IsStill}
use maintenant.Wiring.{at_least, required, on_edition_changed, told_changes}

changed-IsStill :
    (env : ServiceEnv) (prev next : Edition) (w : World)
    → env.fails deactivate ≡ false
    → env.fails stop_runs ≡ false
    → at_least next required ≡ false
    → (at_least prev required ≡ false → IsStill w)
    → IsStill (on_edition_changed env prev next w)
unfolding on_edition_changed
changed-IsStill env prev next w d s below h = elim (Bool-cases (at_least prev required)) [
  | inl e ↦ ground (arith, on_edition_downgraded-IsStill env w d s)
  | inr e ↦ ground (arith, h e)
]

told-IsStill :
    (env : ServiceEnv) (start now : Edition) (cs : List (Edition × Edition)) (w : World)
    → env.fails deactivate ≡ false
    → env.fails stop_runs ≡ false
    → at_least start required ≡ true
    → Leads start cs now
    → at_least now required ≡ false
    → IsStill (told_changes env cs w)
unfolding told_changes
told-IsStill env start now [] w d s above leads below = ground arith
told-IsStill env start now ((prev, next) ∷ cs) w d s above (here, moved, leads) below =
    changed-IsStill env prev next (told_changes env cs w) d s
      (ap (λ (e : Edition). at_least e required) here ∙ below)
      (λ under. told-IsStill env start prev cs w d s above leads under)

-- If the manager starts with an edition that has alert escalation and that edition is its baseline, some checks
-- leave it with one that has not, whatever the answers and the files that fail, and the statements of the
-- escalation store succeed, then once the subscriber has been told the changes in their order no policy is
-- active and no run is active or paused.
pub told_changes-checks :
    (b : Build) (cs : List (Moment × Answer)) (m : Manager) (env : ServiceEnv) (w : World)
    → m.last_edition ≡ some m.state.edition
    → m.changes ≡ []
    → at_least m.state.edition required ≡ true
    → at_least (checks b cs m).state.edition required ≡ false
    → env.fails deactivate ≡ false
    → env.fails stop_runs ≡ false
    → IsStill (told_changes env (checks b cs m).changes w)
told_changes-checks b cs m env w base clean above below d s =
    told-IsStill env m.state.edition (checks b cs m).state.edition (checks b cs m).changes w d s
      above (changes-checks b cs m base clean) below
