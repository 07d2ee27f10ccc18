-- ===== src/Wiring.antt =====
-- wireLicenseSubscriber of internal/app/wiring.go, with the order of the editions of
-- internal/extension/edition.go: what the escalation service does about a change of edition. The
-- callbacks of two changes are taken to run in the order of the changes.
pub mod Subscriber
use maintenant.Base.{ℕ, Bool, true, false, not, ◌&&◌, List, [], ◌∷◌, leb, if◌then◌else◌}
use maintenant.License.Manager.{Edition, community, personal, pro}
use maintenant.Escalation.Store.{World}
use maintenant.Escalation.Policies.{ServiceEnv, on_edition_downgraded, on_edition_upgraded}

abbrev pub rank : Edition → ℕ
rank community = 0
rank personal = 1
rank pro = 2

abbrev pub at_least : Edition → Edition → Bool
at_least e other = leb (rank other) (rank e)

-- The least edition with alert_escalation, in the table of internal/commercial/tiers/tiers.go.
abbrev pub required : Edition
required = pro

unfoldable pub on_edition_changed : ServiceEnv → Edition → Edition → World → World
unfolding on_edition_downgraded on_edition_upgraded
on_edition_changed env prev next w =
    if at_least prev required && not (at_least next required)
    then on_edition_downgraded env w
    else if not (at_least prev required) && at_least next required
    then on_edition_upgraded env w
    else w

-- The changes of a log, the newest first, each told in its turn.
unfoldable pub told_changes : ServiceEnv → List (Edition × Edition) → World → World
unfolding on_edition_changed
told_changes env [] w = w
told_changes env ((prev, next) ∷ cs) w = on_edition_changed env prev next (told_changes env cs w)
