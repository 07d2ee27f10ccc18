-- ===== src/Tests/Licenses.antt =====
-- internal/commercial/license/manager.go on a licence without an update window, with the subscriber of
-- internal/app/wiring.go.
use maintenant.Base.{ℕ, ◌*◌, ◌≡◌, ◌⊎◌, refl, false, true, none, some, List, [], ◌∷◌, lit, str_eq}
use maintenant.Escalation.Model.{Policy, Run, active}
use maintenant.Escalation.Store.{World}
use maintenant.Escalation.Policies.{ServiceEnv}
use maintenant.Escalation.Policies.Editions.{IsStill}
use maintenant.License.Window.{day}
use maintenant.License.Manager.{
  community, pro, is_community, LicensePayload, Build, Moment, Manager, bare_state, resolve_edition,
}
use maintenant.License.Manager.Checks.{Answer, failed, answered, check, new_manager}
use maintenant.License.Manager.Grants.{IsGranted, IsUnanswered, IsKept, edition-check}
use maintenant.License.Manager.Changes.{checks, Leads, changes-checks}
use maintenant.License.Manager.Changes.Silence.{first_check_silent}
use maintenant.Wiring.{at_least, required, told_changes}
use maintenant.Wiring.Subscriber.{told_changes-checks}

abbrev build : Build
build = record {
  version = lit "1.0";
  build_date = some 0;
  parse_rfc3339 = λ s. none;
  rfc3339 = λ t. [];
  long_date = λ t. [];
  itoa = λ n. [];
}

abbrev at : ℕ → Moment
at now = record { now = now; fails = λ f. false }

abbrev bought : LicensePayload
bought = record {
  status = lit "active";
  edition = lit "pro";
  plan = [];
  features = [];
  expires_at = none;
  verified_at = some 0;
  updates_until = [];
}

abbrev empty : Manager
empty = record {
  state = bare_state (lit "unknown") [];
  last_edition = some community;
  cache = none;
  window = none;
  changes = [];
}

abbrev licensed : Manager
licensed = record {
  state = record (bare_state (lit "active") []) { edition = pro; verified_at = some 0 };
  last_edition = some pro;
  cache = some bought;
  window = none;
  changes = [];
}

-- The server is out of reach for 31 days, then for 61.
abbrev outage : List (Moment × Answer)
outage = (at (31 * day), failed 0 none []) ∷ (at (61 * day), failed 0 none []) ∷ []

outage_ends : (checks build outage licensed).changes ≡ (pro, community) ∷ []
unfolding checks str_eq
outage_ends = refl

changes-checks_example :
    Leads pro (checks build outage licensed).changes (checks build outage licensed).state.edition
changes-checks_example = changes-checks build outage licensed refl refl

still_pro : is_community (check build (at day) (failed 0 none []) licensed).state.edition ≡ false
unfolding check str_eq
still_pro = refl

edition-check_example :
    IsGranted (failed 0 none []) (check build (at day) (failed 0 none []) licensed).state.edition
    ⊎ (IsUnanswered (failed 0 none [])
        × ((check build (at day) (failed 0 none []) licensed).state.edition
            ≡ licensed.state.edition)
        × IsKept day licensed.state)
edition-check_example = edition-check build (at day) (failed 0 none []) licensed still_pro

first_check_silent_example :
    ((new_manager build (at 0) empty).state.edition ≡ community)
    × ((check build (at 0) (answered (some bought)) (new_manager build (at 0) empty)).state.edition
        ≡ resolve_edition bought)
    × ((check build (at 0) (answered (some bought)) (new_manager build (at 0) empty)).changes ≡ [])
first_check_silent_example = first_check_silent build (at 0) (at 0) empty bought refl refl refl

abbrev desk : ServiceEnv
desk = record { now = 0; new_id = lit "p1"; fails = λ s. false }

abbrev on_call : Policy
on_call = record {
  id = lit "p1";
  name = lit "on call";
  active = true;
  active_before_downgrade = false;
  filters = record { severities = []; scopes = [] };
  levels = record { order = 0; delay_seconds = 60; channel_ids = lit "mail" ∷ [] } ∷ [];
}

abbrev begun : Run
begun = record {
  id = 0;
  policy_id = some (lit "p1");
  snapshot = some on_call;
  alert_id = lit "a1";
  status = active;
  executed = 0;
  started_at = 0;
  ended_at = none;
  next_action_at = some 60;
}

abbrev watched : World
watched = record {
  policies = on_call ∷ [];
  runs = begun ∷ [];
  deliveries = [];
  next_id = 1;
  out = [];
}

lapsed : at_least (checks build outage licensed).state.edition required ≡ false
unfolding checks str_eq
lapsed = refl

told_changes-checks_example :
    IsStill (told_changes desk (checks build outage licensed).changes watched)
told_changes-checks_example =
    told_changes-checks build outage licensed desk watched refl refl refl lapsed refl refl
