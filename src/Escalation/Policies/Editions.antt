-- ===== src/Escalation/Policies/Editions.antt =====
-- The change of edition and its way back.
use maintenant.Base.{ℕ, ◌≡◌, refl, true, false, List, [], ◌∷◌, arith, All, count}
use maintenant.Escalation.Model.{Policy, Run, is_live, stopped_by_edition_downgrade}
use maintenant.Escalation.Store.{
  World, update_where, ended, bulk_deactivate_all_policies, bulk_restore_policies,
  bulk_stop_active_runs,
}
use maintenant.Escalation.Policies.{
  ServiceEnv, deactivate, stop_runs, restore, on_edition_downgraded, on_edition_upgraded,
}

-- No policy is active and no run is live.
abbrev pub IsStill : World → Type 0
IsStill w = (count (λ p. p.active) w.policies ≡ 0) × (count (λ r. is_live r.status) w.runs ≡ 0)

still-runs :
    (at : ℕ) (rs : List Run)
    → count
        (λ r. is_live r.status)
        (update_where (λ r. is_live r.status) (ended stopped_by_edition_downgrade at) rs)
      ≡ 0
unfolding count update_where
still-runs at [] = refl
still-runs at (r ∷ rs) = ground (arith, still-runs at rs)

-- A policy as the two bulk statements of the store leave it.
abbrev off : Policy → Policy
off p = record p { active_before_downgrade = p.active; active = false }

abbrev on : Policy → Policy
on p = record p { active = true; active_before_downgrade = false }

still-policies :
    (ps : List Policy) → count (λ p. p.active) (update_where (λ p. p.active) off ps) ≡ 0
unfolding count update_where
still-policies [] = refl
still-policies (p ∷ ps) = ground (arith, still-policies ps)

-- If the statements succeed, then after a downgrade no policy is active and no run is active or paused.
pub on_edition_downgraded-IsStill :
    (env : ServiceEnv) (w : World)
    → env.fails deactivate ≡ false
    → env.fails stop_runs ≡ false
    → IsStill (on_edition_downgraded env w)
unfolding on_edition_downgraded bulk_deactivate_all_policies bulk_stop_active_runs
on_edition_downgraded-IsStill env w d s =
    ground (arith, still-policies w.policies, still-runs env.now w.runs)

-- What an upgrade makes of the policy of a downgraded edition.
restored :
    (ps : List Policy)
    → All (λ p. p.active_before_downgrade ≡ false) ps
    → update_where (λ p. p.active_before_downgrade) on (update_where (λ p. p.active) off ps) ≡ ps
unfolding update_where
restored [] h = refl
restored (p ∷ ps) h = ground (arith, restored ps h.1, h.0)

-- If no policy carries the mark of an earlier downgrade and the statements on policies succeed, then an
-- upgrade after a downgrade gives back the policies.
pub on_edition_upgraded-on_edition_downgraded :
    (env later : ServiceEnv) (w : World)
    → All (λ p. p.active_before_downgrade ≡ false) w.policies
    → env.fails deactivate ≡ false
    → later.fails restore ≡ false
    → (on_edition_upgraded later (on_edition_downgraded env w)).policies ≡ w.policies
unfolding on_edition_downgraded on_edition_upgraded bulk_deactivate_all_policies
    bulk_restore_policies bulk_stop_active_runs
on_edition_upgraded-on_edition_downgraded env later w h d r = ground (arith, restored w.policies h)
