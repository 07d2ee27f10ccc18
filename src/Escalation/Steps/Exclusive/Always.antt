-- ===== src/Escalation/Steps/Exclusive/Always.antt =====
-- The service starts no run and keeps the ids of policies apart.
use maintenant.Base.{
  count-any, Bool-cases, inl, inr, ℕ, ◌≡◌, refl, sym, inl, inr, Bool, true, false, not, ◌&&◌, [],
  ◌∷◌, arith, Str, str_eq, str_eq_iff, any, count, count-any, count-append, count-keep, keep,
  if_elim, Bool-cases, Option-cases,
}
use maintenant.Escalation.Model.{
  Policy, is_live, stopped_by_policy_disabled, stopped_by_policy_deletion,
  stopped_by_edition_downgrade,
}
use maintenant.Escalation.Store.{
  World, update_where, is_of, stop_policy_runs, bulk_stop_active_runs, bulk_deactivate_all_policies,
  bulk_restore_policies, ended, select_policy,
}
use maintenant.Escalation.Policies.{
  PolicyRequest, ServiceEnv, create_policy, insert_policy, inserted, policy_of, validate_request,
  write_policy, update_policy_row, update_policy, set_policy_active, delete_policy,
  delete_policy_row, on_edition_downgraded, on_edition_upgraded,
}
use maintenant.Escalation.Steps.Rows.{is_policy, count-update_where}
use maintenant.Escalation.Steps.Kept.{IsLess, IsLess-refl, IsLess-trans, IsLess-change_runs}
use maintenant.Escalation.Model.{RunStatus}
use maintenant.Escalation.Policies.{
  Statement, Answer, select, stop_runs, delete, deactivate, restore,
}
use maintenant.Escalation.Steps.Exclusive.{IsWell}

IsWell-insert_policy :
    (p : Policy) (w : World) → IsWell w → IsWell (inserted p w (insert_policy p w)).0
unfolding insert_policy
IsWell-insert_policy p w h = elim (Bool-cases (any (is_policy p.id) w.policies)) [
  | inl e ↦ rw e h
  | inr e ↦ rw e (record {
    pairs = h.pairs;
    ids = h.ids;
    fresh = h.fresh;
    policies = λ id.
        let same : p.id ≡ id → count (is_policy id) w.policies ≡ 0 =
          λ q. rw (sym q) (count-any (is_policy p.id) w.policies e) in
        unfold count in
        ground (
          arith,
          h.policies id,
          same,
          str_eq_iff p.id id,
          count-append (is_policy id) w.policies (p ∷ []),
        );
  })
]

pub IsWell-create :
    (env : ServiceEnv) (req : PolicyRequest) (w : World)
    → IsWell w
    → IsWell (create_policy env req w).0
unfolding create_policy
IsWell-create env req w h = ground (arith, h, IsWell-insert_policy (policy_of env.new_id req) w h)

-- A change of policies that keeps their ids.
IsLess-policies :
    (test : Policy → Bool) (f : Policy → Policy) (w : World)
    → ((p : Policy) (id : Str) → test p ≡ true → is_policy id (f p) ≡ is_policy id p)
    → IsLess w (record w { policies = update_where test f w.policies })
IsLess-policies test f w same = record {
  pairs = λ a p. omega arith;
  ids = λ i. refl;
  dead = λ i. omega arith;
  next = omega arith;
  policies =
      λ id. omega (arith, count-update_where (is_policy id) test f (λ p e. same p id e) w.policies);
}

IsLess-update_policy_row : (p : Policy) (w : World) → IsLess w (update_policy_row p w)
unfolding update_policy_row
IsLess-update_policy_row p w =
    IsLess-policies (λ q. str_eq q.id p.id) (λ q. p) w
      (λ q id e. rw ((str_eq_iff q.id p.id).0 e) refl)

IsLess-stop_policy_runs :
    (id : Str) (status : RunStatus) (at : ℕ) (w : World)
    → is_live status ≡ false
    → IsLess w (stop_policy_runs id status at w)
unfolding stop_policy_runs
IsLess-stop_policy_runs id status at w dead =
    IsLess-change_runs (λ r. is_of r.policy_id id && is_live r.status) (ended status at) w
      (λ r. refl) (λ r a p t e. ground arith) (λ r t e. ground arith)

IsLess-write :
    (env : ServiceEnv) (was : Bool) (p : Policy) (w : World) → IsLess w (write_policy env was p w).0
unfolding write_policy
IsLess-write env was p w =
    let L = λ (x : World × Answer). IsLess w x.0 in
    let v = update_policy_row p w in
    let written = IsLess-update_policy_row p w in
    if_elim L (env.fails Statement.update) (λ e. IsLess-refl w)
      (λ e.
        if_elim L (was && not p.active)
          (λ e.
            if_elim L (env.fails stop_runs) (λ e. written)
              (λ e.
                IsLess-trans w v _ written
                  (IsLess-stop_policy_runs p.id stopped_by_policy_disabled env.now v refl)))
          (λ e. written))

pub IsLess-update :
    (env : ServiceEnv) (id : Str) (req : PolicyRequest) (w : World)
    → IsLess w (update_policy env id req w).0
unfolding update_policy
IsLess-update env id req w =
    let L = λ (x : World × Answer). IsLess w x.0 in
    if_elim L (env.fails select) (λ e. IsLess-refl w)
      (λ e. elim (Option-cases (select_policy id w.policies)) [
        | inl e ↦ rw e (IsLess-refl w)
        | inr (old, e) ↦ rw e (elim (Option-cases (validate_request req)) [
          | inl e' ↦ rw e' (IsLess-write env old.active _ w)
          | inr (r, e') ↦ rw e' (IsLess-refl w)
        ])
      ])

pub IsLess-activate :
    (env : ServiceEnv) (id : Str) (on : Bool) (w : World)
    → IsLess w (set_policy_active env id on w).0
unfolding set_policy_active
IsLess-activate env id on w =
    let L = λ (x : World × Answer). IsLess w x.0 in
    if_elim L (env.fails select) (λ e. IsLess-refl w)
      (λ e. elim (Option-cases (select_policy id w.policies)) [
        | inl e ↦ rw e (IsLess-refl w)
        | inr (old, e) ↦ rw e (IsLess-write env old.active _ w)
      ])

IsLess-delete_policy_row : (id : Str) (w : World) → IsLess w (delete_policy_row id w)
unfolding delete_policy_row
IsLess-delete_policy_row id w =
    let kept = record w { policies = keep (λ q. not (str_eq q.id id)) w.policies } in
    IsLess-trans w kept _
      (record {
        pairs = λ a p. omega arith;
        ids = λ i. refl;
        dead = λ i. omega arith;
        next = omega arith;
        policies = λ i. count-keep (is_policy i) (λ q. not (str_eq q.id id)) w.policies;
      })
      (IsLess-change_runs (λ r. is_of r.policy_id id) _ kept (λ r. refl) (λ r a p t e. ground arith)
        (λ r t e. ground arith))

pub IsLess-remove : (env : ServiceEnv) (id : Str) (w : World) → IsLess w (delete_policy env id w).0
unfolding delete_policy
IsLess-remove env id w =
    let L = λ (x : World × Answer). IsLess w x.0 in
    let v = stop_policy_runs id stopped_by_policy_deletion env.now w in
    let stopped = IsLess-stop_policy_runs id stopped_by_policy_deletion env.now w refl in
    if_elim L (env.fails select) (λ e. IsLess-refl w)
      (λ e. elim (Option-cases (select_policy id w.policies)) [
        | inl e ↦ rw e (IsLess-refl w)
        | inr (old, e) ↦ rw e (
            if_elim L (env.fails stop_runs) (λ e. IsLess-refl w)
              (λ e.
                if_elim L (env.fails delete) (λ e. stopped)
                  (λ e. IsLess-trans w v _ stopped (IsLess-delete_policy_row id v))))
      ])

pub IsLess-downgraded : (env : ServiceEnv) (w : World) → IsLess w (on_edition_downgraded env w)
unfolding on_edition_downgraded bulk_deactivate_all_policies bulk_stop_active_runs
IsLess-downgraded env w =
    let v = bulk_deactivate_all_policies w in
    let off : IsLess w v = IsLess-policies _ _ w (λ p id e. refl) in
    if_elim (IsLess w) (env.fails deactivate) (λ e. IsLess-refl w)
      (λ e.
        if_elim (IsLess w) (env.fails stop_runs) (λ e. off)
          (λ e. IsLess-trans w v _ off (
            IsLess-change_runs (λ r. is_live r.status) (ended stopped_by_edition_downgrade env.now)
              v (λ r. refl) (λ r a p t e. ground arith) (λ r t e. ground arith))))

pub IsLess-upgraded : (env : ServiceEnv) (w : World) → IsLess w (on_edition_upgraded env w)
unfolding on_edition_upgraded bulk_restore_policies
IsLess-upgraded env w =
    if_elim (IsLess w) (env.fails restore) (λ e. IsLess-refl w)
      (λ e. IsLess-policies _ _ w (λ p id e. refl))
