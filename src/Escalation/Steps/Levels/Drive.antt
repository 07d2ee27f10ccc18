-- ===== src/Escalation/Steps/Levels/Drive.antt =====
-- The cycles of a run, from its start to its end.
use maintenant.Base.{
  ℕ, zero, suc, ◌+◌, ◌≤◌, ◌<◌, ◌≡◌, refl, sym, ap, ◌∙◌, Option, none, some, List, [], ◌∷◌, arith,
  Str, All, length, get_elem?, subst,
}
use maintenant.Alert.Model.{Alert}
use maintenant.Escalation.Model.{Level, Policy, Run, active, exhausted}
use maintenant.Escalation.Store.{World, ended, select_run}
use maintenant.Escalation.Runner.{Env}
use maintenant.Escalation.Runner.Cycle.{execute_level, exhaust, follow_policy, process_run}
use maintenant.Escalation.Steps.Levels.{
  select_run-id, IsQuiet, advanced, quiet-process_run, runs-execute_level, runs-exhaust, IsAt,
}

-- The cycles of a run: each finds the row and steps it.
unfoldable pub drive : ℕ → List Env → World → World
unfolding select_run process_run
drive id [] w = w
drive id (env ∷ envs) w =
    drive id envs (elim (select_run id w.runs) [ none ↦ w | some r ↦ process_run env r w ])

get_elem?-some : (ls : List Level) (n : ℕ) → n < length ls → (l : Level) × (get_elem? ls n ≡ some l)
unfolding get_elem?
get_elem?-some [] n h = ground arith
get_elem?-some (l ∷ ls) zero h = (l, refl)
get_elem?-some (l ∷ ls) (suc n) h = get_elem?-some ls n (omega (arith, h))

get_elem?-none : (ls : List Level) (n : ℕ) → length ls ≤ n → get_elem? ls n ≡ none
unfolding get_elem?
get_elem?-none [] n h = refl
get_elem?-none (l ∷ ls) zero h = ground arith
get_elem?-none (l ∷ ls) (suc n) h = get_elem?-none ls n (omega (arith, h))

follow-level :
    (env : Env) (r : Run) (a : Alert) (o : Option Policy) (p : Policy) (l : Level) (w : World)
    → o ≡ some p
    → get_elem? p.levels r.executed ≡ some l
    → follow_policy env r a o w ≡ execute_level env r a p l w
unfolding follow_policy
follow-level env r a none p l w e h = cc
follow-level env r a (some q) p l w e h = let same : q ≡ p = cc in ground (arith, same, h)

follow-end :
    (env : Env) (r : Run) (a : Alert) (o : Option Policy) (p : Policy) (w : World)
    → o ≡ some p
    → get_elem? p.levels r.executed ≡ none
    → follow_policy env r a o w ≡ exhaust env r a p w
unfolding follow_policy
follow-end env r a none p w e h = cc
follow-end env r a (some q) p w e h = let same : q ≡ p = cc in ground (arith, same, h)

runs-process_run :
    (env : Env) (r : Run) (p : Policy) (l : Level) (w : World)
    → IsQuiet r.alert_id r.id env
    → r.status ≡ active
    → r.snapshot ≡ some p
    → get_elem? p.levels r.executed ≡ some l
    → select_run r.id w.runs ≡ some r
    → select_run r.id (process_run env r w).runs ≡ some (advanced env p l r)
runs-process_run env r p l w q live has here row =
    let same : process_run env r w ≡ execute_level env r q.alert_of p l w =
      quiet-process_run env r w q (ground arith)
      ∙ follow-level env r q.alert_of r.snapshot p l w has here in
    subst (λ (v : World). select_run r.id v.runs ≡ some (advanced env p l r)) (sym same)
      (runs-execute_level env r q.alert_of p l w q.written row)

runs-process_run_end :
    (env : Env) (r : Run) (p : Policy) (w : World)
    → IsQuiet r.alert_id r.id env
    → r.status ≡ active
    → r.snapshot ≡ some p
    → get_elem? p.levels r.executed ≡ none
    → select_run r.id w.runs ≡ some r
    → select_run r.id (process_run env r w).runs ≡ some (ended exhausted env.now r)
runs-process_run_end env r p w q live has here row =
    let same : process_run env r w ≡ exhaust env r q.alert_of p w =
      quiet-process_run env r w q (ground arith)
      ∙ follow-end env r q.alert_of r.snapshot p w has here in
    subst (λ (v : World). select_run r.id v.runs ≡ some (ended exhausted env.now r)) (sym same)
      (runs-exhaust env r q.alert_of p w q.ended row)

module _ (p : Policy) (alert : Str) (id start : ℕ) where
  IsAt-process_run :
      (n : ℕ) (env : Env) (w : World) (at : IsAt p alert id start n w)
      → IsQuiet alert id env
      → n < length p.levels
      → IsAt p alert id start (suc n) (process_run env at.row w)
  IsAt-process_run n env w at q small =
      let r = at.row in
      let id_is : r.id ≡ id = select_run-id id w.runs r at.is_row in
      let quiet : IsQuiet r.alert_id r.id env = rw (at.alert_is, id_is) q in
      let (l, here) = get_elem?-some p.levels n small in
      let here' : get_elem? p.levels r.executed ≡ some l = rw at.executed_is here in
      let own : select_run r.id w.runs ≡ some r =
        subst (λ (i : ℕ). select_run i w.runs ≡ some r) (sym id_is) at.is_row in
      let moved = runs-process_run env r p l w quiet at.is_active at.snapshot_is here' own in
      record {
        row = advanced env p l r;
        is_row =
            subst (λ (i : ℕ). select_run i (process_run env r w).runs ≡ some (advanced env p l r))
              id_is moved;
        alert_is = at.alert_is;
        snapshot_is = at.snapshot_is;
        is_active = refl;
        executed_is = ap suc at.executed_is;
        on_time = λ next e.
            let e' : get_elem? p.levels (suc r.executed) ≡ some next = rw at.executed_is e in
            ground (arith, at.on_time l here);
      }

  -- What `drive` does of the row.
  drive_row :
      (n : ℕ) (env : Env) (envs : List Env) (w : World) (at : IsAt p alert id start n w)
      → drive id (env ∷ envs) w ≡ drive id envs (process_run env at.row w)
  unfolding drive
  drive_row n env envs w at = rw at.is_row refl

-- If the alert of a run fires without an acknowledgment or a maintenance window and the row of the run can be written,
-- then a number of steps takes the run as many levels further, as long as there are that many levels, and the
-- level that it is then at is due exactly its own delay after the start.
pub drive-IsAt :
    (p : Policy) (alert : Str) (id start n : ℕ) (envs : List Env) (w : World)
    → IsAt p alert id start n w
    → All (IsQuiet alert id) envs
    → n + length envs ≤ length p.levels
    → IsAt p alert id start (n + length envs) (drive id envs w)
unfolding drive
drive-IsAt p alert id start n [] w at q small =
    subst (λ (k : ℕ). IsAt p alert id start k w) (omega arith) at
drive-IsAt p alert id start n (env ∷ envs) w at q small =
    let next = IsAt-process_run p alert id start n env w at q.0 (omega (arith, small)) in
    let rest =
      drive-IsAt p alert id start (suc n) envs (process_run env at.row w) next q.1
        (omega (arith, small)) in
    let k : suc n + length envs ≡ n + suc (length envs) = omega arith in
    rw (drive_row p alert id start n env envs w at)
      (subst (λ (k : ℕ). IsAt p alert id start k (drive id envs (process_run env at.row w))) k rest)

-- Exhausted, and still the run of its alert.
abbrev pub IsSpent : ℕ → Str → World → Type 0
IsSpent id alert w =
    (r : Run) × (select_run id w.runs ≡ some r) × (r.status ≡ exhausted) × (r.alert_id ≡ alert)

IsSpent-process_run :
    (p : Policy) (alert : Str) (id start n : ℕ) (env : Env) (w : World)
    (at : IsAt p alert id start n w)
    → n ≡ length p.levels
    → IsQuiet alert id env
    → IsSpent id alert (process_run env at.row w)
IsSpent-process_run p alert id start n env w at last q =
    let r = at.row in
    let id_is : r.id ≡ id = select_run-id id w.runs r at.is_row in
    let quiet : IsQuiet r.alert_id r.id env = rw (at.alert_is, id_is) q in
    let past : get_elem? p.levels r.executed ≡ none =
      rw at.executed_is (get_elem?-none p.levels n (omega (arith, last))) in
    let own : select_run r.id w.runs ≡ some r =
      subst (λ (i : ℕ). select_run i w.runs ≡ some r) (sym id_is) at.is_row in
    let over = runs-process_run_end env r p w quiet at.is_active at.snapshot_is past own in
    (
      ended exhausted env.now r,
      subst (λ (i : ℕ). select_run i (process_run env r w).runs ≡ some (ended exhausted env.now r))
          id_is over,
      refl,
      at.alert_is,
    )

-- Under the same conditions, a run at level `n` of its policy is exhausted by one step more than it has levels
-- left, and is still the run of its alert.
pub drive-IsSpent :
    (p : Policy) (alert : Str) (id start n : ℕ) (envs : List Env) (w : World)
    → IsAt p alert id start n w
    → All (IsQuiet alert id) envs
    → n ≤ length p.levels
    → n + length envs ≡ suc (length p.levels)
    → IsSpent id alert (drive id envs w)
unfolding drive
drive-IsSpent p alert id start n [] w at q small whole = ground arith
drive-IsSpent p alert id start n (env ∷ []) w at q small whole =
    rw (drive_row p alert id start n env [] w at)
      (IsSpent-process_run p alert id start n env w at (omega (arith, whole)) q.0)
drive-IsSpent p alert id start n (env ∷ later ∷ envs) w at q small whole =
    let less : n < length p.levels = omega (arith, whole) in
    rw (drive_row p alert id start n env (later ∷ envs) w at) (
      drive-IsSpent p alert id start (suc n) (later ∷ envs) (process_run env at.row w)
        (IsAt-process_run p alert id start n env w at q.0 less) q.1 (omega (arith, less))
        (omega (arith, whole)))
