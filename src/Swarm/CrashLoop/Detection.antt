-- ===== src/Swarm/CrashLoop/Detection.antt =====
-- When a crash loop is detected, and when it ends.
use maintenant.Base.{
  ℕ, ◌+◌, ◌<◌, ◌≡◌, refl, sym, ap, ◌∙◌, ◌≢◌, inl, inr, Bool, true, false, not, ◌&&◌, ◌||◌, none,
  some, List, [], ◌∷◌, ◌++◌, arith, Str, str_eq, str_eq_iff, Str_eq, leb, keep, All, if◌then◌else◌,
  Bool-cases, Option-cases,
}
use maintenant.Base.Map.{Map, lookup, lookup-insert, IsUnique}
use maintenant.Swarm.CrashLoop.{
  FailureState, Detector, crash_loop_alert, crash_loop_detected, or_fresh, pruned, recent, within,
  crash_loop_buffer_max, record_failure, recovers, check_one, check_each, check_recoveries,
  is_crash_looping, crash_loop_threshold, crash_loop_recovery_time,
}
use maintenant.Swarm.CrashLoop.Balance.{Holds, Holds-check_one, lookup-check_one}

-- The service's state with the new failure, old ones dropped.
abbrev pub noted : Detector → Str → Str → ℕ → ℕ → FailureState
noted s id name at now = pruned (or_fresh (lookup id s.services)) name at now

-- A recorded failure puts a service into a crash loop exactly when three failures stand within the
-- window, and keeps it in one that it was in; it raises an alert exactly when the loop is new; no
-- other service is touched.
pub record_failure_detects :
    (s : Detector) (id name : Str) (at now : ℕ)
    → let count = recent (noted s id name at now) now in
      let s' = record_failure s id name at now in
      (is_crash_looping s' id ≡ (is_crash_looping s id || leb crash_loop_threshold count))
      × (s'.out ≡ (
          if leb crash_loop_threshold count && not (is_crash_looping s id)
          then crash_loop_alert id name now ∷ crash_loop_detected id now ∷ s.out
          else s.out))
      × ((j : Str) → str_eq id j ≡ false → lookup j s'.services ≡ lookup j s.services)
unfolding record_failure is_crash_looping
record_failure_detects s id name at now =
    let st = noted s id name at now in
    let on = lookup-insert id id (record st { in_crash_loop = true }) s.services in
    let off = lookup-insert id id st s.services in
    elim (Option-cases (lookup id s.services)) [
      | inl e ↦ (
        ground (arith, on, off, str_eq_iff id id, e),
        ground (arith, e),
        λ j ne. ground (
          arith,
          lookup-insert id j (record st { in_crash_loop = true }) s.services,
          lookup-insert id j st s.services,
        ),
      )
      | inr (old, e) ↦ (
        ground (arith, on, off, str_eq_iff id id, e),
        ground (arith, e),
        λ j ne. ground (
          arith,
          lookup-insert id j (record st { in_crash_loop = true }) s.services,
          lookup-insert id j st s.services,
        ),
      )
    ]

All-keep : {A : Type 0} (p : A → Bool) (xs : List A) → All (λ x. p x ≡ true) (keep p xs)
unfolding keep
All-keep p [] = tt
All-keep p (x ∷ xs) = ground (arith, All-keep p xs)

-- The failures that are kept are less than the buffer's span old.
pub pruned_recent :
    (st : FailureState) (name : Str) (at now : ℕ)
    → All (λ t. within crash_loop_buffer_max now t ≡ true) (pruned st name at now).failures
unfolding pruned
pruned_recent st name at now = All-keep (within crash_loop_buffer_max now) (st.failures ++ at ∷ [])

-- No service of the list is in a crash loop that has been quiet for the recovery time.
abbrev Settled : ℕ → Map Str FailureState → Detector → Type 0
Settled now m s =
    (i : Str) (st : FailureState)
    → lookup i s.services ≡ some st
    → lookup i m ≢ none
    → recovers now st ≡ false

lookup-check_each :
    (now : ℕ) (m : Map Str FailureState) (s : Detector) (j : Str)
    → lookup j m ≡ none
    → lookup j (check_each now m s).services ≡ lookup j s.services
unfolding check_each lookup
lookup-check_each now [] s j e = refl
lookup-check_each now ((i, st) ∷ m) s j e = elim (Bool-cases (str_eq i j)) [
  | inl same ↦ ground arith
  | inr ne ↦
      lookup-check_each now m (check_one now i st s) j (ground arith)
      ∙ lookup-check_one i j now st s ne
]

check_one-settled :
    (now : ℕ) (i : Str) (st w : FailureState) (s : Detector)
    → lookup i s.services ≡ some st
    → lookup i (check_one now i st s).services ≡ some w
    → recovers now w ≡ false
unfolding check_one recovers
check_one-settled now i st w s e h =
    ground
      (arith, lookup-insert i i (record st { in_crash_loop = false }) s.services, str_eq_iff i i)

check_each-Settled :
    (now : ℕ) (m : Map Str FailureState) (s : Detector)
    → IsUnique m
    → Holds m s
    → Settled now m (check_each now m s)
unfolding check_each lookup
check_each-Settled now [] s u h j w e inside = absurd (inside refl)
check_each-Settled now ((i, st) ∷ m) s u h j w e inside = elim (Bool-cases (str_eq i j)) [
  | inl same ↦
      let eq : i ≡ j = (str_eq_iff i j).0 same in
      check_one-settled now i st w s (h i st (ground (arith, str_eq_iff i i))) (
        sym (lookup-check_each now m (check_one now i st s) i u.0)
        ∙ ap (λ x. lookup x (check_each now m (check_one now i st s)).services) eq
        ∙ e)
  | inr ne ↦
      check_each-Settled now m (check_one now i st s) u.1 (Holds-check_one i now st m s u.0 h) j w e
        (λ gone. inside (ground arith))
]

kept_loop :
    (now : ℕ) (st : FailureState)
    → recovers now st ≡ false
    → st.in_crash_loop ≡ true
    → now < st.last_failure + crash_loop_recovery_time
unfolding recovers
kept_loop now st r l = ground arith

-- If each service stands once in the map, then after CheckRecoveries a service in a crash loop has
-- failed less than the recovery time ago.
pub check_recoveries_settles :
    (s : Detector) (now : ℕ) (id : Str) (st : FailureState)
    → IsUnique s.services
    → lookup id (check_recoveries s now).services ≡ some st
    → st.in_crash_loop ≡ true
    → now < st.last_failure + crash_loop_recovery_time
unfolding check_recoveries
check_recoveries_settles s now id st u e l = elim (Option-cases (lookup id s.services)) [
  | inl gone ↦ cc (lookup-check_each now s.services s id gone, gone, e)
  | inr (old, here) ↦
      kept_loop now st
        (check_each-Settled now s.services s u (λ i w h. h) id st e (λ gone. cc (gone, here))) l
]
