-- ===== src/Escalation/Steps/Rows.antt =====
-- Counts of the rows of the store under its statements.
use maintenant.Base.{
  ℕ, ◌+◌, ◌≤◌, ◌≡◌, refl, Bool, true, not, ◌&&◌, List, [], ◌∷◌, arith, Str, str_eq, count, keep,
}
use maintenant.Escalation.Model.{Policy, Run, is_live}
use maintenant.Escalation.Store.{
  World, update_where, has_id, is_of, insert_by_due, sort_by_due, is_due, select_due_runs,
}

-- A live run of the policy for the alert.
abbrev pub is_live_pair : Str → Str → Run → Bool
is_live_pair alert policy r =
    str_eq r.alert_id alert && is_of r.policy_id policy && is_live r.status

abbrev pub is_dead : ℕ → Run → Bool
is_dead id r = has_id id r && not (is_live r.status)

abbrev pub is_policy : Str → Policy → Bool
is_policy id p = str_eq p.id id

module _ {ℓ} {A : Type ℓ} (p test : A → Bool) (f : A → A) where
  pub count-update_where_le :
      ((x : A) → test x ≡ true → p (f x) ≡ true → p x ≡ true)
      → (xs : List A) → count p (update_where test f xs) ≤ count p xs
  unfolding count update_where
  count-update_where_le h [] = omega arith
  count-update_where_le h (x ∷ xs) = ground (arith, h x, count-update_where_le h xs)

  pub count-update_where_ge :
      ((x : A) → test x ≡ true → p x ≡ true → p (f x) ≡ true)
      → (xs : List A) → count p xs ≤ count p (update_where test f xs)
  unfolding count update_where
  count-update_where_ge h [] = omega arith
  count-update_where_ge h (x ∷ xs) = ground (arith, h x, count-update_where_ge h xs)

  pub count-update_where :
      ((x : A) → test x ≡ true → p (f x) ≡ p x)
      → (xs : List A) → count p (update_where test f xs) ≡ count p xs
  unfolding count update_where
  count-update_where h [] = refl
  count-update_where h (x ∷ xs) = ground (arith, h x, count-update_where h xs)

-- A row for which no other row with its id is dead is live itself.
pub count-update_where_live :
    (p : Run → Bool) (id : ℕ) (test : Run → Bool) (f : Run → Run)
    → ((r : Run) → test r ≡ true → has_id id r ≡ true)
    → ((r : Run) → p (f r) ≡ true → is_live r.status ≡ true → p r ≡ true)
    → (rs : List Run) → count (is_dead id) rs ≡ 0
    → count p (update_where test f rs) ≤ count p rs
unfolding count update_where
count-update_where_live p id test f h k [] e = omega arith
count-update_where_live p id test f h k (r ∷ rs) e =
    ground (arith, h r, k r, count-update_where_live p id test f h k rs)

count-insert_by_due :
    (p : Run → Bool) (r : Run) (rs : List Run) → count p (insert_by_due r rs) ≡ count p (r ∷ rs)
unfolding count insert_by_due
count-insert_by_due p r [] = refl
count-insert_by_due p r (x ∷ xs) = ground (arith, count-insert_by_due p r xs)

count-sort_by_due : (p : Run → Bool) (rs : List Run) → count p (sort_by_due rs) ≡ count p rs
unfolding count sort_by_due
count-sort_by_due p [] = refl
count-sort_by_due p (r ∷ rs) =
    ground (arith, count-insert_by_due p r (sort_by_due rs), count-sort_by_due p rs)

count-keep_due :
    (id now : ℕ) (rs : List Run)
    → count (has_id id) (keep (is_due now) rs) + count (is_dead id) rs ≤ count (has_id id) rs
unfolding count keep
count-keep_due id now [] = omega arith
count-keep_due id now (r ∷ rs) = ground (arith, count-keep_due id now rs)

-- The runs that are due are live rows, each once.
pub count-select_due_runs :
    (id now : ℕ) (w : World)
    → count (has_id id) (select_due_runs now w) + count (is_dead id) w.runs
      ≤ count (has_id id) w.runs
unfolding select_due_runs
count-select_due_runs id now w =
    ground (
      arith,
      count-sort_by_due (has_id id) (keep (is_due now) w.runs),
      count-keep_due id now w.runs,
    )
