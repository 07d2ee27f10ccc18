-- ===== src/Certificate/Latest.antt =====
-- GetLatestCheckResult of internal/store/certificates.go where no two rows are of one second.
use maintenant.Base.{ℕ, ◌≤◌, ◌<◌, ◌≡◌, refl, Option, none, some, List, [], ◌∷◌, arith, if_elim, All}
use maintenant.Certificate.{CertCheckResult}
use maintenant.Certificate.Checks.{CertEnv, to_second, precedes, first_of, latest_check_result}

abbrev IsOlder : ℕ → Option CertCheckResult → Type 0
IsOlder n none = Unit
IsOlder n (some p) = p.checked_at < n

IsOlder-first_of :
    (env : CertEnv) (n : ℕ) (r : CertCheckResult) (o : Option CertCheckResult)
    → r.checked_at < n
    → IsOlder n o
    → IsOlder n (first_of env r o)
IsOlder-first_of env n r none h old = h
IsOlder-first_of env n r (some p) h old = if_elim (IsOlder n) (precedes env r p) (λ _. h) (λ _. old)

IsOlder-latest_check_result :
    (env : CertEnv) (n : ℕ) (rs : List CertCheckResult)
    → All (λ p. p.checked_at < n) rs
    → IsOlder n (latest_check_result env rs)
unfolding latest_check_result
IsOlder-latest_check_result env n [] h = tt
IsOlder-latest_check_result env n (r ∷ rs) h =
    IsOlder-first_of env n r (latest_check_result env rs) h.0
      (IsOlder-latest_check_result env n rs h.1)

newer_first :
    (env : CertEnv) (r : CertCheckResult) (o : Option CertCheckResult)
    → IsOlder r.checked_at o
    → first_of env r o ≡ some r
newer_first env r none old = refl
newer_first env r (some p) old = ground (arith, old)

-- A row of a later second than the others is the latest.
pub latest-newer :
    (env : CertEnv) (r : CertCheckResult) (rs : List CertCheckResult)
    → All (λ p. p.checked_at < r.checked_at) rs
    → latest_check_result env (r ∷ rs) ≡ some r
unfolding latest_check_result
latest-newer env r rs h =
    newer_first env r (latest_check_result env rs)
      (IsOlder-latest_check_result env r.checked_at rs h)

pub older_rows :
    (a b : ℕ) (rs : List CertCheckResult)
    → a < b
    → All (λ p. p.checked_at ≤ a) rs
    → All (λ p. p.checked_at < b) rs
older_rows a b [] lt h = tt
older_rows a b (r ∷ rs) lt h = (omega (arith, lt, h.0), older_rows a b rs lt h.1)

pub rows_by :
    (a b : ℕ) (rs : List CertCheckResult)
    → a < b
    → All (λ p. p.checked_at ≤ a) rs
    → All (λ p. p.checked_at ≤ b) rs
rows_by a b [] lt h = tt
rows_by a b (r ∷ rs) lt h = (omega (arith, lt, h.0), rows_by a b rs lt h.1)

pub later_second : (a b : ℕ) → to_second a < to_second b → a ≤ b
later_second a b h = omega (arith, h)
