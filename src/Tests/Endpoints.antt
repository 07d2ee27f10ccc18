-- ===== src/Tests/Endpoints.antt =====
-- Status patterns and check results at concrete inputs.
use maintenant.Base.{
  true, false, List, Str, Str_eq, str_eq, ◌≡◌, true, [], ◌∷◌, arith, lit, any, refl,
}
use maintenant.Base.Map.{lookup}
use maintenant.Endpoint.Checks.{Endpoint, CheckResult, World, up}
use maintenant.Endpoint.Checks.Alternation.{Alternates, run, run-Alternates}
use maintenant.Endpoint.Status.{new_status_matcher, matches}
use maintenant.Endpoint.Status.RoundTrip.{family, code, accepts, matches-pattern_of}

matches-pattern_of_example :
    matches (new_status_matcher (lit "2xx,301")) 301
    ≡ any (accepts 301) (family 2 ∷ code 3 0 1 ∷ [])
matches-pattern_of_example =
    matches-pattern_of (family 2) (code 3 0 1 ∷ []) 301 (omega arith) (omega arith, tt)

abbrev web : Endpoint
web = record {
  status = up;
  alerting = false;
  consecutive_failures = 2;
  consecutive_successes = 0;
  failure_threshold = 3;
  recovery_threshold = 2;
}

abbrev world : World
world = record { endpoints = (lit "e1", web) ∷ []; results = []; out = [] }

abbrev failure : CheckResult
failure = record { success = false; degraded = false; replayed = false }

abbrev success : CheckResult
success = record failure { success = true }

abbrev outage : List (Str × CheckResult)
outage =
    (lit "e1", failure)
    ∷ (lit "e1", success)
    ∷ (lit "e1", record success { replayed = true })
    ∷ (lit "e1", success)
    ∷ []

run-Alternates_example : Alternates (lit "e1") (run outage world)
unfolding lookup str_eq
run-Alternates_example = run-Alternates outage world (lit "e1") refl
