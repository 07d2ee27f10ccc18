-- ===== src/Escalation/Policies/Requests.antt =====
-- validateRequest of internal/commercial/escalation/service.go against what it is to accept.
use maintenant.Base.{
  ℕ, suc, ◌+◌, ◌≤◌, ◌≡◌, ◌≢◌, ◌↔◌, true, false, Option, none, some, List, [], ◌∷◌, arith, Str,
  length, is_empty,
}
use maintenant.Base.Int.{ℤ, pos, negsuc}
use maintenant.Escalation.Policies.{
  LevelReq, PolicyRequest, max_levels, max_name, min_delay, max_delay, seconds, is_delay, is_close,
  no_ids, validate_levels, validate_request,
}

abbrev IsDelay : ℤ → Type 0
IsDelay (negsuc n) = ⊥
IsDelay (pos n) = (min_delay ≤ n) × (n ≤ max_delay)

-- At least a minute after the delay before, if there is one.
abbrev IsSpaced : Option ℕ → ℤ → Type 0
IsSpaced none delay = Unit
IsSpaced (some before) delay = before + min_delay ≤ seconds delay

abbrev AreLevels : Option ℕ → List LevelReq → Type 0
AreLevels before [] = Unit
AreLevels before (l ∷ ls) =
    IsDelay l.delay_seconds
    × (l.channel_ids ≢ [])
    × IsSpaced before l.delay_seconds
    × AreLevels (some (seconds l.delay_seconds)) ls

-- A name of 1 to 120 bytes, 1 to 5 levels, each of 60 to 86400 seconds, with a channel, and at least a
-- minute after the level before it.
abbrev pub IsHonourable : PolicyRequest → Type 0
IsHonourable req =
    (1 ≤ length req.name)
    × (length req.name ≤ max_name)
    × (1 ≤ length req.levels)
    × (length req.levels ≤ max_levels)
    × AreLevels none req.levels

is_delay_iff : (z : ℤ) → (is_delay z ≡ true) ↔ IsDelay z
is_delay_iff (negsuc n) = ground arith
is_delay_iff (pos n) = ground arith

is_close_iff : (before : Option ℕ) (z : ℤ) → (is_close before z ≡ false) ↔ IsSpaced before z
is_close_iff none z = ground arith
is_close_iff (some b) z = ground arith

no_ids_iff : (ids : List Str) → (no_ids ids ≡ false) ↔ (ids ≢ [])
no_ids_iff [] = ground arith
no_ids_iff (x ∷ xs) = ground arith

validate_levels_iff :
    (i : ℕ) (before : Option ℕ) (ls : List LevelReq)
    → (validate_levels i before ls ≡ none) ↔ AreLevels before ls
unfolding validate_levels
validate_levels_iff i before [] = ground arith
validate_levels_iff i before (l ∷ ls) = ground (
  arith,
  validate_levels_iff (suc i) (some (seconds l.delay_seconds)) ls,
  is_delay_iff l.delay_seconds,
  no_ids_iff l.channel_ids,
  is_close_iff before l.delay_seconds,
)

is_empty_iff : (s : Str) → (is_empty s ≡ false) ↔ (1 ≤ length s)
is_empty_iff [] = ground arith
is_empty_iff (x ∷ xs) = ground arith

-- A request is accepted exactly if its name has 1 to 120 bytes, it has 1 to 5 levels, and each level has a
-- delay of 60 to 86400 seconds, a channel, and a delay at least 60 seconds above that of the level before it.
pub validate_request_iff : (req : PolicyRequest) → (validate_request req ≡ none) ↔ IsHonourable req
unfolding validate_request
validate_request_iff req =
    ground (arith, validate_levels_iff 0 none req.levels, is_empty_iff req.name)
