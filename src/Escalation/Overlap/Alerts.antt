-- ===== src/Escalation/Overlap/Alerts.antt =====
-- The overlap of two policies, against the alerts that both match and the channels that both reach.
use maintenant.Base.{
  ◌≡◌, ◌↔◌, refl, inl, inr, Bool, true, not, ◌&&◌, ◌||◌, none, List, [], ◌∷◌, ◌++◌, arith, Str,
  str_eq_iff, Eq, Str_eq, any, Bool-cases,
}
use maintenant.Alert.Model.{Alert}
use maintenant.Escalation.Model.{Scope, Filters, Policy}
use maintenant.Escalation.Runner.{contains, none_of, match_policy_filters}
use maintenant.Escalation.Overlap.{
  sets_intersect, scope_eq, scope_sets_intersect, filters_intersect, all_channels, shared_from,
  shared_channels,
}

scope_eq_iff : (x y : Scope) → (scope_eq x y ≡ true) ↔ (x ≡ y)
scope_eq_iff x y = ground (arith, str_eq_iff x.kind y.kind, str_eq_iff x.ref_id y.ref_id)

instance abbrev Scope_eq : Eq Scope
Scope_eq = record { beq = scope_eq; beq_iff = scope_eq_iff }

module _ {A : Type 0} (e : Eq A) where
  abbrev has : A → List A → Bool
  has x = any (λ y. e.beq y x)

  -- The filter bucket matches the element: it is empty or has it.
  abbrev takes : A → List A → Bool
  takes x l = none_of l || has x l

  any_flipped : (x : A) (l : List A) → has x l ≡ any (e.beq x) l
  unfolding any
  any_flipped x [] = refl
  any_flipped x (y ∷ l) = ground (arith, any_flipped x l, e.beq_iff x y, e.beq_iff y x)

  has-both :
      (a b : List A) → any (λ x. has x b) a ≡ true → (x : A) × (has x a ≡ true) × (has x b ≡ true)
  unfolding any
  has-both [] b h = cc
  has-both (x ∷ xs) b h = elim (Bool-cases (has x b)) [
    | inl found ↦ (x, ground (arith, e.beq_iff x x), found)
    | inr ne ↦ let (y, l, r) = has-both xs b (ground arith) in (y, ground arith, r)
  ]

  both-has : (x : A) (a b : List A) → has x a ≡ true → has x b ≡ true → any (λ x. has x b) a ≡ true
  unfolding any
  both-has x [] b h k = cc
  both-has x (y ∷ ys) b h k = elim (Bool-cases (e.beq y x)) [
    | inl same ↦ let found : has y b ≡ true = rw ((e.beq_iff y x).0 same) k in ground arith
    | inr ne ↦ ground (arith, both-has x ys b (ground arith) k)
  ]

  -- Two buckets share an element, or one is empty: some element is taken by both.
  abbrev meets : List A → List A → Bool
  meets a b = none_of a || none_of b || any (λ x. has x b) a

  takes-meets :
      (d : A) (a b : List A) → meets a b ≡ true → (x : A) × (takes x a ≡ true) × (takes x b ≡ true)
  unfolding any
  takes-meets d [] [] h = (d, refl, refl)
  takes-meets d [] (y ∷ ys) h = (y, refl, ground (arith, e.beq_iff y y))
  takes-meets d (x ∷ xs) [] h = (x, ground (arith, e.beq_iff x x), refl)
  takes-meets d (x ∷ xs) (y ∷ ys) h = let (z, l, r) = has-both (x ∷ xs) (y ∷ ys) h in (z, l, r)

  meets-takes : (x : A) (a b : List A) → takes x a ≡ true → takes x b ≡ true → meets a b ≡ true
  meets-takes x [] b h k = refl
  meets-takes x (y ∷ ys) [] h k = refl
  meets-takes x (y ∷ ys) (z ∷ zs) h k = both-has x (y ∷ ys) (z ∷ zs) h k

abbrev alert_of : Str → Scope → Alert
alert_of severity scope = record {
  id = [];
  source = [];
  alert_type = [];
  severity = severity;
  status = [];
  message = [];
  entity_type = scope.kind;
  entity_id = scope.ref_id;
  entity_name = [];
  agent_id = [];
  details = [];
  resolved_by_id = none;
  fired_at = 0;
  resolved_at = none;
  acknowledged_at = none;
  acknowledged_by = [];
  escalated_at = none;
  created_at = 0;
}

abbrev scope_of : Alert → Scope
scope_of a = record { kind = a.entity_type; ref_id = a.entity_id }

matches-takes :
    (a : Alert) (f : Filters)
    → match_policy_filters a f
      ≡ (takes Str_eq a.severity f.severities && takes Scope_eq (scope_of a) f.scopes)
unfolding match_policy_filters
matches-takes a f = refl

sets_intersect-meets : (a b : List Str) → sets_intersect a b ≡ meets Str_eq a b
unfolding sets_intersect any
sets_intersect-meets a b = refl

any_scopes : (a b : List Scope) → any (λ x. any (scope_eq x) b) a ≡ any (λ x. has Scope_eq x b) a
unfolding any
any_scopes [] b = refl
any_scopes (x ∷ xs) b = ground (arith, any_scopes xs b, any_flipped Scope_eq x b)

scope_sets_intersect-meets : (a b : List Scope) → scope_sets_intersect a b ≡ meets Scope_eq a b
unfolding scope_sets_intersect any
scope_sets_intersect-meets a b = rw (any_scopes a b) refl

-- Two filters are taken to intersect exactly if there is an alert that both match.
pub filters_intersect_iff :
    (f g : Filters)
    → (filters_intersect f g ≡ true)
      ↔ ((a : Alert) × (match_policy_filters a f ≡ true) × (match_policy_filters a g ≡ true))
unfolding filters_intersect
filters_intersect_iff f g = (
  (λ h.
      let (s, sf, sg) =
        takes-meets Str_eq [] f.severities g.severities
          (ground (arith, sets_intersect-meets f.severities g.severities)) in
      let (c, cf, cg) =
        takes-meets Scope_eq (record { kind = []; ref_id = [] }) f.scopes g.scopes
          (ground (arith, scope_sets_intersect-meets f.scopes g.scopes)) in
      (
        alert_of s c,
        ground (arith, matches-takes (alert_of s c) f),
        ground (arith, matches-takes (alert_of s c) g),
      )),
  (λ (a, hf, hg). ground (
    arith,
    matches-takes a f,
    matches-takes a g,
    sets_intersect-meets f.severities g.severities,
    scope_sets_intersect-meets f.scopes g.scopes,
    meets-takes Str_eq a.severity f.severities g.severities,
    meets-takes Scope_eq (scope_of a) f.scopes g.scopes,
  )),
)

contains_append : (x : Str) (a b : List Str) → contains x (a ++ b) ≡ (contains x a || contains x b)
unfolding any
contains_append x [] b = refl
contains_append x (y ∷ a) b = ground (arith, contains_append x a b)

contains-shared_from :
    (of seen ids : List Str) (x : Str)
    → contains x (shared_from of seen ids)
      ≡ (contains x ids && contains x of && not (contains x seen))
unfolding shared_from any
contains-shared_from of seen [] x = refl
contains-shared_from of seen (id ∷ ids) x = ground (
  arith,
  contains-shared_from of seen ids x,
  contains-shared_from of (id ∷ seen) ids x,
  str_eq_iff id x,
)

-- The channels of an overlap are those that some level of each of the two policies names.
pub contains-shared_channels :
    (p q : Policy) (id : Str)
    → contains id (shared_channels p q)
      ≡ (contains id (all_channels q.levels) && contains id (all_channels p.levels))
unfolding shared_channels any
contains-shared_channels p q id =
    ground (arith, contains-shared_from (all_channels p.levels) [] (all_channels q.levels) id)
