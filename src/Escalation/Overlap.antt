-- ===== src/Escalation/Overlap.antt =====
-- internal/commercial/escalation/overlap.go. The maps of channels are lists of their keys.
pub mod Alerts
use maintenant.Base.{
  Bool, true, false, not, ◌&&◌, ◌||◌, Option, none, some, List, [], ◌∷◌, ◌++◌, Str, str_eq, lit,
  is_empty, any, if◌then◌else◌,
}
use maintenant.Escalation.Model.{Scope, Filters, Level, Policy}
use maintenant.Escalation.Runner.{contains, none_of}

unfoldable pub sets_intersect : List Str → List Str → Bool
unfolding any
sets_intersect a b = none_of a || none_of b || any (λ x. contains x b) a

abbrev pub scope_eq : Scope → Scope → Bool
scope_eq x y = str_eq x.kind y.kind && str_eq x.ref_id y.ref_id

unfoldable pub scope_sets_intersect : List Scope → List Scope → Bool
unfolding any
scope_sets_intersect a b = none_of a || none_of b || any (λ x. any (scope_eq x) b) a

unfoldable pub filters_intersect : Filters → Filters → Bool
unfolding sets_intersect scope_sets_intersect
filters_intersect a b =
    sets_intersect a.severities b.severities && scope_sets_intersect a.scopes b.scopes

unfoldable pub all_channels : List Level → List Str
all_channels [] = []
all_channels (l ∷ ls) = l.channel_ids ++ all_channels ls

-- The two inner loops of the source are one pass over the channels of all levels.
unfoldable pub shared_from : List Str → List Str → List Str → List Str
unfolding any
shared_from of seen [] = []
shared_from of seen (id ∷ ids) =
    if contains id of && not (contains id seen)
    then id ∷ shared_from of (id ∷ seen) ids
    else shared_from of seen ids

unfoldable pub shared_channels : Policy → Policy → List Str
unfolding shared_from all_channels
shared_channels a b = shared_from (all_channels a.levels) [] (all_channels b.levels)

pub record OverlapWarning : Type 0 where
  pub policy_id : Str
  pub policy_name : Str
  pub shared : List Str
  pub filter_intersection : Str

-- strings.Join of the parts that the source gathers: the first is always there.
unfoldable pub filter_intersection_description : Filters → Filters → Str
filter_intersection_description a b =
    (if not (none_of a.severities) && not (none_of b.severities)
      then lit "severities"
      else lit "all severities")
    ++ (if not (none_of a.scopes) || not (none_of b.scopes) then lit " + scopes" else [])

abbrev pub warning_of : Policy → Policy → OverlapWarning
unfolding shared_channels filter_intersection_description
warning_of candidate p = record {
  policy_id = p.id;
  policy_name = p.name;
  shared = shared_channels candidate p;
  filter_intersection =
      unfold filter_intersection_description in
      filter_intersection_description candidate.filters p.filters;
}

abbrev pub is_overlap : Policy → Policy → Bool
unfolding filters_intersect shared_channels
is_overlap candidate p =
    not (not (is_empty candidate.id) && str_eq p.id candidate.id)
    && (filters_intersect candidate.filters p.filters)
    && not (none_of (shared_channels candidate p))

unfoldable pub detect_overlap : Policy → List Policy → List OverlapWarning
unfolding shared_channels filters_intersect filter_intersection_description
detect_overlap candidate [] = []
detect_overlap candidate (p ∷ ps) =
    let rest = detect_overlap candidate ps in
    if is_overlap candidate p then warning_of candidate p ∷ rest else rest
