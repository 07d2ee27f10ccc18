-- ===== src/Posture.antt =====
-- internal/commercial/posture/scorer.go: the sub-scores of a container, their weighted sum, and the
-- threshold of the whole posture. Times, the cache of ten seconds and the readers are left out: a category
-- is given what its reader returns. `itoa` prints a number; the operations of floating-point numbers are
-- parameters. A number of days below 0 counts as 0.
pub mod Sum
pub mod Threshold
use maintenant.Base.{
  ℕ, suc, ◌+◌, ◌-◌, ◌*◌, Bool, true, false, not, ◌&&◌, ◌||◌, Option, none, some, List, [], ◌∷◌,
  ◌++◌, Str, str_eq, lit, ltb, leb, length, count, keep, is_empty, ◌==◌, if◌then◌else◌,
}

pub record Library : Type 0 where
  pub itoa : ℕ → Str

-- Conversion, product and quotient of float64, and math.Round where it is not negative.
pub record Floats (F : Type 0) : Type 0 where
  pub of_int : ℕ → F
  pub times : F → F → F
  pub over : F → F → F
  pub round : F → ℕ

pub record Category : Type 0 where
  pub name : Str
  pub weight : ℕ
  pub sub_score : ℕ
  pub applicable : Bool
  pub issue_count : ℕ
  pub summary : Str

-- Sub-score, issues and summary.
pub record Result : Type 0 where
  pub sub_score : ℕ
  pub issues : ℕ
  pub summary : Str

abbrev pub color_level : ℕ → Str
color_level score =
    if leb 80 score
    then lit "green"
    else if leb 60 score
    then lit "yellow"
    else if leb 40 score
    then lit "orange"
    else lit "red"

-- What the elements take off 100; the source's score may be negative before it is set to 0.
unfoldable pub penalties {ℓ} : {A : Type ℓ} → (A → ℕ) → List A → ℕ
penalties cost [] = 0
penalties cost (x ∷ xs) = cost x + penalties cost xs

abbrev pub remaining : ℕ → ℕ
remaining lost = 100 - lost

pub record CertificateInfo : Type 0 where
  pub status : Str
  pub days_remaining : ℕ

abbrev pub has_status : Str → CertificateInfo → Bool
unfolding str_eq
has_status status c = str_eq c.status status

unfoldable pub certificate_cost : CertificateInfo → ℕ
unfolding str_eq
certificate_cost c =
    if str_eq c.status (lit "expired")
    then 50
    else if str_eq c.status (lit "expiring")
    then (if leb c.days_remaining 7 then 30 else if leb c.days_remaining 14 then 20 else 10)
    else if str_eq c.status (lit "error")
    then 25
    else 0

unfoldable pub tls_summary : Library → ℕ → ℕ → ℕ → Str
tls_summary lib expired expiring errors =
    if ltb 0 expired && ltb 0 expiring
    then lib.itoa expired ++ lit " expired, " ++ lib.itoa expiring ++ lit " expiring"
    else if ltb 0 expired
    then lib.itoa expired ++ lit " expired"
    else if ltb 0 expiring
    then lib.itoa expiring ++ lit " expiring within 30 days"
    else if ltb 0 errors
    then lib.itoa errors ++ lit " check errors"
    else lit "all certificates valid"

unfoldable pub score_tls : Library → List CertificateInfo → Result
unfolding penalties certificate_cost count tls_summary has_status
score_tls lib cs =
    let expired = count (has_status (lit "expired")) cs in
    let expiring = count (has_status (lit "expiring")) cs in
    let errors = count (has_status (lit "error")) cs in
    record {
      sub_score = remaining (penalties certificate_cost cs);
      issues = expired + expiring + errors;
      summary = tls_summary lib expired expiring errors;
    }

abbrev pub is_word : Str → Str → Bool
unfolding str_eq
is_word word s = str_eq s word

unfoldable pub cve_cost : Str → ℕ
unfolding str_eq
cve_cost s =
    if str_eq s (lit "critical")
    then 30
    else if str_eq s (lit "high")
    then 15
    else if str_eq s (lit "medium")
    then 5
    else if str_eq s (lit "low")
    then 2
    else 0

-- A part of a summary, where there is something to count.
abbrev pub part : Library → ℕ → Str → List Str
part lib n word = if ltb 0 n then (lib.itoa n ++ lit " " ++ word) ∷ [] else []

unfoldable pub join_parts : List Str → Str
join_parts [] = []
join_parts (p ∷ []) = p
join_parts (p ∷ q ∷ ps) = p ++ lit ", " ++ join_parts (q ∷ ps)

abbrev pub acknowledged_note : Library → ℕ → Str
acknowledged_note lib n = if ltb 0 n then lit " (" ++ lib.itoa n ++ lit " acknowledged)" else []

-- The severities of the CVEs that are not acknowledged, and the number of those that are.
unfoldable pub score_cves : Library → List Str → ℕ → Result
unfolding penalties cve_cost count join_parts is_word
score_cves lib ss acknowledged =
    let found =
      part lib (count (is_word (lit "critical")) ss) (lit "critical")
      ++ part lib (count (is_word (lit "high")) ss) (lit "high")
      ++ part lib (count (is_word (lit "medium")) ss) (lit "medium")
      ++ part lib (count (is_word (lit "low")) ss) (lit "low") in
    record {
      sub_score = remaining (penalties cve_cost ss);
      issues = length ss;
      summary =
          (if ltb 0 (length found) then join_parts found else lit "no active CVEs")
          ++ acknowledged_note lib acknowledged;
    }

unfoldable pub update_cost : Str → ℕ
unfolding str_eq
update_cost s =
    if str_eq s (lit "major")
    then 25
    else if str_eq s (lit "minor")
    then 10
    else if str_eq s (lit "patch")
    then 5
    else 0

unfoldable pub score_updates : Library → List Str → Result
unfolding penalties update_cost count join_parts is_word
score_updates lib ss =
    let found =
      part lib (count (is_word (lit "major")) ss) (lit "major")
      ++ part lib (count (is_word (lit "minor")) ss) (lit "minor")
      ++ part lib (count (is_word (lit "patch")) ss) (lit "patch") in
    record {
      sub_score = remaining (penalties update_cost ss);
      issues = length ss;
      summary =
          if ltb 0 (length found)
          then join_parts found ++ lit " available"
          else lit "all images up to date";
    }

unfoldable pub insight_cost : Str → ℕ
unfolding str_eq
insight_cost s =
    if str_eq s (lit "critical")
    then 35
    else if str_eq s (lit "high")
    then 20
    else if str_eq s (lit "medium")
    then 10
    else 0

unfoldable pub score_network_exposure : Library → List Str → ℕ → Result
unfolding penalties insight_cost
score_network_exposure lib ss acknowledged = record {
  sub_score = remaining (penalties insight_cost ss);
  issues = length ss;
  summary =
      if ltb 0 (length ss)
      then lib.itoa (length ss) ++ lit " exposure issue(s)" ++ acknowledged_note lib acknowledged
      else if ltb 0 acknowledged
      then lit "no active issues (" ++ lib.itoa acknowledged ++ lit " acknowledged)"
      else lit "no exposure issues";
}

-- The age in days of the oldest publication, where one is known.
unfoldable pub score_image_age : {F : Type 0} → Floats F → Library → Option ℕ → Result
score_image_age fl lib none = record { sub_score = 50; issues = 0; summary = lit "age unknown" }
score_image_age fl lib (some days) =
    if ltb days 30
    then record { sub_score = 100; issues = 0; summary = lib.itoa days ++ lit " days old" }
    else record {
      sub_score =
          remaining
            (fl.round (fl.times (fl.over (fl.of_int (days - 30)) (fl.of_int 335)) (fl.of_int 100)));
      issues = if ltb 90 days then 1 else 0;
      summary = lib.itoa days ++ lit " days old";
    }

-- filterAcknowledgedCVEs and filterAcknowledgedInsights: what is acknowledged goes, unless the store fails.
unfoldable pub unacknowledged {ℓ} : {A : Type ℓ} → (A → Option Bool) → List A → List A
unfolding keep
unacknowledged acked xs = keep (λ x. elim (acked x) [ none ↦ true | some b ↦ not b ]) xs

-- The category with the lowest sub-score, the first of several.
-- Lower than the worst so far; the source starts with 101.
abbrev pub is_worse : Option Category → Category → Bool
is_worse none c = ltb c.sub_score 101
is_worse (some w) c = ltb c.sub_score w.sub_score

unfoldable pub worst : Option Category → List Category → Option Category
worst found [] = found
worst found (c ∷ cs) = worst (if c.applicable && is_worse found c then some c else found) cs

unfoldable pub top_issue_from_score : List Category → Str
unfolding worst
top_issue_from_score cs = elim (worst none cs) [ none ↦ [] | some c ↦ c.summary ]
