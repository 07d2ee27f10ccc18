-- ===== src/Agent/Spool/Rows.antt =====
-- Rows in the order of their sequence, and batches that cover the rows after a cursor.
use maintenant.Base.{
  ℕ, zero, suc, ◌≤◌, ◌<◌, ◌≡◌, refl, inl, inr, Bool, true, List, [], ◌∷◌, ◌++◌, arith, keep, take,
  ltb, All, Bool-cases,
}
use maintenant.Agent.Spool.{PendingEvent, Row, SpoolStore}
use maintenant.Agent.Spool.Store.{row_of, read_from}

-- Every sequence is at least `low` and below `high`, and they rise.
abbrev pub Rising : ℕ → ℕ → List Row → Type 0
Rising low high [] = low ≤ high
Rising low high (r ∷ rs) = (low ≤ r.seq) × Rising (suc r.seq) high rs

Rising-weaken :
    (low low' high : ℕ) (rs : List Row) → low' ≤ low → Rising low high rs → Rising low' high rs
Rising-weaken low low' high [] h k = omega arith
Rising-weaken low low' high (r ∷ rs) h k = (omega (arith, k.0), k.1)

pub Rising-bounds : (low high : ℕ) (rs : List Row) → Rising low high rs → low ≤ high
Rising-bounds low high [] h = h
Rising-bounds low high (r ∷ rs) h = omega (arith, h.0, Rising-bounds (suc r.seq) high rs h.1)

pub Rising-keep :
    (p : Row → Bool) (low high : ℕ) (rs : List Row)
    → Rising low high rs
    → Rising low high (keep p rs)
unfolding keep
Rising-keep p low high [] h = h
Rising-keep p low high (r ∷ rs) h = elim (Bool-cases (p r)) [
  | inl e ↦ rw e (h.0, Rising-keep p (suc r.seq) high rs h.1)
  | inr e ↦ rw e (
      Rising-weaken (suc r.seq) low high (keep p rs) (omega (arith, h.0))
        (Rising-keep p (suc r.seq) high rs h.1))
]

pub Rising-append :
    (low high : ℕ) (ev : PendingEvent) (rs : List Row)
    → Rising low high rs
    → Rising low (suc high) (rs ++ row_of high ev ∷ [])
Rising-append low high ev [] h = (h, omega arith)
Rising-append low high ev (r ∷ rs) h = (h.0, Rising-append (suc r.seq) high ev rs h.1)

pub All-keep : (P : Row → Type 0) (p : Row → Bool) (rs : List Row) → All P rs → All P (keep p rs)
unfolding keep
All-keep P p [] h = tt
All-keep P p (r ∷ rs) h = elim (Bool-cases (p r)) [
  | inl e ↦ rw e (h.0, All-keep P p rs h.1)
  | inr e ↦ rw e (All-keep P p rs h.1)
]

pub All-append :
    (P : Row → Type 0) (rs : List Row) (r : Row) → All P rs → P r → All P (rs ++ r ∷ [])
All-append P [] r h k = (k, tt)
All-append P (q ∷ rs) r h k = (h.0, All-append P rs r h.1 k)

pub All-imp : {P Q : Row → Type 0} (rs : List Row) → ((r : Row) → P r → Q r) → All P rs → All Q rs
All-imp [] f h = tt
All-imp (r ∷ rs) f h = (f r h.0, All-imp rs f h.1)

-- What a test implies holds of the elements that pass it.
pub All-keep_of :
    (P : Row → Type 0) (p : Row → Bool) (rs : List Row)
    → All (λ r. p r ≡ true → P r) rs
    → All P (keep p rs)
unfolding keep
All-keep_of P p [] h = tt
All-keep_of P p (r ∷ rs) h = elim (Bool-cases (p r)) [
  | inl e ↦ rw e (h.0 e, All-keep_of P p rs h.1)
  | inr e ↦ rw e (All-keep_of P p rs h.1)
]

pub All-and :
    {P Q R : Row → Type 0} (rs : List Row)
    → ((r : Row) → P r → Q r → R r)
    → All P rs
    → All Q rs
    → All R rs
All-and [] f h k = tt
All-and (r ∷ rs) f h k = (f r h.0 k.0, All-and rs f h.1 k.1)

pub All-always : {P : Row → Type 0} (rs : List Row) → ((r : Row) → P r) → All P rs
All-always [] f = tt
All-always (r ∷ rs) f = (f r, All-always rs f)

pub All-Rising :
    (low high : ℕ) (rs : List Row)
    → Rising low high rs
    → All (λ r. (low ≤ r.seq) × (r.seq < high)) rs
All-Rising low high [] h = tt
All-Rising low high (r ∷ rs) h = (
  (h.0, omega (arith, Rising-bounds (suc r.seq) high rs h.1)),
  All-imp rs (λ q b. (omega (arith, b.0, h.0), b.1)) (All-Rising (suc r.seq) high rs h.1),
)

-- The batch has every row after the cursor up to its own last, in their order.
abbrev pub Covers : ℕ → ℕ → List Row → List Row → Type 0
Covers after next [] rows = Unit
Covers after next (b ∷ bs) rows =
    (after < b.seq)
    × (b.seq < next)
    × All (λ r. after < r.seq → b.seq ≤ r.seq) rows
    × Covers b.seq next bs rows

pub Covers-keep :
    (p : Row → Bool) (after next : ℕ) (bs rows : List Row)
    → Covers after next bs rows
    → Covers after next bs (keep p rows)
Covers-keep p after next [] rows h = tt
Covers-keep p after next (b ∷ bs) rows h =
    (h.0, h.1, All-keep _ p rows h.2, Covers-keep p b.seq next bs rows h.3)

pub Covers-append :
    (after next : ℕ) (ev : PendingEvent) (bs rows : List Row)
    → Covers after next bs rows
    → Covers after (suc next) bs (rows ++ row_of next ev ∷ [])
Covers-append after next ev [] rows h = tt
Covers-append after next ev (b ∷ bs) rows h = (
  h.0,
  omega (arith, h.1),
  All-append _ rows (row_of next ev) h.2 (λ _. omega (arith, h.1)),
  Covers-append b.seq next ev bs rows h.3,
)

-- A row at the cursor or before it does not count.
Covers-cons :
    (after next : ℕ) (r : Row) (bs rows : List Row)
    → r.seq ≤ after
    → Covers after next bs rows
    → Covers after next bs (r ∷ rows)
Covers-cons after next r [] rows le h = tt
Covers-cons after next r (b ∷ bs) rows le h = (
  h.0,
  h.1,
  ((λ lt. absurd (omega arith)), h.2),
  Covers-cons b.seq next r bs rows (omega (arith, h.0)) h.3,
)

Covers-take :
    (n after next : ℕ) (rows : List Row)
    → Rising (suc after) next rows
    → Covers after next (take n rows) rows
unfolding take
Covers-take zero after next rows h = tt
Covers-take (suc n) after next [] h = tt
Covers-take (suc n) after next (r ∷ rs) h = (
  omega (arith, h.0),
  omega (arith, Rising-bounds (suc r.seq) next rs h.1),
  (
    (λ _. omega arith),
    All-imp rs (λ q b _. omega (arith, b.0)) (All-Rising (suc r.seq) next rs h.1),
  ),
  Covers-cons r.seq next r (take n rs) rs (omega arith) (Covers-take n r.seq next rs h.1),
)

keep_all :
    (after low high : ℕ) (rs : List Row)
    → after < low
    → Rising low high rs
    → keep (λ r. ltb after r.seq) rs ≡ rs
unfolding keep
keep_all after low high [] lt h = refl
keep_all after low high (r ∷ rs) lt h =
    ground (arith, h.0, keep_all after (suc r.seq) high rs (omega (arith, h.0)) h.1)

Covers-keep-take :
    (n after low next : ℕ) (rows : List Row)
    → Rising low next rows
    → Covers after next (take n (keep (λ r. ltb after r.seq) rows)) rows
unfolding keep
Covers-keep-take zero after low next [] h = unfold take in tt
Covers-keep-take (suc n) after low next [] h = unfold take in tt
Covers-keep-take n after low next (r ∷ rs) h = elim (Bool-cases (ltb after r.seq)) [
  | inl e ↦
      let lt : after < r.seq = ground arith in
      rw e (
        rw (keep_all after (suc r.seq) next rs (omega (arith, lt)) h.1)
          (Covers-take n after next (r ∷ rs) (omega (arith, lt), h.1)))
  | inr e ↦ rw e (
      Covers-cons after next r (take n (keep (λ r. ltb after r.seq) rs)) rs (ground arith)
        (Covers-keep-take n after (suc r.seq) next rs h.1))
]

pub Covers-read_from :
    (n after : ℕ) (st : SpoolStore)
    → Rising 1 st.next st.rows
    → Covers after st.next (read_from after n st) st.rows
unfolding read_from
Covers-read_from n after st h = Covers-keep-take n after 1 st.next st.rows h
