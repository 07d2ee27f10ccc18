-- ===== src/Agent/Spool/Acks.antt =====
-- What an acknowledgement deletes.
use maintenant.Base.{
  ℕ, some, ◌≤◌, ◌<◌, ◌≡◌, ◌⊎◌, subst, inl, inr, Bool, true, false, ◌||◌, List, [], ◌∷◌, arith, keep,
  ltb, ltb→lt, leb→le, ◌==◌, All, Bool-cases,
}
use maintenant.Agent.Spool.{
  SpoolConfig, AgentEvent, PendingEvent, Row, SpoolStore, Out, spooled, unreadable, direct, Spool,
}
use maintenant.Agent.Spool.Store.{row_of, is_up_to}
use maintenant.Agent.Spool.Control.{new_spool}
use maintenant.Agent.Spool.Rows.{
  Rising, Rising-bounds, All-keep, All-append, All-imp, All-and, All-Rising, All-keep_of, Covers,
}
use maintenant.Agent.Spool.Steps.{Step, run}
use maintenant.Agent.Spool.Frame.{Core, core, Holds, split_store}
use maintenant.Agent.Spool.Frame.Calls.{AllHonest, Holds-run}
use maintenant.Agent.Spool.Ledger.{was_sent, deleted, appended, told, IsLedger}
use maintenant.Agent.Spool.Ledger.Drains.{IsKept, IsKept-IsStable}

-- The row was sent, or was found unreadable, by some drain.
unfoldable pub was_told : ℕ → List Out → Bool
was_told seq [] = false
was_told seq (spooled g q evt ∷ out) = q == seq || was_told seq out
was_told seq (unreadable g q ∷ out) = q == seq || was_told seq out
was_told seq (direct evt ∷ out) = was_told seq out

was_told-cons :
    (o : Out) (seq : ℕ) (out : List Out) → was_told seq out ≡ true → was_told seq (o ∷ out) ≡ true
unfolding was_told
was_told-cons (spooled g q evt) seq out h = ground arith
was_told-cons (unreadable g q) seq out h = ground arith
was_told-cons (direct evt) seq out h = h

was_told-was_sent :
    (gen seq : ℕ) (out : List Out) → was_sent gen seq out ≡ true → was_told seq out ≡ true
unfolding was_told was_sent
was_told-was_sent gen seq [] h = h
was_told-was_sent gen seq (spooled g q evt ∷ out) h = ground (arith, was_told-was_sent gen seq out)
was_told-was_sent gen seq (unreadable g q ∷ out) h = ground (arith, was_told-was_sent gen seq out)
was_told-was_sent gen seq (direct evt ∷ out) h = was_told-was_sent gen seq out h

-- Every row up to a sequence was told of, and the next row lies above it.
abbrev Done : ℕ → Core → Type 0
Done n c = (n < c.next) × All (λ r. r.seq ≤ n → was_told r.seq c.out ≡ true) c.rows

-- So far as a row was told of or acknowledged, and up to the cursor, no row was left out.
abbrev Claim : Core → Type 0
Claim c = Done c.ack c × Done c.send c × ((n : ℕ) → was_told n c.out ≡ true → Done n c)

abbrev Read : ℕ → ℕ → Core → Type 0
Read gen after c = Done after c

-- A server acknowledges a row that it was sent.
abbrev pub Honest : ℕ → List Out → Type 0
Honest seq out = was_told seq out ≡ true

Done-deletes : (test : Row → Bool) (n : ℕ) (c : Core) → Done n c → Done n (deleted test c)
Done-deletes test n c h = (h.0, All-keep _ _ c.rows h.1)

Done-appends : (ev : PendingEvent) (n : ℕ) (c : Core) → Done n c → Done n (appended ev c)
Done-appends ev n c h = (
  omega (arith, h.0),
  All-append _ c.rows (row_of c.next ev) h.1 (λ le. absurd (omega (arith, h.0))),
)

Done-tells : (o : Out) (n : ℕ) (c : Core) → Done n c → Done n (told o c)
Done-tells o n c h = (h.0, All-imp c.rows (λ r f le. was_told-cons o r.seq c.out (f le)) h.1)

-- The rows up to the first of a batch are those up to the cursor and that row.
Done-first :
    (after : ℕ) (r : Row) (rest : List Row) (c : Core)
    → was_told r.seq c.out ≡ true
    → Covers after c.next (r ∷ rest) c.rows
    → Done after c
    → Done r.seq c
Done-first after r rest c was cover h = (
  cover.1,
  All-and c.rows
      (λ q f g behind. elim (Bool-cases (ltb after q.seq)) [
        | inl lt ↦
            let same : r.seq ≡ q.seq = omega (arith, g (ltb→lt after q.seq lt)) in
            subst (λ (n : ℕ). was_told n c.out ≡ true) same was
        | inr le ↦ f (ground arith)
      ])
      h.1 cover.2,
)

-- What was told of after one more output is the row of the output, or was told of before.
was_told-split :
    (o : Out) (gen seq n : ℕ) (out : List Out)
    → (o ≡ unreadable gen seq) ⊎ ((evt : AgentEvent) × (o ≡ spooled gen seq evt))
    → was_told n (o ∷ out) ≡ true
    → (seq ≡ n) ⊎ (was_told n out ≡ true)
unfolding was_told
was_told-split (spooled g q evt) gen seq n out (inl e) h = cc
was_told-split (spooled g q evt) gen seq n out (inr (evt', e)) h = elim (Bool-cases (q == n)) [
  | inl same ↦ inl (ground arith)
  | inr other ↦ inr (ground arith)
]
was_told-split (unreadable g q) gen seq n out (inl e) h = elim (Bool-cases (q == n)) [
  | inl same ↦ inl (ground arith)
  | inr other ↦ inr (ground arith)
]
was_told-split (unreadable g q) gen seq n out (inr (evt', e)) h = cc
was_told-split (direct evt) gen seq n out (inl e) h = cc
was_told-split (direct evt) gen seq n out (inr (evt', e)) h = cc

was_told_self :
    (o : Out) (gen seq : ℕ) (out : List Out)
    → (o ≡ unreadable gen seq) ⊎ ((evt : AgentEvent) × (o ≡ spooled gen seq evt))
    → was_told seq (o ∷ out) ≡ true
unfolding was_told
was_told_self o gen seq out (inl e) = rw e (ground arith)
was_told_self o gen seq out (inr (evt, e)) = rw e (ground arith)

tells_row :
    (o : Out) (gen after : ℕ) (r : Row) (rest : List Row) (c : Core)
    → (o ≡ unreadable gen r.seq) ⊎ ((evt : AgentEvent) × (o ≡ spooled gen r.seq evt))
    → Done after c
    → Covers after c.next (r ∷ rest) c.rows
    → Claim c
    → Claim (told o c)
tells_row o gen after r rest c e read_it cover h = (
  Done-tells o c.ack c h.0,
  Done-tells o c.send c h.1,
  λ n was. elim (was_told-split o gen r.seq n c.out e was) [
    | inl same ↦
        subst (λ (m : ℕ). Done m (told o c)) same
          (Done-first after r rest (told o c) (was_told_self o gen r.seq c.out e) cover
            (Done-tells o after c read_it))
    | inr before ↦ Done-tells o n c (h.2 n before)
  ],
)

ledger : IsLedger Claim Read Honest
unfolding was_told
ledger = record {
  deletes = λ test c. (
    λ h. (
      Done-deletes test c.ack c h.0,
      Done-deletes test c.send c h.1,
      λ n was. Done-deletes test n c (h.2 n was),
    ),
    λ gen after. Done-deletes test after c,
  );
  appends = λ ev c. (
    λ h. (
      Done-appends ev c.ack c h.0,
      Done-appends ev c.send c h.1,
      λ n was. Done-appends ev n c (h.2 n was),
    ),
    λ gen after. Done-appends ev after c,
  );
  rewinds = λ c. ((λ h. (h.0, h.0, h.2)), λ gen after h. h);
  tells_direct = λ evt c h. (
    Done-tells (direct evt) c.ack c h.0,
    Done-tells (direct evt) c.send c h.1,
    λ n was. Done-tells (direct evt) n c (h.2 n was),
  );
  tells_row = tells_row;
  tells_read = λ o gen after c. Done-tells o after c;
  acks = λ seq c lt o h. (h.2 seq o, h.1, h.2);
  acks_read = λ seq gen after c lt h. h;
  looks = λ c h. h.1;
  advances = λ gen after r rest c e read_it was cover h.
      let d = Done-first after r rest c (was_told-was_sent gen r.seq c.out was) cover read_it in
      ((h.0, d, h.2), d);
}

up_to_told :
    (seq : ℕ) (s : Spool)
    → was_told seq s.out ≡ true
    → Holds (IsKept Claim Read Honest ledger) s
    → Holds (λ d c. All (λ r. was_told r.seq c.out ≡ true) (keep (is_up_to seq) c.rows)) s
up_to_told seq =
    split_store
      (λ s.
        was_told seq s.out ≡ true
        → Holds (IsKept Claim Read Honest ledger) s
        → Holds (λ d c. All (λ r. was_told r.seq c.out ≡ true) (keep (is_up_to seq) c.rows)) s)
      (λ s was h. tt)
      (λ st s was h.
        All-keep_of _ (is_up_to seq) st.rows
          (All-imp st.rows (λ r f le. f (leb→le r.seq seq le)) (h.1.2 seq was).1))

-- If a spool starts on a store whose sequences are positive and rise, and each row that is acknowledged was
-- sent before, or was found unreadable, then after any run of its calls with any failures, for each sequence
-- that was sent or unreadable so far, so was every row that is stored at or below it: its acknowledgement
-- deletes no row that was never sent.
pub told-run :
    (cfg : SpoolConfig) (st : SpoolStore) (xs : List Step) (seq : ℕ)
    → Rising 1 st.next st.rows
    → AllHonest Honest xs (new_spool cfg (some st))
    → was_told seq (run xs (new_spool cfg (some st))).out ≡ true
    → Holds
        (λ d c. All (λ r. was_told r.seq c.out ≡ true) (keep (is_up_to seq) c.rows))
        (run xs (new_spool cfg (some st)))
told-run cfg st xs seq rising honest was =
    let s = new_spool cfg (some st) in
    let K = IsKept Claim Read Honest ledger in
    let none_behind : Done 0 (core st s) = (
      Rising-bounds 1 st.next st.rows rising,
      All-imp st.rows (λ r b le. absurd (omega (arith, b.0))) (All-Rising 1 st.next st.rows rising),
    ) in
    let kept : Holds K (run xs s) =
      Holds-run K Honest (IsKept-IsStable Claim Read Honest ledger) xs s honest
        (rising, (none_behind, none_behind, λ n no. unfold was_told in cc), tt) in
    up_to_told seq (run xs s) was kept
