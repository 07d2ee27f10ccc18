-- ===== src/Agent/Spool/Current.antt =====
-- What the cursor of the drain says of the rows behind it.
use maintenant.Base.{
  ℕ, some, ◌≤◌, ◌<◌, ◌≡◌, ◌⊎◌, refl, subst, inl, inr, true, List, [], ◌∷◌, arith, ltb, ltb→lt, All,
  Bool-cases,
}
use maintenant.Agent.Spool.{SpoolConfig, PendingEvent, Row, SpoolStore, Out, direct, Spool}
use maintenant.Agent.Spool.Store.{row_of}
use maintenant.Agent.Spool.Control.{new_spool}
use maintenant.Agent.Spool.Rows.{
  Rising, Rising-bounds, All-keep, All-append, All-imp, All-and, All-always, Covers,
}
use maintenant.Agent.Spool.Steps.{Step, ack, take_step, run}
use maintenant.Agent.Spool.Frame.{Core, Holds, Holds-imp}
use maintenant.Agent.Spool.Frame.Calls.{AllHonest, Holds-run}
use maintenant.Agent.Spool.Ledger.{was_sent, was_sent-cons, appended, told, IsLedger}
use maintenant.Agent.Spool.Ledger.Drains.{IsKept, IsKept-IsStable}

-- Every row that is not acknowledged and lies behind the cursor was sent in this generation.
abbrev pub Resent : ℕ → ℕ → ℕ → List Out → List Row → Type 0
Resent gen acked cursor out =
    All (λ r. acked < r.seq → r.seq ≤ cursor → was_sent gen r.seq out ≡ true)

abbrev Claim : Core → Type 0
Claim c = ((c.send < c.next) ⊎ (c.send ≤ c.ack)) × Resent c.gen c.ack c.send c.out c.rows

-- A cursor that was read in this generation is the cursor.
abbrev Read : ℕ → ℕ → Core → Type 0
Read gen after c = (gen ≤ c.gen) × (gen ≡ c.gen → after ≡ c.send)

abbrev Honest : ℕ → List Out → Type 0
Honest seq out = Unit

appends : (ev : PendingEvent) (c : Core) → Claim c → Claim (appended ev c)
appends ev c h = (
  elim h.0 [ inl lt ↦ inl (omega arith) | inr le ↦ inr le ],
  All-append _ c.rows (row_of c.next ev) h.1
      λ past behind. absurd (elim h.0 [ inl lt ↦ omega arith | inr le ↦ omega arith ]),
)

tells : (o : Out) (c : Core) → Claim c → Claim (told o c)
tells o c h =
    (h.0, All-imp c.rows (λ r f past behind. was_sent-cons o c.gen r.seq c.out (f past behind)) h.1)

acks : (seq : ℕ) (c : Core) → c.ack < seq → Claim c → Claim (record c { ack = seq })
acks seq c lt h = (
  elim h.0 [ inl l ↦ inl l | inr le ↦ inr (omega arith) ],
  All-imp c.rows (λ r f past behind. f (omega arith) behind) h.1,
)

-- The rows between two cursors are the first of the batch.
advances :
    (gen after : ℕ) (r : Row) (rest : List Row) (c : Core)
    → gen ≡ c.gen
    → Read gen after c
    → was_sent gen r.seq c.out ≡ true
    → Covers after c.next (r ∷ rest) c.rows
    → Claim c
    → Claim (record c { send = r.seq }) × Read gen r.seq (record c { send = r.seq })
advances gen after r rest c e read_it was cover h = (
  (
    inl cover.1,
    All-and c.rows
        (λ q f g past behind. elim (Bool-cases (ltb c.send q.seq)) [
          | inl lt ↦
              let same : r.seq ≡ q.seq =
                omega
                  (arith, read_it.1 e, g (omega (arith, read_it.1 e, ltb→lt c.send q.seq lt))) in
              subst (λ (n : ℕ). was_sent n q.seq c.out ≡ true) e
                (subst (λ (n : ℕ). was_sent gen n c.out ≡ true) same was)
          | inr le ↦ f past (ground arith)
        ])
        h.1 cover.2,
  ),
  (read_it.0, λ _. refl),
)

ledger : IsLedger Claim Read Honest
ledger = record {
  deletes = λ test c. ((λ h. (h.0, All-keep _ _ c.rows h.1)), λ gen after h. h);
  appends = λ ev c. (appends ev c, λ gen after h. h);
  rewinds = λ c. (
    λ h. (inr (omega arith), All-always c.rows (λ r past behind. absurd (omega arith))),
    λ gen after h. (omega (arith, h.0), λ e. absurd (omega (arith, h.0))),
  );
  tells_direct = λ evt c h. tells (direct evt) c h;
  tells_row = λ o gen after r rest c e read_it cover h. tells o c h;
  tells_read = λ o gen after c h. h;
  acks = λ seq c lt o h. acks seq c lt h;
  acks_read = λ seq gen after c lt h. h;
  looks = λ c h. (omega arith, λ _. refl);
  advances = advances;
}

anything_goes : (xs : List Step) (s : Spool) → AllHonest Honest xs s
unfolding AllHonest
anything_goes [] s = tt
anything_goes (ack env seq ∷ xs) s = (tt, anything_goes xs (take_step (ack env seq) s))
anything_goes (x ∷ xs) s = anything_goes xs (take_step x s)

-- If a spool starts on a store whose sequences are positive and rise, then after any run of its calls, with any
-- failures and any acknowledgements, every stored row above the last acknowledgement that the cursor has
-- passed was sent, or was found unreadable, since the last rewind.
pub Resent-run :
    (cfg : SpoolConfig) (st : SpoolStore) (xs : List Step)
    → Rising 1 st.next st.rows
    → Holds (λ d c. Resent c.gen c.ack c.send c.out c.rows) (run xs (new_spool cfg (some st)))
Resent-run cfg st xs rising =
    let s = new_spool cfg (some st) in
    let K = IsKept Claim Read Honest ledger in
    let none_behind : Resent 0 0 0 [] st.rows =
      All-always st.rows (λ r past behind. absurd (omega arith)) in
    let kept : Holds K (run xs s) =
      Holds-run K Honest (IsKept-IsStable Claim Read Honest ledger) xs s (anything_goes xs s)
        (rising, (inl (Rising-bounds 1 st.next st.rows rising), none_behind), tt) in
    Holds-imp K (λ d c. Resent c.gen c.ack c.send c.out c.rows) (λ d c h. h.1.1) (run xs s) kept
