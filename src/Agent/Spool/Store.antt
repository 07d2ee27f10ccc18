-- ===== src/Agent/Spool/Store.antt =====
-- internal/agent/spool_store.go: the statements of the spool on lists of rows in the order of their sequence.
use maintenant.Base.{
  ℕ, zero, suc, ◌+◌, Bool, false, not, Option, none, some, List, [], ◌∷◌, ◌++◌, length, keep, take,
  ltb, leb, if◌then◌else◌,
}
use maintenant.Agent.Spool.{PendingEvent, Row, SpoolStore}

abbrev pub row_of : ℕ → PendingEvent → Row
row_of seq ev = record {
  seq = seq;
  event_id = ev.event_id;
  observed_at = ev.observed_at;
  payload = ev.payload;
  size_bytes = length ev.payload;
}

unfoldable pub append_events : List PendingEvent → SpoolStore → SpoolStore
append_events [] st = st
append_events (ev ∷ evs) st =
    append_events evs (record st { rows = st.rows ++ row_of st.next ev ∷ []; next = suc st.next })

unfoldable pub read_from : ℕ → ℕ → SpoolStore → List Row
unfolding keep take
read_from after limit st = take limit (keep (λ r. ltb after r.seq) st.rows)

abbrev pub delete_where : (Row → Bool) → SpoolStore → SpoolStore
delete_where test st = record st { rows = keep (λ r. not (test r)) st.rows }

abbrev pub is_up_to : ℕ → Row → Bool
is_up_to seq r = leb r.seq seq

abbrev pub is_older_than : ℕ → Row → Bool
is_older_than cutoff r = ltb r.observed_at cutoff

-- MAX(seq) over the first rows whose running sum before them is below the target.
unfoldable pub last_to_free : ℕ → ℕ → ℕ → List Row → Option ℕ
last_to_free zero target running rows = none
last_to_free (suc n) target running [] = none
last_to_free (suc n) target running (r ∷ rs) =
    let later = last_to_free n target (running + r.size_bytes) rs in
    if ltb running target then some (elim later [ none ↦ r.seq | some seq ↦ seq ]) else none

abbrev pub drop_scan_limit : ℕ
drop_scan_limit = 50000

-- The rows that DELETE FROM spool_events WHERE seq <= (...) matches.
abbrev pub is_to_free : Option ℕ → Row → Bool
is_to_free none r = false
is_to_free (some seq) r = leb r.seq seq

unfoldable pub delete_oldest_bytes : ℕ → SpoolStore → SpoolStore
unfolding keep last_to_free
delete_oldest_bytes target st =
    delete_where (is_to_free (last_to_free drop_scan_limit target 0 st.rows)) st

abbrev pub add_dropped : ℕ → SpoolStore → SpoolStore
add_dropped n st = record st { dropped_since_connect = st.dropped_since_connect + n }
