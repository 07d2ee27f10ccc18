-- ===== src/Alert/Engine/Severity.antt =====
-- The severity of an active alert over a run of events.
use Prim.Native.Nat.{max}
use maintenant.Base.{
  ℕ, ◌≡◌, refl, ◌∙◌, ◌≢◌, inl, inr, true, some, List, [], ◌∷◌, arith, All, if◌then◌else◌,
  Bool-cases, ltb,
}
use maintenant.Base.Map.{lookup}
use maintenant.Alert.Model.{Event, Alert, ActiveAlertKey, Key_eq, key_eq_iff, key_eq, event_key}
use maintenant.Alert.Routing.{severity_rank}
use maintenant.Alert.Deps.{Deps, Engine}
use maintenant.Alert.Engine.{process_event, process_events}
use maintenant.Alert.Engine.Active.{escalated, escalated_keeps}
use maintenant.Alert.Engine.Invariant.{
  IsTracked, next, next_firing, lookup-process_event, process_event-IsTracked,
}

module _ (d : Deps) where
  -- The greatest rank among `r` and the events of the key.
  abbrev pub peak : ActiveAlertKey → ℕ → List (Event d.Details) → ℕ
  peak k r [] = r
  peak k r (evt ∷ evts) =
      peak k (if key_eq (event_key evt) k then max r (severity_rank evt.severity) else r) evts

  abbrev pub NoRecovery : ActiveAlertKey → List (Event d.Details) → Type 0
  NoRecovery k = All (λ evt. evt.is_recover ≡ true → event_key evt ≢ k)

  severity-process_event :
      (s : Engine d.Db) (evt : Event d.Details) (k : ActiveAlertKey) (a : Alert)
      → IsTracked s.active_alerts
      → (evt.is_recover ≡ true → event_key evt ≢ k)
      → lookup k s.active_alerts ≡ some a
      → (b : Alert) × (lookup k (process_event d s evt).active_alerts ≡ some b)
        × (b.id ≡ a.id)
        × (severity_rank b.severity ≡ (
            if key_eq (event_key evt) k
            then max (severity_rank a.severity) (severity_rank evt.severity)
            else severity_rank a.severity))
  unfolding next next_firing
  severity-process_event s evt k a t n h = elim (Bool-cases (key_eq (event_key evt) k)) [
    | inl e ↦
        let same = (key_eq_iff (event_key evt) k).0 e in
        let before : lookup (event_key evt) s.active_alerts ≡ some a = rw same h in
        (
          if ltb (severity_rank a.severity) (severity_rank evt.severity)
              then escalated d s.db a evt
              else a,
          ground (arith, lookup-process_event d s evt k t, before, n),
          ground (arith, escalated_keeps d s.db a evt),
          ground (arith, escalated_keeps d s.db a evt),
        )
    | inr e ↦ (a, ground (arith, lookup-process_event d s evt k t), refl, ground arith)
  ]

  -- In a map whose entries are active and under their own keys, the alert of a key stays while no
  -- recovery for the key arrives, under one id, and its severity is the greatest of its own and of
  -- those of the events for the key.
  pub severity-process_events :
      (evts : List (Event d.Details)) (s : Engine d.Db) (k : ActiveAlertKey) (a : Alert)
      → IsTracked s.active_alerts
      → NoRecovery k evts
      → lookup k s.active_alerts ≡ some a
      → (b : Alert) × (lookup k (process_events d s evts).active_alerts ≡ some b)
        × (b.id ≡ a.id)
        × (severity_rank b.severity ≡ peak k (severity_rank a.severity) evts)
  unfolding process_events
  severity-process_events [] s k a t n h = (a, h, refl, refl)
  severity-process_events (evt ∷ evts) s k a t n h =
      let (b, hb, same, r) = severity-process_event s evt k a t n.0 h in
      let (c, hc, same', r') =
        severity-process_events evts (process_event d s evt) k b (process_event-IsTracked d s evt t)
          n.1 hb in
      (c, hc, same' ∙ same, ground (arith, r, r'))
