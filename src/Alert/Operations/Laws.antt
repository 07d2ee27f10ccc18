-- ===== src/Alert/Operations/Laws.antt =====
-- Removal of an entity, acknowledgment and reload.
use maintenant.Base.{
  ℕ, ◌≡◌, ◌↔◌, refl, ap, ◌∙◌, true, not, Option, none, some, List, [], ◌∷◌, arith, Str, str_eq_iff,
  All, if◌then◌else◌,
}
use maintenant.Base.Map.{Map, lookup, insert, lookup-insert, lookup-keep}
use maintenant.Alert.Model.{Alert, ActiveAlertKey, Key_eq, key_eq_iff, alert_key, status_active}
use maintenant.Alert.Deps.{Deps, Engine}
use maintenant.Alert.Engine.{emit}
use maintenant.Alert.Engine.Invariant.{IsTracked}
use maintenant.Alert.Operations.{
  AckError, ok, err, is_for, acknowledge_loaded, acknowledge, resolve_one, resolve_each, to_resolve,
  resolve_by_entity, track, reloaded, reload_active_alerts,
}

module _ (d : Deps) where
  active-resolve_each :
      (now : ℕ) (l : List Alert) (s : Engine d.Db)
      → (resolve_each d now l s).active_alerts ≡ s.active_alerts
  unfolding resolve_each resolve_one emit
  active-resolve_each now [] s = refl
  active-resolve_each now (a ∷ l) s =
      active-resolve_each now l (resolve_one d now s a) ∙ ground arith

  -- Whatever the store answers, removing an entity drops the active alerts of that entity and keeps
  -- every other one.
  pub lookup-resolve_by_entity :
      (s : Engine d.Db) (type id : Str) (now : ℕ) (k : ActiveAlertKey)
      → lookup k (resolve_by_entity d s type id now).active_alerts
        ≡ (if is_for type id k then none else lookup k s.active_alerts)
  unfolding resolve_by_entity
  lookup-resolve_by_entity s type id now k =
      ap (lookup k) (active-resolve_each now (to_resolve d type id s.active_alerts) _)
      ∙ lookup-keep (λ j. not (is_for type id j)) k s.active_alerts
      ∙ ground arith

  -- What an acknowledgment asks of the answer of the store for the alert's id.
  abbrev pub Acknowledgeable : Engine d.Db → Str → Str → ℕ → Alert → Alert → Type 0
  Acknowledgeable s id by at a a' =
      (a.status ≡ status_active)
      × (a.acknowledged_at ≡ none)
      × ((d.acknowledge_alert s.db id by at).1 ≡ some true)
      × (a' ≡ record a { acknowledged_at = some at; acknowledged_by = by })

  acknowledge_loaded_ok :
      (s : Engine d.Db) (id by : Str) (at : ℕ) (a' : Alert) (o : Option (Option Alert))
      → (acknowledge_loaded d s id by at o).1 ≡ ok a'
      → (a : Alert) × (o ≡ some (some a)) × Acknowledgeable s id by at a a'
  unfolding acknowledge_loaded
  acknowledge_loaded_ok s id by at a' none h = cc
  acknowledge_loaded_ok s id by at a' (some none) h = cc
  acknowledge_loaded_ok s id by at a' (some (some a)) h =
      (a, refl, ground (arith, str_eq_iff a.status status_active))

  ok_acknowledge_loaded :
      (s : Engine d.Db) (id by : Str) (at : ℕ) (a a' : Alert)
      → Acknowledgeable s id by at a a'
      → (acknowledge_loaded d s id by at (some (some a))).1 ≡ ok a'
  unfolding acknowledge_loaded
  ok_acknowledge_loaded s id by at a a' h = ground (arith, str_eq_iff a.status status_active)

  -- An acknowledgment succeeds exactly when the store has the alert, active and not acknowledged, and
  -- then acknowledges it; it returns the alert with the time and the author.
  pub acknowledge_iff :
      (s : Engine d.Db) (id by : Str) (at : ℕ) (a' : Alert)
      → ((acknowledge d s id by at).1 ≡ ok a') ↔ (
          (a : Alert) × (d.get_alert s.db id ≡ some (some a))
          × (a.status ≡ status_active)
          × (a.acknowledged_at ≡ none)
          × ((d.acknowledge_alert s.db id by at).1 ≡ some true)
          × (a' ≡ record a { acknowledged_at = some at; acknowledged_by = by }))
  unfolding acknowledge
  acknowledge_iff s id by at a' = (
    λ h.
        let (a, e, p) = acknowledge_loaded_ok s id by at a' (d.get_alert s.db id) h in
        (a, e, p.0, p.1, p.2, p.3),
    λ (a, e, p, q, r, t).
        rw (e, acknowledge_loaded) (ok_acknowledge_loaded s id by at a a' (p, q, r, t)),
  )

  -- A refused acknowledgment has no effect but what the store did: the map and the effects stay.
  pub refused_acknowledgment :
      (s : Engine d.Db) (id by : Str) (at : ℕ) (e : AckError)
      → (acknowledge d s id by at).1 ≡ err e
      → ((acknowledge d s id by at).0.active_alerts ≡ s.active_alerts)
        × ((acknowledge d s id by at).0.out ≡ s.out)
  unfolding acknowledge acknowledge_loaded
  refused_acknowledgment s id by at e h = ground arith

  track-IsTracked :
      (l : List Alert) (m : Map ActiveAlertKey Alert)
      → All (λ a. a.status ≡ status_active) l
      → IsTracked m
      → IsTracked (track d l m)
  unfolding track
  track-IsTracked [] m h t = t
  track-IsTracked (a ∷ l) m h t = track-IsTracked l (insert (alert_key a) a m) h.1 λ k b e.
      ground (arith, lookup-insert (alert_key a) k a m, key_eq_iff (alert_key a) k, t k b, h.0)

  -- If the store lists alerts that are active, and the entries of the map are active and under their
  -- own keys, then so are those of the map after a reload.
  pub reload_active_alerts-IsTracked :
      (s : Engine d.Db) (l : List Alert)
      → d.list_active_alerts s.db ≡ some l
      → All (λ a. a.status ≡ status_active) l
      → IsTracked s.active_alerts
      → IsTracked (reload_active_alerts d s).0.active_alerts
  unfolding reload_active_alerts
  reload_active_alerts-IsTracked s l e h t =
      rw (e, reloaded) (track-IsTracked l s.active_alerts h t)
