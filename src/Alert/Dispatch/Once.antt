-- ===== src/Alert/Dispatch/Once.antt =====
-- A dispatch reaches each channel that the triggers route to, once.
use maintenant.Base.{
  ℕ, suc, ◌+◌, ◌≡◌, refl, sym, ◌∙◌, inl, inr, Bool, true, false, not, ◌&&◌, ◌||◌, Option, none,
  some, List, [], ◌∷◌, ◌++◌, arith, Str, str_eq, str_eq_iff, any, if◌then◌else◌, Bool-cases,
}
use maintenant.Alert.Model.{Alert, AlertTrigger, NotificationChannel}
use maintenant.Alert.Routing.{matches_trigger}
use maintenant.Alert.Deps.{
  Deps, Engine, Effect, broadcast, on_alert_created, on_alert_acknowledged, on_alert_resolved,
  enqueue, key_collision,
}
use maintenant.Alert.Dispatch.{
  seen, delivered, enqueue_delivery, reach, dispatch_channel, dispatch_channels, dispatch_triggers,
  dispatch_notifications,
}

-- How many notification jobs for the channel are among the effects.
abbrev pub jobs : Str → List Effect → ℕ
jobs id [] = 0
jobs id (enqueue _ ch a ∷ out) = if str_eq ch.id id then suc (jobs id out) else jobs id out
jobs id (broadcast t a ∷ out) = jobs id out
jobs id (on_alert_created a ∷ out) = jobs id out
jobs id (on_alert_acknowledged i b t ∷ out) = jobs id out
jobs id (on_alert_resolved i t ∷ out) = jobs id out
jobs id (key_collision k a b ∷ out) = jobs id out

abbrev pub is_enabled : Option (Option NotificationChannel) → Bool
is_enabled none = false
is_enabled (some none) = false
is_enabled (some (some ch)) = ch.enabled

-- The channels of the triggers that match, with repetitions.
abbrev pub routed : Alert → List AlertTrigger → List Str
routed a [] = []
routed a (t ∷ ts) = if matches_trigger t a then t.channel_ids ++ routed a ts else routed a ts

abbrev pub one : Bool → ℕ
one true = 1
one false = 0

-- What the dispatch relies on of the stores: a delivery row changes no channel, a channel is found
-- under its own id, and the row can be written.
pub record StoresChannels (d : Deps) : Type 0 where
  pub unchanged :
      (db : d.Db) (alert id other : Str)
      → d.get_channel (d.insert_delivery db alert id).0 other ≡ d.get_channel db other
  pub own_id :
      (db : d.Db) (id : Str) (ch : NotificationChannel)
      → d.get_channel db id ≡ some (some ch)
      → ch.id ≡ id
  pub written :
      (db : d.Db) (alert id : Str) → (n : Str) × ((d.insert_delivery db alert id).1 ≡ some n)

module _ (d : Deps) (stores : StoresChannels d) where
  jobs-delivered :
      (ch : NotificationChannel) (a : Alert) (i : Str) (s : Engine d.Db) (n : Option Str)
      → ((m : Str) × (n ≡ some m))
      → jobs i (delivered d ch a s n).out ≡ jobs i s.out + one (str_eq ch.id i)
  unfolding delivered
  jobs-delivered ch a i s none (m, e) = cc
  jobs-delivered ch a i s (some m) h = ground arith

  jobs-enqueue_delivery :
      (s : Engine d.Db) (ch : NotificationChannel) (a : Alert) (i : Str)
      → jobs i (enqueue_delivery d s ch a).out ≡ jobs i s.out + one (str_eq ch.id i)
  unfolding enqueue_delivery
  jobs-enqueue_delivery s ch a i =
      jobs-delivered ch a i (record s { db = (d.insert_delivery s.db a.id ch.id).0 })
        (d.insert_delivery s.db a.id ch.id).1 (stores.written s.db a.id ch.id)

  get_channel-delivered :
      (ch : NotificationChannel) (a : Alert) (i : Str) (s : Engine d.Db) (n : Option Str)
      → d.get_channel (delivered d ch a s n).db i ≡ d.get_channel s.db i
  unfolding delivered
  get_channel-delivered ch a i s none = refl
  get_channel-delivered ch a i s (some m) = refl

  get_channel-reach :
      (payload : Alert) (id i : Str) (s : Engine d.Db) (l : List Str)
      (o : Option (Option NotificationChannel))
      → d.get_channel (reach d payload id (s, l) o).0.db i ≡ d.get_channel s.db i
  unfolding reach enqueue_delivery
  get_channel-reach payload id i s l none = refl
  get_channel-reach payload id i s l (some none) = refl
  get_channel-reach payload id i s l (some (some ch)) = ground (
    arith,
    get_channel-delivered ch payload i
        (record s { db = (d.insert_delivery s.db payload.id ch.id).0 })
        (d.insert_delivery s.db payload.id ch.id).1,
    stores.unchanged s.db payload.id ch.id i,
  )

  get_channel-dispatch_channel :
      (payload : Alert) (id i : Str) (s : Engine d.Db) (l : List Str)
      → d.get_channel (dispatch_channel d payload id (s, l)).0.db i ≡ d.get_channel s.db i
  unfolding dispatch_channel
  get_channel-dispatch_channel payload id i s l =
      ground (arith, get_channel-reach payload id i s l (d.get_channel s.db id))

  jobs-reach :
      (payload : Alert) (id i : Str) (s : Engine d.Db) (l : List Str)
      (o : Option (Option NotificationChannel))
      → ((ch : NotificationChannel) → o ≡ some (some ch) → ch.id ≡ id)
      → jobs i (reach d payload id (s, l) o).0.out
        ≡ jobs i s.out + one (str_eq id i && is_enabled o)
  unfolding reach
  jobs-reach payload id i s l none h = ground arith
  jobs-reach payload id i s l (some none) h = ground arith
  jobs-reach payload id i s l (some (some ch)) h =
      ground (arith, jobs-enqueue_delivery s ch payload i, h ch refl)

  seen-reach :
      (payload : Alert) (id i : Str) (s : Engine d.Db) (l : List Str)
      (o : Option (Option NotificationChannel))
      → seen i (reach d payload id (s, l) o).1 ≡ (str_eq id i && is_enabled o || seen i l)
  unfolding reach any
  seen-reach payload id i s l none = ground arith
  seen-reach payload id i s l (some none) = ground arith
  seen-reach payload id i s l (some (some ch)) = ground arith

module _ (d : Deps) (stores : StoresChannels d)
    (look : Str → Option (Option NotificationChannel)) where
  abbrev Looks : Engine d.Db → Type 0
  Looks s = (id : Str) → d.get_channel s.db id ≡ look id

  -- The jobs for `i` that a range over the channels `ids` adds.
  abbrev due : Str → List Str → List Str → ℕ
  due i l ids = one (not (seen i l) && any (λ id. str_eq id i) ids && is_enabled (look i))

  jobs-dispatch_channel :
      (payload : Alert) (id i : Str) (s : Engine d.Db) (l : List Str)
      → Looks s
      → jobs i (dispatch_channel d payload id (s, l)).0.out
        ≡ jobs i s.out + one (not (seen i l) && str_eq id i && is_enabled (look i))
  unfolding dispatch_channel
  jobs-dispatch_channel payload id i s l h = ground (
    arith,
    jobs-reach d stores payload id i s l (d.get_channel s.db id) (stores.own_id s.db id),
    h id,
    str_eq_iff id i,
  )

  seen-dispatch_channel :
      (payload : Alert) (id i : Str) (s : Engine d.Db) (l : List Str)
      → Looks s
      → seen i (dispatch_channel d payload id (s, l)).1
        ≡ (seen i l || str_eq id i && is_enabled (look i))
  unfolding dispatch_channel
  seen-dispatch_channel payload id i s l h =
      ground
        (arith, seen-reach d stores payload id i s l (d.get_channel s.db id), h id, str_eq_iff id i)

  jobs-dispatch_channels :
      (payload : Alert) (i : Str) (ids : List Str) (st : Engine d.Db × List Str)
      → Looks st.0
      → jobs i (dispatch_channels d payload ids st).0.out ≡ jobs i st.0.out + due i st.1 ids
  unfolding dispatch_channels any
  jobs-dispatch_channels payload i [] st h = ground arith
  jobs-dispatch_channels payload i (id ∷ ids) (s, l) h = ground (
    arith,
    jobs-dispatch_channels payload i ids (dispatch_channel d payload id (s, l))
        (λ x. get_channel-dispatch_channel d stores payload id x s l ∙ h x),
    jobs-dispatch_channel payload id i s l h,
    seen-dispatch_channel payload id i s l h,
  )

module _ (d : Deps) where
  dispatch_channels-append :
      (payload : Alert) (xs ys : List Str) (st : Engine d.Db × List Str)
      → dispatch_channels d payload (xs ++ ys) st
        ≡ dispatch_channels d payload ys (dispatch_channels d payload xs st)
  unfolding dispatch_channels
  dispatch_channels-append payload [] ys st = refl
  dispatch_channels-append payload (x ∷ xs) ys st =
      dispatch_channels-append payload xs ys (dispatch_channel d payload x st)

  dispatch_triggers-routed :
      (route payload : Alert) (ts : List AlertTrigger) (st : Engine d.Db × List Str)
      → dispatch_triggers d route payload ts st ≡ dispatch_channels d payload (routed route ts) st
  unfolding dispatch_triggers
  dispatch_triggers-routed route payload [] st = unfold dispatch_channels in refl
  dispatch_triggers-routed route payload (t ∷ ts) st = elim (Bool-cases (matches_trigger t route)) [
    | inl e ↦ rw e (
        dispatch_triggers-routed route payload ts (dispatch_channels d payload t.channel_ids st)
        ∙ sym (dispatch_channels-append payload t.channel_ids (routed route ts) st))
    | inr e ↦ rw e (dispatch_triggers-routed route payload ts st)
  ]

-- If a delivery row can be written and changes no channel, and a channel is found under its own id, then
-- a dispatch adds one job for a channel that is enabled and that some matching trigger names, however
-- many name it, and none for another channel, nor any without a notifier.
pub jobs-dispatch_notifications :
    (d : Deps)
    → StoresChannels d
    → (s : Engine d.Db) (route payload : Alert) (id : Str)
    → jobs id (dispatch_notifications d s route payload).out
      ≡ jobs id s.out
        + one (
            d.has_notifier
            && any (λ other. str_eq other id) (routed route (d.list_enabled_triggers s.db))
            && is_enabled (d.get_channel s.db id))
unfolding dispatch_notifications any
jobs-dispatch_notifications d stores s route payload id = ground (
  arith,
  dispatch_triggers-routed d route payload (d.list_enabled_triggers s.db) (s, []),
  jobs-dispatch_channels d stores (d.get_channel s.db) payload id
      (routed route (d.list_enabled_triggers s.db)) (s, []) (λ x. refl),
)
