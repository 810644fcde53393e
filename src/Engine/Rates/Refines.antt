-- ===== src/Engine/Rates/Refines.antt =====
-- The trackers of one rule against a reference that prunes nothing: for every key, all timestamps
-- since its last alert.
use nids.Prelude.{
  unwrap_or, ℕ, ◌≡◌, refl, sym, subst, Bool, true, false, ◌&&◌, Option, none, some, List, [], ◌∷◌,
  ◌++◌, keep, ◌==◌, ==_self, if◌then◌else◌, arith,
}
use nids.Parser.Link.{String}
use nids.Parser.Layers.{ParsedPacket}
use nids.Engine.Text.{string_equals, string_equals_iff}
use nids.Engine.Float.{F64, IsIeee}
use nids.Engine.Config.{EvaluatedRule}
use nids.Engine.State.{Tracker, PendingAlert}
use nids.Engine.Rules.{resolve_tracking_key, max_conn_rate}
use nids.Engine.Rates.{is_fresh, max_rps, push, retain, forget, stamps_at, flood_alert}
use nids.Engine.Rates.Thresholds.{opens_connection, exceeded}
use nids.Engine.Rates.Lookup.{
  IsTracker, stamps_at-push, stamps_at-retain, stamps_at-forget, push-IsTracker, retain-IsTracker,
  forget-IsTracker,
}
use nids.Engine.Rates.Window.{Agrees, minute, push-Agrees, later-Agrees, prune-Agrees}
use nids.Engine.Expire.{expire_tracker}
use nids.Engine.Expire.Trackers.{expire_tracker-IsTracker, stamps_at-expire}

abbrev pub stamps : {F : Type 0} → ℕ → String → Tracker F → List F
stamps id k tracker = unwrap_or [] (stamps_at id k tracker)

module _ {F : Type 0} where
  -- One tracker after the key's timestamp was added, or not, and what is stale pruned.
  pub stamps_track :
      (added : Bool) (p : F → Bool) (id i : ℕ) (key k : String) (now : F) (tracker : Tracker F)
      → stamps i k (retain p id key (if added then push id key now tracker else tracker)) ≡ (
          if (id == i) && string_equals key k
          then keep p (if added then stamps id key tracker ++ (now ∷ []) else stamps id key tracker)
          else stamps i k tracker)
  stamps_track true p id i key k now tracker = ground (
    arith,
    ==_self id,
    stamps_at-retain p id i key k (push id key now tracker),
    stamps_at-push id i key k now tracker,
    stamps_at-push id id key key now tracker,
    string_equals_iff key key,
  )
  stamps_track false p id i key k now tracker =
      ground (arith, ==_self id, stamps_at-retain p id i key k tracker)

  pub stamps-forget :
      (id i : ℕ) (key k : String) (tracker : Tracker F)
      → IsTracker tracker
      → stamps i k (forget id key tracker)
        ≡ (if (id == i) && string_equals key k then [] else stamps i k tracker)
  stamps-forget id i key k tracker t = ground (arith, stamps_at-forget id i key k tracker t)

  pub track-IsTracker :
      (added : Bool) (p : F → Bool) (id : ℕ) (key : String) (now : F) (tracker : Tracker F)
      → IsTracker tracker
      → IsTracker (retain p id key (if added then push id key now tracker else tracker))
  track-IsTracker true p id key now tracker t =
      retain-IsTracker p id key (push id key now tracker) (push-IsTracker id key now tracker t)
  track-IsTracker false p id key now tracker t = retain-IsTracker p id key tracker t

-- All timestamps of every rule id and key since the last alert of the two.
abbrev pub History : Type 0 → Type 0
History F = ℕ → String → List F

abbrev pub extend : {F : Type 0} → Bool → ℕ → String → F → History F → History F
extend added id key now history i k =
    if (id == i) && string_equals key k
    then (if added then history id key ++ (now ∷ []) else history id key)
    else history i k

abbrev pub reset : {F : Type 0} → ℕ → String → Option ℕ → History F → History F
reset id key none history i k = history i k
reset id key (some count) history i k = if (id == i) && string_equals key k then [] else history i k

module _ {F : Type 0} ⦃f : F64 F⦄ where
  abbrev pub alert_of : EvaluatedRule F → String → Option ℕ → Option PendingAlert
  alert_of rule key none = none
  alert_of rule key (some count) = some (flood_alert rule key count)

  -- The reference: the thresholds over the whole histories of the packets and of the connections.
  unfoldable pub reference_step :
      EvaluatedRule F
      → ParsedPacket
      → F
      → History F
      → History F
      → (History F × History F) × Option PendingAlert
  reference_step rule pkt now packets conns =
      let key = resolve_tracking_key rule pkt in
      let packets' = extend true rule.id key now packets in
      let conns' = extend (opens_connection pkt) rule.id key now conns in
      let outcome =
        exceeded (max_rps rule) (max_conn_rate rule) now (packets' rule.id key)
          (conns' rule.id key) in
      (
        (reset rule.id key outcome packets', reset rule.id key outcome conns'),
        alert_of rule key outcome,
      )

  -- Every key's timestamps agree with its history.
  abbrev pub Follows : F → Tracker F → History F → Type 0
  Follows since tracker history =
      IsTracker tracker × ((i : ℕ) (k : String) → Agrees since (stamps i k tracker) (history i k))

  pub choose-Agrees :
      (b : Bool) (since : F) (xs ys hx hy : List F)
      → Agrees since xs hx
      → Agrees since ys hy
      → Agrees since (if b then xs else ys) (if b then hx else hy)
  choose-Agrees true since xs ys hx hy x y = x
  choose-Agrees false since xs ys hx hy x y = y

  pub track-Follows :
      (ieee : IsIeee F) (added : Bool) (id : ℕ) (key : String) (now : F) (tracker : Tracker F)
      (history : History F)
      → f.is_finite now ≡ true
      → Follows now tracker history
      → Follows now
          (retain (is_fresh now minute) id key (if added then push id key now tracker else tracker))
          (extend added id key now history)
  track-Follows ieee added id key now tracker history finite (t, h) = (
    track-IsTracker added (is_fresh now minute) id key now tracker t,
    λ i k.
        let ts = stamps id key tracker in
        let old = history id key in
        let grown =
          choose-Agrees added now (ts ++ (now ∷ [])) ts (old ++ (now ∷ [])) old
            (push-Agrees now now ts old (h id key)) (h id key) in
        let ts' = if added then ts ++ (now ∷ []) else ts in
        let new = if added then old ++ (now ∷ []) else old in
        subst (λ xs. Agrees now xs (extend added id key now history i k))
          (sym (stamps_track added (is_fresh now minute) id i key k now tracker))
          (choose-Agrees ((id == i) && string_equals key k) now (keep (is_fresh now minute) ts')
            (stamps i k tracker) new (history i k) (prune-Agrees ieee now ts' new finite grown)
            (h i k)),
  )

  pub forget-Follows :
      (since : F) (id : ℕ) (key : String) (tracker : Tracker F) (history : History F) (count : ℕ)
      → Follows since tracker history
      → Follows since (forget id key tracker) (reset id key (some count) history)
  forget-Follows since id key tracker history count (t, h) = (
    forget-IsTracker id key tracker t,
    λ i k.
        subst (λ xs. Agrees since xs (reset id key (some count) history i k))
          (sym (stamps-forget id i key k tracker t))
          (choose-Agrees ((id == i) && string_equals key k) since [] (stamps i k tracker) []
            (history i k) (λ now window l w. refl) (h i k)),
  )

  pub expire-Follows :
      (ieee : IsIeee F) (since now : F) (tracker : Tracker F) (history : History F)
      → f.is_finite now ≡ true
      → f.lt now since ≡ false
      → Follows since tracker history
      → Follows now (expire_tracker now tracker) history
  expire-Follows ieee since now tracker history finite l (t, h) = (
    expire_tracker-IsTracker now tracker t,
    λ i k.
        subst (λ ts. Agrees now ts (history i k)) (sym (stamps_at-expire now i k tracker t))
          (prune-Agrees ieee now (stamps i k tracker) (history i k) finite
            (later-Agrees ieee since now (stamps i k tracker) (history i k) finite l (h i k))),
  )

  pub later-Follows :
      (ieee : IsIeee F) (since now : F) (tracker : Tracker F) (history : History F)
      → f.is_finite now ≡ true
      → f.lt now since ≡ false
      → Follows since tracker history
      → Follows now tracker history
  later-Follows ieee since now tracker history finite l (t, h) =
      (t, λ i k. later-Agrees ieee since now (stamps i k tracker) (history i k) finite l (h i k))
