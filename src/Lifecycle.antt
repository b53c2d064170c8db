-- ===== src/Lifecycle.antt =====
-- daemon/lifecycle: the monitor's state machine over power events (lifecycle.go, signal.go,
-- source.go). Floating-point readings are a parameter, with the monitor's two comparisons of the
-- headroom. A call returns its error and what the outside saw of it, in order. A listener is known by
-- a number and only hears; a callback that calls the monitor again is not modelled.
pub mod Latch
pub mod Sleep
pub mod Stalled
mod Tests
use cerberus.Base.{
  Bool, true, false, not, ◌&&◌, ◌||◌, List, [], ◌∷◌, ◌++◌, map, Option, none, some, ℕ, suc,
  if◌then◌else◌,
}

pub data PowerSource : Type 0 where
  power_ac power_battery : PowerSource

pub data LidState : Type 0 where
  lid_open lid_closed : LidState

pub data SleepHint : Type 0 where
  sleep_awake sleep_idle sleep_imminent : SleepHint

pub data LifecycleEvent : Type 0 where
  thermal_shed_event sleep_imminent_event lid_closed_event wake_event : LifecycleEvent

pub data SleepReason : Type 0 where
  reason_sleep_imminent reason_lid_closed reason_manual : SleepReason

-- A floating-point reading, and `HeadroomC <= 5` and `HeadroomC >= 15` on it.
pub record Reading : Type 1 where
  pub Value : Type 0
  pub tight : Value → Bool
  pub ample : Value → Bool

pub record SleepPrepare : Type 0 where
  pub doc_id : List ℕ
  pub reason : SleepReason
  pub held_caps : List (List ℕ)

pub record WakePrepare : Type 0 where
  pub doc_id : List ℕ

-- What the outside sees: a listener called, a checkpoint made or failed, the coordinator called.
pub data Effect : Type 0 where
  heard : ℕ → LifecycleEvent → Effect
  checkpointed checkpoint_failed : List ℕ → Effect
  handed_back : SleepPrepare → Effect
  resumed : WakePrepare → Effect

-- The scheduler's side; `some e` is an error.
pub record StandbyCoordinator (Error : Type 0) : Type 0 where
  pub hand_back_and_promote : SleepPrepare → Option Error
  pub resume_standby : WakePrepare → Option Error

module _ (reading : Reading) (Error : Type 0) where
  pub record Power : Type 0 where
    pub src : PowerSource
    pub battery_pct : reading.Value
    pub lid : LidState
    pub hint : SleepHint

  pub record Thermal : Type 0 where
    pub cpu_c : reading.Value
    pub gpu_c : reading.Value
    pub headroom_c : reading.Value
    pub throttling : Bool

  pub data PowerEvent : Type 0 where
    ev_sample : Power → PowerEvent
    ev_thermal : Thermal → PowerEvent
    ev_lid_closed ev_lid_opened ev_sleep_imminent ev_wake : PowerEvent

  -- `crdt` is the engine's checkpoint, by the error of its nth call for a document, and `checkpoints`
  -- counts the calls that were made: the engine may fail now and not later.
  pub record Monitor : Type 0 where
    pub crdt : Option (ℕ → List ℕ → Option Error)
    pub checkpoints : ℕ
    pub doc_id : List ℕ
    pub power : Power
    pub thermal : Thermal
    pub listeners : List ℕ
    pub coordinator : Option (StandbyCoordinator Error)
    pub held_caps : List (List ℕ)
    pub thermal_shed : Bool

  abbrev pub Outcome : Type 0
  Outcome = Option Error × List Effect × Monitor

  unfoldable pub set_coordinator : StandbyCoordinator Error → Monitor → Monitor
  set_coordinator c m = record m { coordinator = some c }

  unfoldable pub set_held_caps : List (List ℕ) → Monitor → Monitor
  set_held_caps caps m = record m { held_caps = caps }

  unfoldable pub on_transition : ℕ → Monitor → Monitor
  on_transition listener m = record m { listeners = m.listeners ++ (listener ∷ []) }

  abbrev pub emit : LifecycleEvent → Monitor → List Effect
  emit ev m = map (λ l. heard l ev) m.listeners

  abbrev pub with_hint : SleepHint → Monitor → Monitor
  with_hint hint m = record m { power = record (m.power) { hint = hint } }

  abbrev pub with_lid : LidState → Monitor → Monitor
  with_lid lid m = record m { power = record (m.power) { lid = lid } }

  -- The last step of `prepareSleep`: the coordinator, if there is one.
  abbrev pub hand_back : SleepReason → Monitor → Option (StandbyCoordinator Error) → Outcome
  hand_back reason m none = (none, [], m)
  hand_back reason m (some c) =
      let prepare : SleepPrepare = record {
        doc_id = m.doc_id;
        reason = reason;
        held_caps = m.held_caps;
      } in
      (c.hand_back_and_promote prepare, handed_back prepare ∷ [], m)

  abbrev pub after : List Effect → Outcome → Outcome
  after seen (e, es, m) = (e, seen ++ es, m)

  abbrev pub after_checkpoint : SleepReason → Monitor → Option Error → Outcome
  after_checkpoint reason m (some e) = (some e, checkpoint_failed m.doc_id ∷ [], m)
  after_checkpoint reason m none =
      after (checkpointed m.doc_id ∷ []) (hand_back reason m m.coordinator)

  abbrev pub checkpoint_and_hand_back :
      SleepReason → Monitor → Option (ℕ → List ℕ → Option Error) → Outcome
  checkpoint_and_hand_back reason m none = hand_back reason m m.coordinator
  checkpoint_and_hand_back reason m (some checkpoint) =
      after_checkpoint reason (record m { checkpoints = suc m.checkpoints })
        (checkpoint m.checkpoints m.doc_id)

  unfoldable pub prepare_sleep : SleepReason → Monitor → Outcome
  prepare_sleep reason m =
      let dark : Monitor = with_hint sleep_imminent m in
      after (emit sleep_imminent_event dark) (checkpoint_and_hand_back reason dark dark.crdt)

  abbrev pub release : Monitor → Option (StandbyCoordinator Error) → Outcome
  release m none = (none, [], m)
  release m (some c) =
      let wake : WakePrepare = record { doc_id = m.doc_id } in
      (c.resume_standby wake, resumed wake ∷ [], m)

  unfoldable pub resume : Monitor → Outcome
  resume m =
      let awake : Monitor = with_lid lid_open (with_hint sleep_awake m) in
      after (emit wake_event awake) (release awake awake.coordinator)

  abbrev pub is_hot : Thermal → Bool
  is_hot t = t.throttling || reading.tight t.headroom_c

  abbrev pub is_cool : Thermal → Bool
  is_cool t = not t.throttling && reading.ample t.headroom_c

  unfoldable pub on_thermal : Thermal → Monitor → List Effect × Monitor
  on_thermal t m =
      let read : Monitor = record m { thermal = t } in
      if is_hot t && not m.thermal_shed
      then (emit thermal_shed_event read, record read { thermal_shed = true })
      else if is_cool t && m.thermal_shed
      then (emit wake_event read, record read { thermal_shed = false })
      else ([], read)

  -- The error of the choreography is dropped.
  abbrev pub unchecked : Outcome → List Effect × Monitor
  unchecked (e, es, m) = (es, m)

  abbrev pub also : List Effect → List Effect × Monitor → List Effect × Monitor
  also seen (es, m) = (seen ++ es, m)

  abbrev announced : SleepHint → Monitor → List Effect × Monitor
  unfolding prepare_sleep
  announced sleep_imminent m = unchecked (prepare_sleep reason_sleep_imminent m)
  announced sleep_awake m = ([], m)
  announced sleep_idle m = ([], m)

  unfoldable pub handle : PowerEvent → Monitor → List Effect × Monitor
  unfolding prepare_sleep resume on_thermal announced
  handle (ev_sample power) m = announced power.hint (record m { power = power })
  handle (ev_thermal t) m = on_thermal t m
  handle ev_lid_closed m =
      let closed : Monitor = with_lid lid_closed m in
      also (emit lid_closed_event closed) (unchecked (prepare_sleep reason_lid_closed closed))
  handle ev_lid_opened m = ([], with_lid lid_open m)
  handle ev_sleep_imminent m = unchecked (prepare_sleep reason_sleep_imminent m)
  handle ev_wake m = unchecked (resume m)

  -- The drain loop, on the events that came before the source closed or the context ended.
  unfoldable pub run : List PowerEvent → Monitor → List Effect × Monitor
  unfolding handle
  run [] m = ([], m)
  run (ev ∷ evs) m = let (es, n) = handle ev m in also es (run evs n)
