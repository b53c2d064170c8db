-- ===== src/Lifecycle/Tests.antt =====
-- daemon/lifecycle: a lid that closes on a hot laptop, and the theorems at it.
use cerberus.Base.{
  ℕ, zero, suc, ◌≡◌, refl, false, List, [], ◌∷◌, map, Option, none, some, arith, leb,
}
use cerberus.Lifecycle.{
  Reading, SleepPrepare, power_ac, lid_open, sleep_awake, reason_lid_closed, StandbyCoordinator,
  Thermal, PowerEvent, ev_thermal, ev_lid_closed, ev_wake, Monitor, heard, checkpointed,
  checkpoint_failed, handed_back, lid_closed_event, sleep_imminent_event, run,
}
use cerberus.Lifecycle.Latch.{latch, announcements, Exclusive, thermal_shed_latch}
use cerberus.Lifecycle.Sleep.{Choreography, run-Choreography}
use cerberus.Lifecycle.Stalled.{NoHandBack, run-NoHandBack}

-- Whole degrees.
abbrev degrees : Reading
degrees = record { Value = ℕ; tight = λ c. leb c 5; ample = λ c. leb 15 c }

degrees-Exclusive : Exclusive degrees
degrees-Exclusive v h = ground arith

abbrev at_headroom : ℕ → Thermal degrees ℕ
at_headroom c = record { cpu_c = 70; gpu_c = 60; headroom_c = c; throttling = false }

abbrev quick_scheduler : StandbyCoordinator ℕ
quick_scheduler = record { hand_back_and_promote = λ p. none; resume_standby = λ w. none }

abbrev laptop : (ℕ → List ℕ → Option ℕ) → Monitor degrees ℕ
laptop checkpoint = record {
  crdt = some checkpoint;
  checkpoints = 0;
  doc_id = 1 ∷ [];
  power = record { src = power_ac; battery_pct = 80; lid = lid_open; hint = sleep_awake };
  thermal = at_headroom 30;
  listeners = 5 ∷ 6 ∷ [];
  coordinator = some quick_scheduler;
  held_caps = (3 ∷ []) ∷ [];
  thermal_shed = false;
}

abbrev day : List (PowerEvent degrees ℕ)
day =
    ev_thermal (at_headroom 4)
    ∷ ev_thermal (at_headroom 9)
    ∷ ev_lid_closed
    ∷ ev_wake
    ∷ ev_thermal (at_headroom 20)
    ∷ []

abbrev hand_over : SleepPrepare
hand_over = record { doc_id = 1 ∷ []; reason = reason_lid_closed; held_caps = (3 ∷ []) ∷ [] }

lid_drop_log :
    (run degrees ℕ (ev_lid_closed ∷ []) (laptop (λ n d. none))).0
    ≡ heard 5 lid_closed_event
      ∷ heard 6 lid_closed_event
      ∷ heard 5 sleep_imminent_event
      ∷ heard 6 sleep_imminent_event
      ∷ checkpointed (1 ∷ [])
      ∷ handed_back hand_over
      ∷ []
unfolding run
lid_drop_log = refl

thermal_shed_latch_example :
    ((run degrees ℕ day (laptop (λ n d. none))).1.thermal_shed ≡ latch degrees ℕ day false)
    × ((run degrees ℕ
          (map ev_thermal (at_headroom 4 ∷ at_headroom 9 ∷ at_headroom 20 ∷ []))
          (laptop (λ n d. none))).0
        ≡ announcements degrees ℕ
            (5 ∷ 6 ∷ [])
            (at_headroom 4 ∷ at_headroom 9 ∷ at_headroom 20 ∷ [])
            false)
thermal_shed_latch_example =
    thermal_shed_latch degrees ℕ degrees-Exclusive day
      (at_headroom 4 ∷ at_headroom 9 ∷ at_headroom 20 ∷ []) (laptop (λ n d. none))

-- The first checkpoint fails, and the later ones do not.
abbrev once_failing : ℕ → List ℕ → Option ℕ
once_failing zero d = some 1
once_failing (suc n) d = none

two_lids_log :
    (run degrees ℕ
      (ev_lid_closed ∷ ev_lid_closed ∷ [])
      (record (laptop once_failing) { listeners = [] })).0
    ≡ checkpoint_failed (1 ∷ []) ∷ checkpointed (1 ∷ []) ∷ handed_back hand_over ∷ []
unfolding run
two_lids_log = refl

run-Choreography_example :
    Choreography
      (1 ∷ [])
      ((3 ∷ []) ∷ [])
      (run degrees ℕ (ev_lid_closed ∷ ev_lid_closed ∷ []) (laptop once_failing)).0
run-Choreography_example =
    run-Choreography degrees ℕ (ev_lid_closed ∷ ev_lid_closed ∷ []) (laptop once_failing)
      once_failing refl

run-NoHandBack_example : NoHandBack degrees ℕ (run degrees ℕ day (laptop (λ n d. some 1))).0
run-NoHandBack_example =
    run-NoHandBack degrees ℕ day (laptop (λ n d. some 1)) (λ n d. some 1) (λ n. 1) refl (λ n. refl)
