-- ===== src/Lifecycle/Latch.antt =====
-- daemon/lifecycle/lifecycle.go: the thermal latch and the readings.
use cerberus.Base.{
  ◌≡◌, inl, inr, refl, ap, sym, ◌∙◌, Bool, true, false, List, [], ◌∷◌, ◌++◌, map, Option, none,
  some, ℕ, suc, if◌then◌else◌, arith, Bool-cases,
}
use cerberus.Lifecycle.{
  Reading, SleepHint, sleep_awake, sleep_idle, sleep_imminent, SleepReason, reason_sleep_imminent,
  reason_lid_closed, thermal_shed_event, wake_event, Effect, heard, StandbyCoordinator, Thermal,
  PowerEvent, ev_sample, ev_thermal, ev_lid_closed, ev_lid_opened, ev_sleep_imminent, ev_wake,
  Monitor, hand_back, after_checkpoint, checkpoint_and_hand_back, prepare_sleep, release, resume,
  with_hint, with_lid, lid_open, lid_closed, is_hot, is_cool, on_thermal, announced, handle, run,
}

-- 5 is below 15: no headroom is tight and ample.
abbrev pub Exclusive : Reading → Type 0
Exclusive reading = (v : reading.Value) → reading.tight v ≡ true → reading.ample v ≡ false

module _ (reading : Reading) (Error : Type 0) where
  pub hand_back-Monitor :
      (r : SleepReason) (m : Monitor reading Error) (c : Option (StandbyCoordinator Error))
      → (hand_back reading Error r m c).2 ≡ m
  hand_back-Monitor r m none = refl
  hand_back-Monitor r m (some c) = refl

  checkpoint-Monitor :
      (r : SleepReason) (m : Monitor reading Error) (e : Option Error)
      → (after_checkpoint reading Error r m e).2 ≡ m
  checkpoint-Monitor r m none = hand_back-Monitor r m m.coordinator
  checkpoint-Monitor r m (some e) = refl

  -- Preparing for sleep sets the hint and may ask for a checkpoint, and does nothing else to the monitor.
  pub prepare_sleep-Monitor :
      (r : SleepReason) (m : Monitor reading Error)
      → (n : ℕ) × ((prepare_sleep reading Error r m).2
          ≡ record (with_hint reading Error sleep_imminent m) { checkpoints = n })
  unfolding prepare_sleep
  prepare_sleep-Monitor r m = split m.crdt
    where
      dark : Monitor reading Error
      dark = with_hint reading Error sleep_imminent m

      split :
          (crdt : Option (ℕ → List ℕ → Option Error))
          → (n : ℕ) × ((checkpoint_and_hand_back reading Error r dark crdt).2
              ≡ record dark { checkpoints = n })
      split none = (dark.checkpoints, hand_back-Monitor r dark dark.coordinator)
      split (some f) = (
        suc dark.checkpoints,
        checkpoint-Monitor r (record dark { checkpoints = suc dark.checkpoints })
            (f dark.checkpoints dark.doc_id),
      )

  pub resume-Monitor :
      (m : Monitor reading Error)
      → (resume reading Error m).2
        ≡ with_lid reading Error lid_open (with_hint reading Error sleep_awake m)
  unfolding resume
  resume-Monitor m = split m.coordinator
    where
      awake : Monitor reading Error
      awake = with_lid reading Error lid_open (with_hint reading Error sleep_awake m)

      split : (c : Option (StandbyCoordinator Error)) → (release reading Error awake c).2 ≡ awake
      split none = refl
      split (some c) = refl

  -- The latch by its last decisive reading: hot sets it, cool clears it, the band between keeps it.
  abbrev pub next_latch : Thermal reading Error → Bool → Bool
  next_latch t shed =
      if is_hot reading Error t then true else if is_cool reading Error t then false else shed

  abbrev pub latch : List (PowerEvent reading Error) → Bool → Bool
  latch [] shed = shed
  latch (ev_thermal t ∷ evs) shed = latch evs (next_latch t shed)
  latch (ev_sample p ∷ evs) shed = latch evs shed
  latch (ev_lid_closed ∷ evs) shed = latch evs shed
  latch (ev_lid_opened ∷ evs) shed = latch evs shed
  latch (ev_sleep_imminent ∷ evs) shed = latch evs shed
  latch (ev_wake ∷ evs) shed = latch evs shed

  -- One announcement at each change of the latch, and none in between.
  abbrev pub announce : List ℕ → Bool → Bool → List Effect
  announce listeners false true = map (λ l. heard l thermal_shed_event) listeners
  announce listeners true false = map (λ l. heard l wake_event) listeners
  announce listeners true true = []
  announce listeners false false = []

  abbrev pub announcements : List ℕ → List (Thermal reading Error) → Bool → List Effect
  announcements listeners [] shed = []
  announcements listeners (t ∷ ts) shed =
      announce listeners shed (next_latch t shed) ++ announcements listeners ts (next_latch t shed)

  module _ (x : Exclusive reading) where
    not_both :
        (t : Thermal reading Error)
        → is_hot reading Error t ≡ true
        → is_cool reading Error t ≡ false
    not_both t h = ground (arith, x t.headroom_c)

    on_thermal_lem :
        (t : Thermal reading Error) (m : Monitor reading Error)
        → ((on_thermal reading Error t m).1.thermal_shed ≡ next_latch t m.thermal_shed)
          × ((on_thermal reading Error t m).1.listeners ≡ m.listeners)
          × ((on_thermal reading Error t m).0
              ≡ announce m.listeners m.thermal_shed (next_latch t m.thermal_shed))
    unfolding on_thermal
    on_thermal_lem t m = elim (Bool-cases (is_hot reading Error t)) [
      | inl h ↦ elim (Bool-cases m.thermal_shed) [
        | inl s ↦ rw (h, s, not_both t h) (refl, refl, refl)
        | inr s ↦ rw (h, s) (refl, refl, refl)
      ]
      | inr h ↦ elim (Bool-cases (is_cool reading Error t)) [
        | inl c ↦ elim (Bool-cases m.thermal_shed) [
          | inl s ↦ rw (h, c, s) (refl, refl, refl)
          | inr s ↦ rw (h, c, s) (refl, refl, refl)
        ]
        | inr c ↦ elim (Bool-cases m.thermal_shed) [
          | inl s ↦ rw (h, c, s) (refl, refl, refl)
          | inr s ↦ rw (h, c, s) (refl, refl, refl)
        ]
      ]
    ]

    announced-latch :
        (hint : SleepHint) (m : Monitor reading Error)
        → (announced reading Error hint m).1.thermal_shed ≡ m.thermal_shed
    unfolding announced
    announced-latch sleep_awake m = refl
    announced-latch sleep_idle m = refl
    announced-latch sleep_imminent m =
        ap (λ n. n.thermal_shed) (prepare_sleep-Monitor reason_sleep_imminent m).1

    handle-latch :
        (ev : PowerEvent reading Error) (m : Monitor reading Error)
        → (handle reading Error ev m).1.thermal_shed ≡ latch (ev ∷ []) m.thermal_shed
    unfolding handle
    handle-latch (ev_sample p) m = announced-latch p.hint (record m { power = p })
    handle-latch (ev_thermal t) m = (on_thermal_lem t m).0
    handle-latch ev_lid_closed m =
        ap (λ n. n.thermal_shed)
          (prepare_sleep-Monitor reason_lid_closed (with_lid reading Error lid_closed m)).1
    handle-latch ev_lid_opened m = refl
    handle-latch ev_sleep_imminent m =
        ap (λ n. n.thermal_shed) (prepare_sleep-Monitor reason_sleep_imminent m).1
    handle-latch ev_wake m = ap (λ n. n.thermal_shed) (resume-Monitor m)

    latch-cons :
        (ev : PowerEvent reading Error) (evs : List (PowerEvent reading Error)) (shed : Bool)
        → latch (ev ∷ evs) shed ≡ latch evs (latch (ev ∷ []) shed)
    latch-cons (ev_sample p) evs shed = refl
    latch-cons (ev_thermal t) evs shed = refl
    latch-cons ev_lid_closed evs shed = refl
    latch-cons ev_lid_opened evs shed = refl
    latch-cons ev_sleep_imminent evs shed = refl
    latch-cons ev_wake evs shed = refl

    run-latch :
        (evs : List (PowerEvent reading Error)) (m : Monitor reading Error)
        → (run reading Error evs m).1.thermal_shed ≡ latch evs m.thermal_shed
    unfolding run
    run-latch [] m = refl
    run-latch (ev ∷ evs) m =
        run-latch evs (handle reading Error ev m).1
        ∙ ap (λ b. latch evs b) (handle-latch ev m)
        ∙ sym (latch-cons ev evs m.thermal_shed)

    thermal-announcements :
        (ts : List (Thermal reading Error)) (m : Monitor reading Error)
        → (run reading Error (map ev_thermal ts) m).0 ≡ announcements m.listeners ts m.thermal_shed
    unfolding run handle
    thermal-announcements [] m = refl
    thermal-announcements (t ∷ ts) m =
        let (a, b, c) = on_thermal_lem t m in
        let rest = thermal-announcements ts (on_thermal reading Error t m).1 in
        rw (rest, a, b, c) refl

    -- After any events the shed latch is where the last decisive thermal reading put it: hot set
    -- it, cool cleared it, and nothing else moved it. Over any thermal readings the listeners hear
    -- one event at each change of the latch, and nothing while it stays.
    pub thermal_shed_latch :
        (evs : List (PowerEvent reading Error)) (ts : List (Thermal reading Error))
        (m : Monitor reading Error)
        → ((run reading Error evs m).1.thermal_shed ≡ latch evs m.thermal_shed)
          × ((run reading Error (map ev_thermal ts) m).0
              ≡ announcements m.listeners ts m.thermal_shed)
    thermal_shed_latch evs ts m = (run-latch evs m, thermal-announcements ts m)
