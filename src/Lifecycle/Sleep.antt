-- ===== src/Lifecycle/Sleep.antt =====
-- daemon/lifecycle/lifecycle.go: the order of checkpoint and hand-back in the log of any run.
use cerberus.Base.{
  ◌≡◌, inl, inr, refl, ap, subst, not, ◌&&◌, List, [], ◌∷◌, ◌++◌, map, Option, none, some, ℕ, suc,
  Bool-cases,
}
use cerberus.Lifecycle.{
  Reading, SleepHint, sleep_awake, sleep_idle, sleep_imminent, SleepReason, reason_sleep_imminent,
  reason_lid_closed, LifecycleEvent, thermal_shed_event, wake_event, sleep_imminent_event,
  lid_closed_event, Effect, heard, checkpointed, checkpoint_failed, handed_back, resumed,
  SleepPrepare, WakePrepare, StandbyCoordinator, Thermal, PowerEvent, ev_sample, ev_thermal,
  ev_lid_closed, ev_lid_opened, ev_sleep_imminent, ev_wake, Monitor, after_checkpoint,
  checkpoint_and_hand_back, prepare_sleep, resume, with_hint, with_lid, lid_closed, is_hot, is_cool,
  on_thermal, announced, handle, run,
}
use cerberus.Lifecycle.Latch.{prepare_sleep-Monitor, resume-Monitor}

-- A log in which each hand-back of the capabilities follows at once on a checkpoint of the document
-- that succeeded.
pub data Choreography (doc : List ℕ) (caps : List (List ℕ)) : List Effect → Type 0 where
  quiet : Choreography doc caps []
  told :
      {l : ℕ} {ev : LifecycleEvent} {es : List Effect}
      → Choreography doc caps es
      → Choreography doc caps (heard l ev ∷ es)
  woke :
      {w : WakePrepare} {es : List Effect}
      → Choreography doc caps es
      → Choreography doc caps (resumed w ∷ es)
  unsealed :
      {d : List ℕ} {es : List Effect}
      → d ≡ doc
      → Choreography doc caps es
      → Choreography doc caps (checkpointed d ∷ es)
  failed :
      {d : List ℕ} {es : List Effect}
      → d ≡ doc
      → Choreography doc caps es
      → Choreography doc caps (checkpoint_failed d ∷ es)
  sealed :
      {d : List ℕ} {p : SleepPrepare} {es : List Effect}
      → d ≡ doc
      → p.doc_id ≡ doc
      → p.held_caps ≡ caps
      → Choreography doc caps es
      → Choreography doc caps (checkpointed d ∷ handed_back p ∷ es)

module _ {doc : List ℕ} {caps : List (List ℕ)} where
  Choreography-append :
      {xs ys : List Effect}
      → Choreography doc caps xs
      → Choreography doc caps ys
      → Choreography doc caps (xs ++ ys)
  Choreography-append quiet c = c
  Choreography-append (told b) c = told (Choreography-append b c)
  Choreography-append (woke b) c = woke (Choreography-append b c)
  Choreography-append (unsealed e b) c = unsealed e (Choreography-append b c)
  Choreography-append (failed e b) c = failed e (Choreography-append b c)
  Choreography-append (sealed e p q b) c = sealed e p q (Choreography-append b c)

  Choreography-heard :
      (ev : LifecycleEvent) (ls : List ℕ) → Choreography doc caps (map (λ l. heard l ev) ls)
  Choreography-heard ev [] = quiet
  Choreography-heard ev (l ∷ ls) = told (Choreography-heard ev ls)

-- The parts of a monitor that no event changes.
pub record Settings (Error : Type 0) : Type 0 where
  pub crdt : Option (ℕ → List ℕ → Option Error)
  pub doc_id : List ℕ
  pub held_caps : List (List ℕ)
  pub coordinator : Option (StandbyCoordinator Error)

module _ (reading : Reading) (Error : Type 0) where
  abbrev pub settings : Monitor reading Error → Settings Error
  settings m = record {
    crdt = m.crdt;
    doc_id = m.doc_id;
    held_caps = m.held_caps;
    coordinator = m.coordinator;
  }

  announced-settings :
      (hint : SleepHint) (m : Monitor reading Error)
      → settings (announced reading Error hint m).1 ≡ settings m
  unfolding announced
  announced-settings sleep_awake m = refl
  announced-settings sleep_idle m = refl
  announced-settings sleep_imminent m =
      ap settings (prepare_sleep-Monitor reading Error reason_sleep_imminent m).1

  on_thermal-settings :
      (t : Thermal reading Error) (m : Monitor reading Error)
      → settings (on_thermal reading Error t m).1 ≡ settings m
  unfolding on_thermal
  on_thermal-settings t m = elim (Bool-cases (is_hot reading Error t && not m.thermal_shed)) [
    | inl h ↦ rw h refl
    | inr h ↦ elim (Bool-cases (is_cool reading Error t && m.thermal_shed)) [
      | inl c ↦ rw (h, c) refl
      | inr c ↦ rw (h, c) refl
    ]
  ]

  handle-settings :
      (ev : PowerEvent reading Error) (m : Monitor reading Error)
      → settings (handle reading Error ev m).1 ≡ settings m
  unfolding handle
  handle-settings (ev_sample p) m = announced-settings p.hint (record m { power = p })
  handle-settings (ev_thermal t) m = on_thermal-settings t m
  handle-settings ev_lid_closed m = ap settings (
      (prepare_sleep-Monitor reading Error reason_lid_closed
        (with_lid reading Error lid_closed m)).1)
  handle-settings ev_lid_opened m = refl
  handle-settings ev_sleep_imminent m =
      ap settings (prepare_sleep-Monitor reading Error reason_sleep_imminent m).1
  handle-settings ev_wake m = ap settings (resume-Monitor reading Error m)

  -- Two properties of the log that hold of every call hold of every run.
  pub run-All :
      (P : Settings Error → List Effect → Type 0)
      → ((k : Settings Error) → P k [])
      → ((k : Settings Error) (xs ys : List Effect) → P k xs → P k ys → P k (xs ++ ys))
      → ((ev : PowerEvent reading Error) (m : Monitor reading Error)
          → P (settings m) (handle reading Error ev m).0)
      → (evs : List (PowerEvent reading Error)) (m : Monitor reading Error)
      → P (settings m) (run reading Error evs m).0
  unfolding run
  run-All P none_yet joined each [] m = none_yet (settings m)
  run-All P none_yet joined each (ev ∷ evs) m =
      joined (settings m) (handle reading Error ev m).0
        (run reading Error evs (handle reading Error ev m).1).0 (each ev m)
        (subst (λ k. P k (run reading Error evs (handle reading Error ev m).1).0)
          (handle-settings ev m) (run-All P none_yet joined each evs (handle reading Error ev m).1))

  -- With an engine, the log is a choreography.
  abbrev Ordered : Settings Error → List Effect → Type 0
  Ordered k es =
      (checkpoint : ℕ → List ℕ → Option Error)
      → k.crdt ≡ some checkpoint
      → Choreography k.doc_id k.held_caps es

  checkpoint-Choreography :
      (r : SleepReason) (m : Monitor reading Error) (e : Option Error)
      (c : Option (StandbyCoordinator Error))
      → m.coordinator ≡ c
      → Choreography m.doc_id m.held_caps (after_checkpoint reading Error r m e).1
  checkpoint-Choreography r m (some e) c h = failed refl quiet
  checkpoint-Choreography r m none none h = rw h (unsealed refl quiet)
  checkpoint-Choreography r m none (some c) h = rw h (sealed refl refl refl quiet)

  prepare_sleep-Ordered :
      (r : SleepReason) (m : Monitor reading Error)
      → Ordered (settings m) (prepare_sleep reading Error r m).1
  unfolding prepare_sleep
  prepare_sleep-Ordered r m f e =
      Choreography-append (Choreography-heard sleep_imminent_event m.listeners)
        (engine_called (with_hint reading Error sleep_imminent m) m.crdt e)
    where
      engine_called :
          (dark : Monitor reading Error) (crdt : Option (ℕ → List ℕ → Option Error))
          → crdt ≡ some f
          → Choreography dark.doc_id dark.held_caps
              (checkpoint_and_hand_back reading Error r dark crdt).1
      engine_called dark none q = cc
      engine_called dark (some g) q =
          checkpoint-Choreography r (record dark { checkpoints = suc dark.checkpoints })
            (g dark.checkpoints dark.doc_id) dark.coordinator refl

  announced-Ordered :
      (hint : SleepHint) (m : Monitor reading Error)
      → Ordered (settings m) (announced reading Error hint m).0
  unfolding announced
  announced-Ordered sleep_awake m f e = quiet
  announced-Ordered sleep_idle m f e = quiet
  announced-Ordered sleep_imminent m f e = prepare_sleep-Ordered reason_sleep_imminent m f e

  on_thermal-heard :
      (t : Thermal reading Error) (m : Monitor reading Error) (doc : List ℕ) (caps : List (List ℕ))
      → Choreography doc caps (on_thermal reading Error t m).0
  unfolding on_thermal
  on_thermal-heard t m doc caps = elim (Bool-cases (is_hot reading Error t && not m.thermal_shed)) [
    | inl h ↦ rw h (Choreography-heard thermal_shed_event m.listeners)
    | inr h ↦ elim (Bool-cases (is_cool reading Error t && m.thermal_shed)) [
      | inl c ↦ rw (h, c) (Choreography-heard wake_event m.listeners)
      | inr c ↦ rw (h, c) quiet
    ]
  ]

  resume-heard :
      (m : Monitor reading Error) (c : Option (StandbyCoordinator Error)) (doc : List ℕ)
      (caps : List (List ℕ))
      → m.coordinator ≡ c
      → Choreography doc caps (resume reading Error m).1
  unfolding resume
  resume-heard m none doc caps h =
      rw h (Choreography-append (Choreography-heard wake_event m.listeners) quiet)
  resume-heard m (some c) doc caps h =
      rw h (Choreography-append (Choreography-heard wake_event m.listeners) (woke quiet))

  handle-Ordered :
      (ev : PowerEvent reading Error) (m : Monitor reading Error)
      → Ordered (settings m) (handle reading Error ev m).0
  unfolding handle
  handle-Ordered (ev_sample p) m f e = announced-Ordered p.hint (record m { power = p }) f e
  handle-Ordered (ev_thermal t) m f e = on_thermal-heard t m m.doc_id m.held_caps
  handle-Ordered ev_lid_closed m f e =
      Choreography-append (Choreography-heard lid_closed_event m.listeners)
        (prepare_sleep-Ordered reason_lid_closed (with_lid reading Error lid_closed m) f e)
  handle-Ordered ev_lid_opened m f e = quiet
  handle-Ordered ev_sleep_imminent m f e = prepare_sleep-Ordered reason_sleep_imminent m f e
  handle-Ordered ev_wake m f e = resume-heard m m.coordinator m.doc_id m.held_caps refl

  -- Whatever events arrive and whichever checkpoints fail, a monitor with an engine hands its
  -- capabilities back only at once after a checkpoint of its document that succeeded, and all of them.
  pub run-Choreography :
      (evs : List (PowerEvent reading Error)) (m : Monitor reading Error)
      (checkpoint : ℕ → List ℕ → Option Error)
      → m.crdt ≡ some checkpoint
      → Choreography m.doc_id m.held_caps (run reading Error evs m).0
  run-Choreography evs m checkpoint e =
      run-All Ordered (λ k f q. quiet) (λ k xs ys a b f q. Choreography-append (a f q) (b f q))
        handle-Ordered evs m checkpoint e
