-- ===== src/Lifecycle/Stalled.antt =====
-- daemon/lifecycle/lifecycle.go: the hand-back while checkpoints fail.
use cerberus.Base.{
  ◌≡◌, inl, inr, refl, ap, ◌∙◌, Bool, true, false, not, ◌&&◌, List, [], ◌∷◌, ◌++◌, map, Option,
  none, some, ℕ, suc, Bool-cases, All,
}
use mathlib.Core.Option.{some_inj}
use cerberus.Lifecycle.{
  Reading, SleepHint, sleep_awake, sleep_idle, sleep_imminent, SleepReason, reason_sleep_imminent,
  reason_lid_closed, LifecycleEvent, thermal_shed_event, wake_event, sleep_imminent_event,
  lid_closed_event, Effect, heard, checkpointed, checkpoint_failed, handed_back, resumed,
  StandbyCoordinator, Thermal, PowerEvent, ev_sample, ev_thermal, ev_lid_closed, ev_lid_opened,
  ev_sleep_imminent, ev_wake, Monitor, after_checkpoint, checkpoint_and_hand_back, prepare_sleep,
  resume, with_hint, with_lid, lid_closed, is_hot, is_cool, on_thermal, announced, handle, run,
}
use cerberus.Lifecycle.Sleep.{Settings, settings, run-All}

module _ (reading : Reading) (Error : Type 0) where
  abbrev is_hand_back : Effect → Bool
  is_hand_back (heard l ev) = false
  is_hand_back (checkpointed d) = false
  is_hand_back (checkpoint_failed d) = false
  is_hand_back (handed_back p) = true
  is_hand_back (resumed w) = false

  abbrev pub NoHandBack : List Effect → Type 0
  NoHandBack es = All (λ e. is_hand_back e ≡ false) es

  NoHandBack-append : (xs ys : List Effect) → NoHandBack xs → NoHandBack ys → NoHandBack (xs ++ ys)
  NoHandBack-append [] ys a b = b
  NoHandBack-append (x ∷ xs) ys a b = (a.0, NoHandBack-append xs ys a.1 b)

  NoHandBack-heard : (ev : LifecycleEvent) (ls : List ℕ) → NoHandBack (map (λ l. heard l ev) ls)
  NoHandBack-heard ev [] = tt
  NoHandBack-heard ev (l ∷ ls) = (refl, NoHandBack-heard ev ls)

  -- The engine fails to checkpoint the document, each time it is asked.
  abbrev Failing : Settings Error → List Effect → Type 0
  Failing k es =
      (checkpoint : ℕ → List ℕ → Option Error) (e : ℕ → Error)
      → k.crdt ≡ some checkpoint
      → ((n : ℕ) → checkpoint n k.doc_id ≡ some (e n))
      → NoHandBack es

  prepare_sleep-Failing :
      (r : SleepReason) (m : Monitor reading Error)
      → Failing (settings reading Error m) (prepare_sleep reading Error r m).1
  unfolding prepare_sleep
  prepare_sleep-Failing r m f x e q =
      NoHandBack-append (map (λ l. heard l sleep_imminent_event) m.listeners) _
        (NoHandBack-heard sleep_imminent_event m.listeners)
        (engine_called (with_hint reading Error sleep_imminent m) m.crdt e q)
    where
      stopped :
          (dark : Monitor reading Error) (o : Option Error) (y : Error)
          → o ≡ some y
          → NoHandBack (after_checkpoint reading Error r dark o).1
      stopped dark none y q = cc
      stopped dark (some z) y q = (refl, tt)

      engine_called :
          (dark : Monitor reading Error) (crdt : Option (ℕ → List ℕ → Option Error))
          → crdt ≡ some f
          → ((n : ℕ) → f n dark.doc_id ≡ some (x n))
          → NoHandBack (checkpoint_and_hand_back reading Error r dark crdt).1
      engine_called dark none q h = cc
      engine_called dark (some g) q h =
          stopped (record dark { checkpoints = suc dark.checkpoints })
            (g dark.checkpoints dark.doc_id) (x dark.checkpoints)
            (ap (λ k. k dark.checkpoints dark.doc_id) (some_inj.0 q) ∙ h dark.checkpoints)

  on_thermal-NoHandBack :
      (t : Thermal reading Error) (m : Monitor reading Error)
      → NoHandBack (on_thermal reading Error t m).0
  unfolding on_thermal
  on_thermal-NoHandBack t m = elim (Bool-cases (is_hot reading Error t && not m.thermal_shed)) [
    | inl h ↦ rw h (NoHandBack-heard thermal_shed_event m.listeners)
    | inr h ↦ elim (Bool-cases (is_cool reading Error t && m.thermal_shed)) [
      | inl c ↦ rw (h, c) (NoHandBack-heard wake_event m.listeners)
      | inr c ↦ rw (h, c) tt
    ]
  ]

  resume-NoHandBack :
      (m : Monitor reading Error) (c : Option (StandbyCoordinator Error))
      → m.coordinator ≡ c
      → NoHandBack (resume reading Error m).1
  unfolding resume
  resume-NoHandBack m none h = rw h (
      NoHandBack-append (map (λ l. heard l wake_event) m.listeners) []
        (NoHandBack-heard wake_event m.listeners) tt)
  resume-NoHandBack m (some c) h = rw h (
      NoHandBack-append (map (λ l. heard l wake_event) m.listeners) _
        (NoHandBack-heard wake_event m.listeners) (refl, tt))

  announced-Failing :
      (hint : SleepHint) (m : Monitor reading Error)
      → Failing (settings reading Error m) (announced reading Error hint m).0
  unfolding announced
  announced-Failing sleep_awake m f x e q = tt
  announced-Failing sleep_idle m f x e q = tt
  announced-Failing sleep_imminent m f x e q = prepare_sleep-Failing reason_sleep_imminent m f x e q

  handle-Failing :
      (ev : PowerEvent reading Error) (m : Monitor reading Error)
      → Failing (settings reading Error m) (handle reading Error ev m).0
  unfolding handle
  handle-Failing (ev_sample p) m f x e q = announced-Failing p.hint (record m { power = p }) f x e q
  handle-Failing (ev_thermal t) m f x e q = on_thermal-NoHandBack t m
  handle-Failing ev_lid_closed m f x e q =
      NoHandBack-append (map (λ l. heard l lid_closed_event) m.listeners) _
        (NoHandBack-heard lid_closed_event m.listeners)
        (prepare_sleep-Failing reason_lid_closed (with_lid reading Error lid_closed m) f x e q)
  handle-Failing ev_lid_opened m f x e q = tt
  handle-Failing ev_sleep_imminent m f x e q = prepare_sleep-Failing reason_sleep_imminent m f x e q
  handle-Failing ev_wake m f x e q = resume-NoHandBack m m.coordinator refl

  -- While the engine fails to checkpoint the document, no event makes the monitor hand its
  -- capabilities back, not even a lid that closes.
  pub run-NoHandBack :
      (evs : List (PowerEvent reading Error)) (m : Monitor reading Error)
      (checkpoint : ℕ → List ℕ → Option Error) (e : ℕ → Error)
      → m.crdt ≡ some checkpoint
      → ((n : ℕ) → checkpoint n m.doc_id ≡ some (e n))
      → NoHandBack (run reading Error evs m).0
  run-NoHandBack evs m f x e q =
      run-All reading Error Failing (λ k f x e q. tt)
        (λ k xs ys a b f x e q. NoHandBack-append xs ys (a f x e q) (b f x e q)) handle-Failing evs
        m f x e q
