-- ===== src/Economy/Tests.antt =====
-- daemon/economy/settle.go: a task that is settled and paid on a concrete ledger.
use cerberus.Base.{[], ◌∷◌, ◌≡◌, refl, arith, str_eq_iff}
use cerberus.Ledger.Types.{same_key}
use cerberus.Ledger.Tests.{alice_coin, bob_coin, quiet, quiet-Solvent}
use cerberus.Economy.{CompletedTask, hex}
use cerberus.Economy.Paid.{TaskPaid, settled_task_paid}

abbrev task : CompletedTask
task = record { task_id = 171 ∷ []; component = 7 ∷ [] }

task_in_hex : hex (171 ∷ 7 ∷ []) ≡ "ab07"
unfolding hex
task_in_hex = refl

settled_task_paid_example : TaskPaid task "in" 1 alice_coin 20 2 bob_coin 10 0 "out" 16 quiet
unfolding same_key
settled_task_paid_example =
    settled_task_paid task "in" 1 alice_coin 20 2 bob_coin 10 0 "out" 16 quiet quiet-Solvent
      (omega arith) (omega arith) (omega arith) (omega arith) (refl, omega arith)
      (λ pos. ((refl, omega arith), λ e. absurd (omega arith)))
      (λ e. cc ((str_eq_iff "alice" "__escrow__").1 e))
      (λ e. cc ((str_eq_iff "bob" "__escrow__").1 e)) refl refl
