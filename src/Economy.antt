-- ===== src/Economy.antt =====
-- daemon/economy/settle.go: the Settler, which settles completed tasks on the ledger at the ledger's own height.
pub mod Paid
mod Tests
use Prim.Native.Char.{Char}
use Prim.Native.String
use cerberus.Base.{
  ℕ, zero, suc, ◌/◌, ◌%◌, Bool, true, false, ◌||◌, List, [], ◌∷◌, Option, String, Result, ok, err,
  ◌==◌, if◌then◌else◌, str_eq,
}
use cerberus.Ledger.Types.{Ledger, Error, PendingSettlement, SettlementBinding}
use cerberus.Ledger.Utxos.{advance_block}
use cerberus.Ledger.Settlement.{
  FraudProof, Slash, open_optimistic, finalize, challenge, pending_claim,
}

-- The fields of contract.ComputeTask that a settlement binds.
pub record CompletedTask : Type 0 where
  pub task_id : List ℕ
  pub component : List ℕ

pub record Claim : Type 0 where
  pub consumer : String
  pub provider : String
  pub payment_input : ℕ
  pub payment : ℕ
  pub bond_input : ℕ
  pub bond : ℕ
  pub output_cid : String
  pub dispute_blocks : ℕ

pub data SettleError : Type 0 where
  no_principals : SettleError
  from_ledger : Error → SettleError

abbrev pub default_dispute_blocks : ℕ
default_dispute_blocks = 16

abbrev char_at : String → ℕ → Char
char_at String.[] n = "0"
char_at (String.◌∷◌ c s) zero = c
char_at (String.◌∷◌ c s) (suc n) = char_at s n

abbrev hex_digit : ℕ → Char
hex_digit n = char_at "0123456789abcdef" n

-- hex.EncodeToString
unfoldable pub hex : List ℕ → String
hex [] = ""
hex (b ∷ bs) = String.◌∷◌ (hex_digit (b / 16)) (String.◌∷◌ (hex_digit (b % 16)) (hex bs))

abbrev pub window : Claim → ℕ
window c = if c.dispute_blocks == 0 then default_dispute_blocks else c.dispute_blocks

abbrev pub binding_of : CompletedTask → String → Claim → SettlementBinding
binding_of task input_cid c = record {
  task_id = hex task.task_id;
  component_cid = hex task.component;
  input_cid = input_cid;
  output_cid = c.output_cid;
}

abbrev on_ledger : Result Error ℕ × Ledger → Result SettleError ℕ × Ledger
on_ledger (ok tx, l) = (ok tx, l)
on_ledger (err e, l) = (err (from_ledger e), l)

unfoldable pub settle_completed_task :
    CompletedTask → String → Claim → Ledger → Result SettleError ℕ × Ledger
settle_completed_task task input_cid c l =
    if str_eq c.consumer "" || str_eq c.provider ""
    then (err no_principals, l)
    else on_ledger (
        open_optimistic l.block c.payment_input c.consumer c.payment c.bond_input c.provider c.bond
          (window c) (binding_of task input_cid c) l)

-- What AdvanceBlock returns besides the error: the height that is stored.
abbrev height : Result Error ℕ × Ledger → ℕ × Ledger
height (ok h, l) = (h, l)
height (err e, l) = (l.block, l)

unfoldable pub advance : ℕ → Ledger → ℕ × Ledger
advance n l = height (advance_block n l)

unfoldable pub finalize_settled : ℕ → Ledger → Result Error ℕ × Ledger
finalize_settled tx l = finalize tx l.block l

unfoldable pub challenge_settled : ℕ → FraudProof → String → Ledger → Result Error Slash × Ledger
challenge_settled tx fraud challenger l = challenge tx fraud l.block challenger l

unfoldable pub pending_settled : ℕ → Ledger → Result Error (Option PendingSettlement) × Ledger
pending_settled tx l = pending_claim tx l
