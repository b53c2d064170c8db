-- ===== src/Ledger/Types.antt =====
-- daemon/ledger: the state, the keys and the values of the ledger's bucket.
-- A key is read by its form ("utxo:" and a decimal, "meta:next", ...). A value is what was
-- marshalled into it: encoding/json gives a struct back as it was, and fails on other bytes.
use cerberus.Base.{
  ℕ, zero, suc, ◌+◌, ◌/◌, ◌%◌, ◌≡◌, ◌↔◌, Bool, true, false, List, [], ◌∷◌, ◌++◌, Option, none, some,
  String, arith, ltb, ◌==◌, if◌then◌else◌,
}
use cerberus.Store.{Store, StoreError}
use cerberus.Store.Bucket.{KeyOrder}
use Prim.Native.Char.{code}

pub data LedgerKey : Type 0 where
  utxo pending computetx : ℕ → LedgerKey
  meta_next meta_block meta_next_tx meta_next_compute_tx : LedgerKey

-- The bytes of an ASCII text.
pub codes : String → List ℕ
codes String.[] = []
codes (String.◌∷◌ c s) = code c ∷ codes s

digits_loop : ℕ → ℕ → List ℕ → List ℕ
digits_loop zero n acc = acc
digits_loop (suc fuel) n acc =
    let digit = b'0' + n % 10 in
    let more = digits_loop fuel (n / 10) (digit ∷ acc) in if ltb n 10 then digit ∷ acc else more

-- strconv.FormatUint(n, 10). A uint64 has at most 20 digits.
pub decimal : ℕ → List ℕ
unfolding digits_loop
decimal n = digits_loop 20 n []

unfoldable pub key_bytes : LedgerKey → List ℕ
unfolding codes decimal
key_bytes (utxo id) = codes "utxo:" ++ decimal id
key_bytes (pending tx) = codes "pending:" ++ decimal tx
key_bytes (computetx id) = codes "computetx:" ++ decimal id
key_bytes meta_next = codes "meta:next"
key_bytes meta_block = codes "meta:block"
key_bytes meta_next_tx = codes "meta:nexttx"
key_bytes meta_next_compute_tx = codes "meta:nextcomputetx"

-- The order of byte strings, in which bbolt iterates.
pub bytes_lt : List ℕ → List ℕ → Bool
bytes_lt xs [] = false
bytes_lt [] (y ∷ ys) = true
bytes_lt (x ∷ xs) (y ∷ ys) = let rest = bytes_lt xs ys in if x == y then rest else ltb x y

unfoldable pub same_key : LedgerKey → LedgerKey → Bool
same_key (utxo i) (utxo j) = i == j
same_key (pending i) (pending j) = i == j
same_key (computetx i) (computetx j) = i == j
same_key meta_next meta_next = true
same_key meta_block meta_block = true
same_key meta_next_tx meta_next_tx = true
same_key meta_next_compute_tx meta_next_compute_tx = true
same_key _ _ = false

pub same_key_iff : (a b : LedgerKey) → (same_key a b ≡ true) ↔ (a ≡ b)
unfolding same_key
same_key_iff (utxo i) b = ground arith
same_key_iff (pending i) b = ground arith
same_key_iff (computetx i) b = ground arith
same_key_iff meta_next b = ground arith
same_key_iff meta_block b = ground arith
same_key_iff meta_next_tx b = ground arith
same_key_iff meta_next_compute_tx b = ground arith

instance abbrev pub ledger_key_order : KeyOrder LedgerKey
ledger_key_order = record {
  keq = same_key;
  keq_iff = same_key_iff;
  klt = λ a b. bytes_lt (key_bytes a) (key_bytes b);
}

-- strings.HasPrefix(k, utxoPfx)
abbrev pub is_utxo_key : LedgerKey → Bool
is_utxo_key (utxo id) = true
is_utxo_key _ = false

pub record Utxo : Type 0 where
  pub owner : String
  pub value : ℕ

pub data ClaimState : Type 0 where
  claim_pending claim_finalized claim_slashed : ClaimState

pub record SettlementBinding : Type 0 where
  pub task_id : String
  pub component_cid : String
  pub input_cid : String
  pub output_cid : String

pub record PendingSettlement : Type 0 where
  pub tx : ℕ
  pub consumer : String
  pub provider : String
  pub payment : ℕ
  pub bond : ℕ
  pub opened_at : ℕ
  pub dispute_block : ℕ
  pub binding : SettlementBinding
  pub state : ClaimState

pub data ComputeTxState : Type 0 where
  compute_blank compute_recorded compute_settled : ComputeTxState

pub record ComputeTx : Type 0 where
  pub id : ℕ
  pub task_id : String
  pub model : String
  pub consumer : String
  pub provider : String
  pub amount : ℕ
  pub output_cid : String
  pub unix_time : ℕ
  pub state : ComputeTxState

-- What a value was marshalled from; `counter` is 8 bytes, big endian; `junk` is anything else.
pub data Value : Type 0 where
  utxo_json : Utxo → Value
  pending_json : PendingSettlement → Value
  compute_json : ComputeTx → Value
  counter : ℕ → Value
  junk : List ℕ → Value

-- json.Unmarshal into a struct of each type, and the 8-byte counter. Every key is written with values
-- of one struct only, so that of another struct, whose unknown fields Go ignores, never meets these.
abbrev pub as_utxo : Value → Option Utxo
as_utxo (utxo_json u) = some u
as_utxo _ = none

abbrev pub as_pending : Value → Option PendingSettlement
as_pending (pending_json p) = some p
as_pending _ = none

abbrev pub as_compute : Value → Option ComputeTx
as_compute (compute_json t) = some t
as_compute _ = none

-- `ok && len(b) == 8`, else the default stays.
abbrev pub counter_or : ℕ → Option Value → ℕ
counter_or d none = d
counter_or d (some (counter n)) = n
counter_or d (some _) = d

pub data Error : Type 0 where
  store_error : StoreError → Error
  economy_disabled no_such_utxo not_owned insufficient_value escrow_underflow : Error
  no_such_pending bad_json not_pending window_open window_closed : Error
  binding_mismatch output_mismatch outputs_match : Error

pub record Ledger : Type 0 where
  pub store : Store LedgerKey Value
  pub next : ℕ
  pub block : ℕ
  pub enabled : Bool
