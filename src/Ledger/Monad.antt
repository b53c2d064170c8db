-- ===== src/Ledger/Monad.antt =====
-- A method of `*Ledger`: it may fail, and what it wrote before it failed stays written.
use cerberus.Base.{Bool, true, false, Option, none, some, Result, ok, err}
use cerberus.Store.{Store, StoreError}
use cerberus.Ledger.Types.{Ledger, LedgerKey, Value, Error, store_error, economy_disabled}

abbrev pub M : Type 0 → Type 0
M A = Ledger → Result Error A × Ledger

abbrev then_on : {A B : Type 0} → Result Error A × Ledger → (A → M B) → Result Error B × Ledger
then_on (ok a, l) f = f a l
then_on (err e, l) f = (err e, l)

infixl 5 ◌>>=◌ ◌>>◌
abbrev pub ◌>>=◌ : {A B : Type 0} → M A → (A → M B) → M B
◌>>=◌ m f l = then_on (m l) f

abbrev pub ◌>>◌ : {B : Type 0} → M (Unit {0}) → M B → M B
◌>>◌ m k l = then_on (m l) (λ _. k)

abbrev pub pure : {A : Type 0} → A → M A
pure a l = (ok a, l)

abbrev pub fail : {A : Type 0} → Error → M A
fail e l = (err e, l)

abbrev pub guard : Bool → Error → M (Unit {0})
guard true e l = (ok tt, l)
guard false e l = (err e, l)

abbrev pub or_fail : {A : Type 0} → Option A → Error → M A
or_fail none e l = (err e, l)
or_fail (some a) e l = (ok a, l)

abbrev keep_store :
    {A : Type 0} → Ledger → Result StoreError A × Store LedgerKey Value → Result Error A × Ledger
keep_store l (ok a, s) = (ok a, record l { store = s })
keep_store l (err e, s) = (err (store_error e), record l { store = s })

-- A call of the store from within the ledger.
abbrev pub on_store :
    {A : Type 0} → (Store LedgerKey Value → Result StoreError A × Store LedgerKey Value) → M A
on_store f l = keep_store l (f l.store)

-- `if !l.enabled { return ... }`
abbrev pub economy_enabled : M (Unit {0})
economy_enabled l = guard l.enabled economy_disabled l
