-- ===== src/Contract.antt =====
-- contract/go: the interface of the capability kernel, which every gate of the daemon asks.
use cerberus.Base.{ℕ, Option}
use cerberus.Base.Int.{ℤ}
use cerberus.Auth.Grant.{Bytes, ResourceRef}

-- What a holder wants to do, and with which resource; a request may name none.
pub record Request : Type 0 where
  pub op : Bytes
  pub resource : Option ResourceRef

-- `Verify`: `none` allows the request, and `some e` refuses it with e.
pub record CapKernel (E : Type 0) : Type 0 where
  pub verify : ℕ → Request → ℤ → Option E
