-- ===== src/Auth/Gossip.antt =====
-- daemon/auth/gossip.go: revocations that arrive from other nodes. `read` is the JSON decoding of an
-- event's id; a payload that does not decode has none. The subscription is the list of the payloads
-- that came before it ended.
pub mod Union
mod Tests
use cerberus.Base.{ℕ, Bool, true, false, List, [], ◌∷◌, Option, none, some, if◌then◌else◌}
use cerberus.Base.Bytes.{bytes_eq}
use cerberus.Auth.Token.{Bytes, Outside, Backend, Issuer, apply_revocation, revoke}

module _ (out : Outside) (backend : Backend) (read : Bytes → Option Bytes) where
  abbrev pub heard_event : Option Bytes → Issuer out backend → Issuer out backend
  heard_event none i = i
  heard_event (some id) i = if bytes_eq id [] then i else (apply_revocation out backend id i).1

  unfoldable pub gossip_run : List Bytes → Issuer out backend → Issuer out backend
  unfolding apply_revocation
  gossip_run [] i = i
  gossip_run (p ∷ payloads) i = gossip_run payloads (heard_event (read p) i)

  -- What `HookPublish` sends for the ids that the callbacks were given.
  unfoldable pub published : (Bytes → Bytes) → List Bytes → List Bytes
  published marshal_event [] = []
  published marshal_event (id ∷ ids) = marshal_event id ∷ published marshal_event ids
