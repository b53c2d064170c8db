-- ===== src/Auth/Gossip/Tests.antt =====
-- daemon/auth/gossip.go: three payloads, one of them malformed, and the theorem at them.
use cerberus.Base.{zero, suc, ◌≡◌, refl, true, false, ◌||◌, [], ◌∷◌, Option, none, some}
use cerberus.Auth.Token.{Bytes, Outside, Backend, Issuer, in_ids, is_revoked}
use cerberus.Auth.Gossip.{gossip_run}
use cerberus.Auth.Gossip.Union.{ids_of, gossip_run_union}

abbrev no_tokens : Outside
no_tokens = record {
  marshal = λ c. [];
  unmarshal = λ b. none;
  encode = λ b. b;
  decode = λ b. some b;
  sign = λ p. [];
  check = λ p s. false;
  format_uint = λ n. [];
  seconds = λ n. 0;
}

abbrev no_backend : Backend
no_backend = record { State = Unit {0}; is_revoked = λ b id. false; add = λ id b. (true, b) }

abbrev peer : Issuer no_tokens no_backend
peer = record { serial = 0; revoked_ids = (4 ∷ []) ∷ []; durable = none; hooks = 1 }

-- The first byte of a payload is its kind, 1 for an event.
abbrev read_event : Bytes → Option Bytes
read_event [] = none
read_event (zero ∷ id) = none
read_event (suc n ∷ id) = some id

gossip_run_union_example :
    is_revoked no_tokens no_backend
      (gossip_run no_tokens no_backend read_event
        ((1 ∷ 6 ∷ []) ∷ (0 ∷ 7 ∷ []) ∷ (1 ∷ 6 ∷ []) ∷ [])
        peer)
      (6 ∷ [])
    ≡ (is_revoked no_tokens no_backend peer (6 ∷ [])
        || in_ids (ids_of read_event ((1 ∷ 6 ∷ []) ∷ (0 ∷ 7 ∷ []) ∷ (1 ∷ 6 ∷ []) ∷ [])) (6 ∷ []))
gossip_run_union_example =
    gossip_run_union no_tokens no_backend read_event
      ((1 ∷ 6 ∷ []) ∷ (0 ∷ 7 ∷ []) ∷ (1 ∷ 6 ∷ []) ∷ []) peer refl (6 ∷ [])
