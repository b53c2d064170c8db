-- ===== src/Mesh/KeyExpr/Tests.antt =====
-- daemon/mesh/keyexpr.go: the theorems at concrete keys.
use cerberus.Base.{◌≡◌, refl, ℕ, true, false, List, map}
use cerberus.Base.Bytes.{codes, bytes_eq}
use cerberus.Mesh.KeyExpr.{match_key, split_key}
use cerberus.Mesh.KeyExpr.Laws.{Matches, classify, match_key_iff}

abbrev every_peer : List ℕ
every_peer = codes "cerberus/**/telemetry/*"

abbrev one_peer : List ℕ
one_peer = codes "cerberus/a/b/telemetry/p"

wildcards : match_key every_peer one_peer ≡ true
unfolding match_key bytes_eq
wildcards = refl

too_short : match_key every_peer (codes "cerberus/telemetry") ≡ false
unfolding match_key bytes_eq
too_short = refl

match_key_iff_example : Matches (map classify (split_key every_peer)) (split_key one_peer)
match_key_iff_example = (match_key_iff every_peer one_peer).0 wildcards
