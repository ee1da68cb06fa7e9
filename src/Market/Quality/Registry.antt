-- ===== src/Market/Quality/Registry.antt =====
-- `RecoveryEvidenceRegistry` of src/quantiqmt/market/quality.py. The hash of a canonical payload
-- and the two projection checksums are parameters.
use quanti_qmt.Base.{
  String, Bool, true, false, not, ◌||◌, Option, none, some, [], ◌∷◌, Result, ok, err, ◌==◌,
  if◌then◌else◌, string_eq, pair_eq,
}
use quanti_qmt.Base.Dict.{Dict, lookup, insert}
use quanti_qmt.Market.Quality.State.{
  MarketError, QualityState, Value, Payload, get, value_beq, identity_fields, has_values, agree_on,
  raise_if, contract_error, identity_collision, bool, text,
}

pub record RecoveryEvidenceRegistry : Type 0 where
  pub snapshots : Dict String Payload
  pub checkpoints : Dict String Payload
  pub fingerprints : Dict (String × String) String

-- `canonical_sha256`, and `projection_checksum` under the two projections.
pub record Checksums : Type 0 where
  pub canonical_sha256 : Payload → String
  pub snapshot_checksum : Payload → String
  pub checkpoint_checksum : Payload → String

abbrev empty_registry : RecoveryEvidenceRegistry
empty_registry = record { snapshots = []; checkpoints = []; fingerprints = [] }

-- Python's `bool is not True`
abbrev is_true : Value → Bool
is_true (bool true) = true
is_true _ = false

-- The collection that `_register` writes to.
pub data Kind : Type 0 where
  snapshot : Kind
  checkpoint : Kind

abbrev pub kind_name : Kind → String
kind_name snapshot = "snapshot"
kind_name checkpoint = "checkpoint"

-- `destination[identity] = dict(value)`
abbrev pub store : Kind → String → Payload → RecoveryEvidenceRegistry → RecoveryEvidenceRegistry
store snapshot identity value r = record r { snapshots = insert identity value r.snapshots }
store checkpoint identity value r = record r { checkpoints = insert identity value r.checkpoints }

abbrev pub stored : Kind → String → RecoveryEvidenceRegistry → Option Payload
stored snapshot identity r = lookup identity r.snapshots
stored checkpoint identity r = lookup identity r.checkpoints

-- `key = (kind, identity)`
abbrev pub registry_key : Kind → String → String × String
registry_key kind identity = (kind_name kind, identity)

-- The writes of `_register`
abbrev pub taken :
    Kind → String → Payload → String → RecoveryEvidenceRegistry → RecoveryEvidenceRegistry
taken kind identity value fingerprint r =
    store kind identity value
      (record r { fingerprints = insert (registry_key kind identity) fingerprint r.fingerprints })

-- `_register`, given the fingerprint of the value
unfoldable pub register :
    Kind
    → String
    → Payload
    → String
    → RecoveryEvidenceRegistry
    → Result MarketError (Unit {0}) × RecoveryEvidenceRegistry
register kind identity value fingerprint r =
    elim (lookup (registry_key kind identity) r.fingerprints) [
      | some previous ↦
          if previous == fingerprint then (ok tt, r) else (err (identity_collision identity), r)
      | none ↦ (ok tt, taken kind identity value fingerprint r)
    ]

module _ (sums : Checksums) where
  open sums use {canonical_sha256, snapshot_checksum, checkpoint_checksum}

  unfoldable pub register_snapshot :
      String
      → Payload
      → RecoveryEvidenceRegistry
      → Result MarketError (Unit {0}) × RecoveryEvidenceRegistry
  unfolding register
  register_snapshot identity value r =
      if not (value_beq (get "content_checksum" value) (text (snapshot_checksum value)))
        || not (is_true (get "checksum_verified" value))
      then (err (contract_error "recovery Snapshot checksum is invalid"), r)
      else register snapshot identity value (canonical_sha256 value) r

  unfoldable pub register_checkpoint :
      String
      → Payload
      → RecoveryEvidenceRegistry
      → Result MarketError (Unit {0}) × RecoveryEvidenceRegistry
  unfolding register
  register_checkpoint identity value r =
      if not (value_beq (get "checkpoint_checksum" value) (text (checkpoint_checksum value)))
      then (err (contract_error "recovery Checkpoint checksum is invalid"), r)
      else register checkpoint identity value (canonical_sha256 value) r

-- The body of the loop of `verify` on a resolved snapshot or checkpoint.
abbrev pub verify_resolved :
    Payload → QualityState → Payload → Result MarketError (Unit {0}) → Result MarketError (Unit {0})
verify_resolved evidence s resolved rest =
    raise_if (not (has_values resolved (identity_fields s)))
      "resolved recovery object identity mismatch"
      (raise_if (not (agree_on resolved evidence ("source_version" ∷ "quality_version" ∷ [])))
        "resolved recovery object version mismatch" rest)

-- `verify` on the objects that the evidence names
unfoldable pub verify_objects :
    Payload → QualityState → Payload → Payload → Result MarketError (Unit {0})
verify_objects evidence s snap check =
    raise_if (not (value_beq (get "snapshot_checksum" evidence) (get "content_checksum" snap)))
      "recovery Snapshot checksum mismatch"
      (raise_if
        (not (value_beq (get "checkpoint_checksum" evidence) (get "checkpoint_checksum" check)))
        "recovery Checkpoint checksum mismatch"
        (verify_resolved evidence s snap (verify_resolved evidence s check (ok tt))))

-- The lookups of `verify`, when the identities are texts
abbrev pub verify_named :
    Payload
    → QualityState
    → Value
    → Value
    → RecoveryEvidenceRegistry
    → Result MarketError (Unit {0})
verify_named evidence s (text snapshot_id) (text checkpoint_id) r =
    elim (lookup snapshot_id r.snapshots) [
      | none ↦ err (contract_error "recovery evidence identity is unresolved")
      | some snap ↦ elim (lookup checkpoint_id r.checkpoints) [
        | none ↦ err (contract_error "recovery evidence identity is unresolved")
        | some check ↦ verify_objects evidence s snap check
      ]
    ]
verify_named evidence s _ _ r = err (contract_error "recovery evidence identities are missing")

unfoldable pub verify :
    Payload → QualityState → RecoveryEvidenceRegistry → Result MarketError (Unit {0})
unfolding verify_objects
verify evidence s r =
    verify_named evidence s (get "snapshot_identity" evidence) (get "checkpoint_identity" evidence)
      r
