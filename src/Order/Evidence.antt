-- ===== src/Order/Evidence.antt =====
-- The value objects that a transition is given: identities, facts and evidence
-- (src/quantiqmt/order/domain/model.py). A Python int that the constructor has checked to be
-- non-negative is an ℕ; the constructors themselves take integers and may raise.
use quanti_qmt.Base.{
  ℕ, String, Bool, true, false, ◌&&◌, ◌||◌, not, Option, none, some, Result, ok, err, blank,
  is_none, if◌then◌else◌, Eq, ◌==◌, ◌≡◌, ◌↔◌, arith, ==-refl, ==-true, leb, string_eq,
}
use quanti_qmt.Base.Int.{ℤ, pos, negsuc}
use quanti_qmt.Order.States.{BrokerStatus}

-- The exceptions: `ValueError`, and the classes of `OrderDomainError` by their codes.
pub data Error : Type 0 where
  value_error : Error
  invalid_order_transition : Error  -- QQ-OMS-5002
  order_version_conflict : Error  -- QQ-COMMON-1003
  risk_snapshot_unavailable : Error  -- QQ-RISK-4002

pub record FactIdentity : Type 0 where
  pub namespace : String
  pub key : String

abbrev pub identity_beq : FactIdentity → FactIdentity → Bool
identity_beq a b = a.namespace == b.namespace && a.key == b.key

pub identity_beq_iff : (a b : FactIdentity) → (identity_beq a b ≡ true) ↔ (a ≡ b)
identity_beq_iff a b = (
  (λ h. ground (arith, ==-true a.namespace b.namespace, ==-true a.key b.key)),
  (λ h. ground (arith, ==-refl a.namespace, ==-refl a.key)),
)

-- The `__eq__` that the dataclass derives.
instance abbrev pub identity_eq : Eq FactIdentity
identity_eq = record { same = identity_beq; same_iff = identity_beq_iff }

-- `FactIdentity(namespace, key)`
unfoldable pub fact_identity : String → String → Result Error FactIdentity
fact_identity namespace key =
    if blank namespace || blank key
    then err value_error
    else ok (record { namespace = namespace; key = key })

pub record ExternalFact : Type 0 where
  pub identity : FactIdentity
  pub fingerprint : String
  pub trade_quantity : Option ℕ
  pub broker_sequence : Option ℕ
  pub stream : Option String

-- `not text`, for an optional text
abbrev pub is_falsy : Option String → Bool
is_falsy none = true
is_falsy (some s) = s == ""

-- A trade quantity, if there is one, is positive (`Quantity.require_positive`).
abbrev pub positive_or_none : Option ℕ → Bool
positive_or_none none = true
positive_or_none (some q) = leb 1 q

-- What `ExternalFact.__post_init__` accepts, the sign of the sequence apart.
unfoldable pub fact_is_valid : ExternalFact → Bool
fact_is_valid f =
    not (blank f.fingerprint)
    && positive_or_none f.trade_quantity
    && (is_none f.broker_sequence || not (is_falsy f.stream))

abbrev non_negative : Option ℤ → Result Error (Option ℕ)
non_negative none = ok none
non_negative (some (pos n)) = ok (some n)
non_negative (some (negsuc _)) = err value_error

abbrev check_fact : ExternalFact → Result Error ExternalFact
check_fact f = if fact_is_valid f then ok f else err value_error

-- `ExternalFact(identity, fingerprint, trade_quantity, broker_sequence, stream)`
unfoldable pub external_fact :
    FactIdentity → String → Option ℕ → Option ℤ → Option String → Result Error ExternalFact
unfolding fact_is_valid
external_fact identity fingerprint trade_quantity broker_sequence stream =
    elim (non_negative broker_sequence) [
      | err e ↦ err e
      | ok n ↦ check_fact (record {
        identity = identity;
        fingerprint = fingerprint;
        trade_quantity = trade_quantity;
        broker_sequence = n;
        stream = stream;
      })
    ]

pub record ProcessedFact : Type 0 where
  pub fingerprint : String
  pub trade_quantity : Option ℕ

-- What `ProcessedFact.__post_init__` accepts.
unfoldable pub processed_is_valid : ProcessedFact → Bool
processed_is_valid f = not (blank f.fingerprint) && positive_or_none f.trade_quantity

pub record BrokerReportEvidence : Type 0 where
  pub correlation_count : ℕ
  pub status : BrokerStatus
  pub reported_cumulative : ℕ
  pub leaves_quantity : ℕ
  pub definite : Bool

pub record ReconciliationEvidence : Type 0 where
  pub match_count : ℕ
  pub status : Option BrokerStatus
  pub visibility_window_passed : Bool
  pub repeated_absence_confirmed : Bool
  pub cancel_rejected : Bool

pub record GuardEvidence : Type 0 where
  pub snapshot_ids : Option (String × String × String)
  pub snapshots_usable : Bool
  pub expected_order_version : Option ℕ
  pub is_leader : Bool
  pub fencing_token_valid : Bool
  pub system_trading_allowed : Bool
  pub account_trading_allowed : Bool
  pub broker_report : Option BrokerReportEvidence
  pub reconciliation : Option ReconciliationEvidence

-- `GuardEvidence()`: no field defaults to success.
abbrev pub no_evidence : GuardEvidence
no_evidence = record {
  snapshot_ids = none;
  snapshots_usable = false;
  expected_order_version = none;
  is_leader = false;
  fencing_token_valid = false;
  system_trading_allowed = false;
  account_trading_allowed = false;
  broker_report = none;
  reconciliation = none;
}

-- The class methods of `GuardEvidence`.
abbrev pub risk_snapshots : String → String → String → GuardEvidence
risk_snapshots account portfolio market = record no_evidence {
  snapshot_ids = some (account, portfolio, market);
  snapshots_usable = true;
}

abbrev pub expected_version : ℕ → GuardEvidence
expected_version version = record no_evidence { expected_order_version = some version }

abbrev pub trading_authority : GuardEvidence
trading_authority = record no_evidence {
  is_leader = true;
  fencing_token_valid = true;
  system_trading_allowed = true;
  account_trading_allowed = true;
}
