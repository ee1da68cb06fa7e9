-- ===== src/Order/StateQuantity.antt =====
-- The state that a row leads to and the cumulative quantity under its guard
-- (`_validate_state_quantity` of src/quantiqmt/order/domain/model.py).
use quanti_qmt.Base.{ℕ, ◌≡◌, Bool, true, false, some, ok, arith}
use quanti_qmt.Order.States.{OrderState, OrderEvent, is_trade_event}
use quanti_qmt.Order.Catalog.{Definition, transitions}
use quanti_qmt.Order.Evidence.{GuardEvidence}
use quanti_qmt.Order.Guards.{guard_passes, validate_trade_guard, validate_state_quantity}

-- A transition without a trade.
pub guard-keeps_fit :
    (s : OrderState) (e : OrderEvent) (total cum version : ℕ) (ev : GuardEvidence) (c : Bool)
    (d : Definition)
    → is_trade_event e ≡ false
    → transitions s e ≡ some d
    → guard_passes s total cum version d.guard ev c ≡ true
    → validate_state_quantity s total cum ≡ ok tt
    → validate_state_quantity d.target total cum ≡ ok tt
unfolding is_trade_event transitions guard_passes validate_state_quantity
guard-keeps_fit OrderState.registered e total cum version ev c d nt t g h = ground arith
guard-keeps_fit s e total cum version ev c d nt t g h = ground arith

-- A transition by a trade.
pub trade-keeps_fit :
    (s : OrderState) (e : OrderEvent) (total cum value : ℕ) (d : Definition)
    → is_trade_event e ≡ true
    → transitions s e ≡ some d
    → validate_trade_guard total cum d.guard value ≡ ok tt
    → validate_state_quantity d.target total value ≡ ok tt
unfolding is_trade_event transitions validate_trade_guard validate_state_quantity
trade-keeps_fit OrderState.registered e total cum value d nt t g = ground arith
trade-keeps_fit s e total cum value d nt t g = ground arith
