-- ===== src/Order/Trades.antt =====
-- How a trade is counted by `Order.transition`
-- (src/quantiqmt/order/domain/model.py).
use quanti_qmt.Base.{ℕ, ◌+◌, ◌≤◌, ◌<◌, ◌≡◌, refl, Bool, true, false, none, some, err, arith}
use quanti_qmt.Base.Dict.{lookup}
use quanti_qmt.Order.States.{
  OrderState, OrderEvent, is_trade_event, is_fact_event, is_normal_report_event,
  is_reconciliation_event,
}
use quanti_qmt.Order.Catalog.{transitions}
use quanti_qmt.Order.Evidence.{invalid_order_transition, GuardEvidence, ExternalFact, identity_eq}
use quanti_qmt.Order.Guards.{guard_passes, validate_trade_guard}
use quanti_qmt.Order.Record.{Order, candidate, apply_commit}
use quanti_qmt.Order.Aggregate.{
  commit_guarded, commit, is_stale, commit_fresh, check_reconciliation, check_mismatch,
  check_report, transition_new, transition,
}

-- The states with rows for the two trade events.
unfoldable pub takes_trades : OrderState → Bool
takes_trades OrderState.submit_unknown = true
takes_trades OrderState.submitted = true
takes_trades OrderState.partially_filled = true
takes_trades OrderState.cancel_pending = true
takes_trades OrderState.cancel_unknown = true
takes_trades OrderState.canceled = true
takes_trades OrderState.expired = true
takes_trades OrderState.rejected = true
takes_trades OrderState.failed = true
takes_trades _ = false

-- The state after a partial trade: a cancellation under way stays under way.
abbrev pub after_partial : OrderState → OrderState
after_partial OrderState.cancel_pending = OrderState.cancel_pending
after_partial OrderState.cancel_unknown = OrderState.cancel_unknown
after_partial _ = OrderState.partially_filled

-- A trade event with a fact that is not known goes straight to the commit.
trade-commit :
    (o : Order) (e : OrderEvent) (ev : GuardEvidence) (f : ExternalFact)
    → is_trade_event e ≡ true
    → lookup f.identity o.processed_facts ≡ none
    → transition o e ev (some f) ≡ commit o e ev (some f) true none
unfolding transition transition_new check_report check_mismatch check_reconciliation commit_fresh
    is_stale is_trade_event is_fact_event is_normal_report_event is_reconciliation_event
trade-commit o OrderEvent.partial_trade ev f t new = rw new (ground arith)
trade-commit o OrderEvent.full_trade ev f t new = rw new (ground arith)
trade-commit o e ev f t new = ground arith

commit-partial :
    (o : Order) (ev : GuardEvidence) (f : ExternalFact) (q : ℕ)
    → f.trade_quantity ≡ some q
    → takes_trades o.state ≡ true
    → 1 ≤ q
    → o.cumulative_quantity + q < o.quantity
    → let o' = (commit o OrderEvent.partial_trade ev (some f) true none).1 in
      (o'.cumulative_quantity ≡ o.cumulative_quantity + q) × (o'.state ≡ after_partial o.state)
unfolding commit transitions guard_passes commit_guarded candidate validate_trade_guard apply_commit
    takes_trades
commit-partial o ev f q tq s pos lt = ground arith

commit-full :
    (o : Order) (ev : GuardEvidence) (f : ExternalFact) (q : ℕ)
    → f.trade_quantity ≡ some q
    → takes_trades o.state ≡ true
    → 1 ≤ q
    → o.cumulative_quantity + q ≡ o.quantity
    → let o' = (commit o OrderEvent.full_trade ev (some f) true none).1 in
      (o'.cumulative_quantity ≡ o.quantity) × (o'.state ≡ OrderState.filled)
unfolding commit transitions guard_passes commit_guarded candidate validate_trade_guard apply_commit
    takes_trades
commit-full o ev f q tq s pos lt = ground arith

commit-overfill :
    (o : Order) (e : OrderEvent) (ev : GuardEvidence) (f : ExternalFact) (q : ℕ)
    → is_trade_event e ≡ true
    → f.trade_quantity ≡ some q
    → o.quantity < o.cumulative_quantity + q
    → commit o e ev (some f) true none ≡ (err invalid_order_transition, o)
unfolding commit transitions guard_passes commit_guarded candidate validate_trade_guard apply_commit
    is_trade_event
commit-overfill o e ev f q t tq lt = ground arith

-- A new trade of a positive quantity, reported in a state that takes trades, has one outcome by its
-- size. If it makes the cumulative quantity less than the order's, `PartialTrade` adds it, and
-- leads to PARTIALLY_FILLED, but for a cancellation under way, which stays under way.
pub transition-partial :
    (o : Order) (ev : GuardEvidence) (f : ExternalFact) (q : ℕ)
    → lookup f.identity o.processed_facts ≡ none
    → f.trade_quantity ≡ some q
    → takes_trades o.state ≡ true
    → 1 ≤ q
    → o.cumulative_quantity + q < o.quantity
    → let o' = (transition o OrderEvent.partial_trade ev (some f)).1 in
      (o'.cumulative_quantity ≡ o.cumulative_quantity + q) × (o'.state ≡ after_partial o.state)
transition-partial o ev f q new tq s pos lt =
    rw (trade-commit o OrderEvent.partial_trade ev f (unfold is_trade_event in refl) new)
      (commit-partial o ev f q tq s pos lt)

-- A new trade of a positive quantity that makes the cumulative quantity the order's, reported as
-- `FullTrade` in a state that takes trades, fills the order.
pub transition-full :
    (o : Order) (ev : GuardEvidence) (f : ExternalFact) (q : ℕ)
    → lookup f.identity o.processed_facts ≡ none
    → f.trade_quantity ≡ some q
    → takes_trades o.state ≡ true
    → 1 ≤ q
    → o.cumulative_quantity + q ≡ o.quantity
    → let o' = (transition o OrderEvent.full_trade ev (some f)).1 in
      (o'.cumulative_quantity ≡ o.quantity) × (o'.state ≡ OrderState.filled)
transition-full o ev f q new tq s pos eq =
    rw (trade-commit o OrderEvent.full_trade ev f (unfold is_trade_event in refl) new)
      (commit-full o ev f q tq s pos eq)

-- A new trade that would take the cumulative quantity past the order's is refused, whichever of the
-- two events reports it, and changes nothing.
pub transition-overfill :
    (o : Order) (e : OrderEvent) (ev : GuardEvidence) (f : ExternalFact) (q : ℕ)
    → is_trade_event e ≡ true
    → lookup f.identity o.processed_facts ≡ none
    → f.trade_quantity ≡ some q
    → o.quantity < o.cumulative_quantity + q
    → transition o e ev (some f) ≡ (err invalid_order_transition, o)
transition-overfill o e ev f q t new tq lt =
    rw (trade-commit o e ev f t new) (commit-overfill o e ev f q t tq lt)
