-- ===== src/Order/TradeExamples.antt =====
-- The theorems about effects and facts at concrete orders, with the orders and runs
-- (src/quantiqmt/order/domain/model.py).
use quanti_qmt.Order.Trace.{Input, run}
use quanti_qmt.Order.Replay.{run-replay}
use quanti_qmt.Base.{
  List, ◌∷◌, [], ◌+◌, ◌≤◌, ◌≡◌, refl, true, false, Option, none, some, ok, err, String, List, [],
  ◌∷◌, arith, ◌⊎◌,
}
use quanti_qmt.Base.Dict.{lookup, insert}
use quanti_qmt.Order.States.{
  OrderState, OrderEvent, OrderAction, is_fact_event, is_normal_report_event,
  is_reconciliation_event,
}
use quanti_qmt.Order.Catalog.{transitions}
use quanti_qmt.Order.Evidence.{
  invalid_order_transition, FactIdentity, identity_eq, ExternalFact, ProcessedFact, GuardEvidence,
  no_evidence, risk_snapshots, expected_version, trading_authority, ReconciliationEvidence,
}
use quanti_qmt.Order.Guards.{guard_passes, guard_failure, validate_trade_guard}
use quanti_qmt.Order.Record.{
  conflicts_of, add_fingerprint, Order, TransitionResult, post_init, candidate, apply_commit,
  next_facts, next_sequences, next_conflicts, processed,
}
use quanti_qmt.Order.Aggregate.{
  commit_guarded, commit, commit_fresh, is_stale, check_reconciliation, check_mismatch,
  check_report, transition_new, repeat_fact, transition,
}
use quanti_qmt.Order.Effects.{Effect, transition-post_init, transition-Effect}

-- What a run of `transition` computes through.
unfoldable pub opened : Unit {0}
unfolding transition transition_new check_report check_mismatch check_reconciliation commit_fresh
    is_stale repeat_fact commit commit_guarded candidate apply_commit guard_passes guard_failure
    transitions next_facts next_sequences next_conflicts lookup insert validate_trade_guard
    is_fact_event is_normal_report_event is_reconciliation_event conflicts_of add_fingerprint
opened = tt

-- An order for 100, in each of some states.
abbrev pub at_state : OrderState → Order
at_state s = record {
  order_id = "order-1";
  quantity = 100;
  state = s;
  cumulative_quantity = 0;
  version = 4;
  processed_facts = [];
  fact_conflicts = [];
  broker_sequences = [];
}

abbrev pub trade : ExternalFact
trade = record {
  identity = record { namespace = "broker"; key = "trade-1" };
  fingerprint = "aa";
  trade_quantity = some 40;
  broker_sequence = some 7;
  stream = some "trades";
}

-- The same identity with another content.
abbrev other_trade : ExternalFact
other_trade = record trade { fingerprint = "bb" }

abbrev pub rest : ExternalFact
rest = record trade {
  identity = record { namespace = "broker"; key = "trade-2" };
  trade_quantity = some 100;
}

abbrev pub too_much : ExternalFact
too_much = record trade { trade_quantity = some 101 }

-- The order after the trade.
abbrev pub traded : Order
traded = record (at_state OrderState.submitted) {
  state = OrderState.partially_filled;
  cumulative_quantity = 40;
  version = 5;
  processed_facts = (trade.identity, processed trade) ∷ [];
  broker_sequences = ("trades", 7) ∷ [];
}

abbrev partial_result : TransitionResult
partial_result = record {
  previous = OrderState.submitted;
  current = OrderState.partially_filled;
  event = OrderEvent.partial_trade;
  action = OrderAction.record_trade;
  version = 5;
}

transition-trade :
    transition (at_state OrderState.submitted) OrderEvent.partial_trade no_evidence (some trade)
    ≡ (ok (some partial_result), traded)
unfolding opened
transition-trade = refl

-- The same identity with another fingerprint suspends the order; the second time it is a no-op.
transition-conflict :
    (transition traded OrderEvent.partial_trade no_evidence (some other_trade)).1.state
    ≡ OrderState.suspended
unfolding opened
transition-conflict = refl

traded-post_init : post_init traded ≡ ok tt
unfolding post_init quanti_qmt.Order.Guards.validate_state_quantity
traded-post_init = refl

transition-post_init_example :
    post_init (transition traded OrderEvent.full_trade no_evidence (some rest)).1 ≡ ok tt
transition-post_init_example =
    transition-post_init traded OrderEvent.full_trade no_evidence (some rest)
      (unfold quanti_qmt.Order.Evidence.fact_is_valid quanti_qmt.Base.blank in refl)
      traded-post_init

transition-Effect_example :
    Effect traded (transition traded OrderEvent.request_cancel no_evidence none)
transition-Effect_example = transition-Effect traded OrderEvent.request_cancel no_evidence none

-- A failed call and a cancellation come between the trade and its second delivery.
abbrev between : List Input
between =
    record { event = OrderEvent.dispatch; evidence = no_evidence; fact = none }
    ∷ record { event = OrderEvent.request_cancel; evidence = no_evidence; fact = none }
    ∷ []

run-replay_example :
    transition (run traded between).1 OrderEvent.full_trade no_evidence (some trade)
    ≡ (ok none, (run traded between).1)
run-replay_example =
    run-replay (at_state OrderState.submitted) traded OrderEvent.partial_trade OrderEvent.full_trade
      no_evidence no_evidence trade partial_result between transition-trade
      (unfold is_fact_event in refl)
