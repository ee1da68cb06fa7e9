-- ===== src/Persistence/MessageExamples.antt =====
-- The message of a registration, and its place in the outbox
-- (src/quantiqmt/order/application/persistence/messages.py).
use quanti_qmt.Base.{◌≡◌, refl, true, ok}
use quanti_qmt.Base.Int.{pos, negsuc}
use quanti_qmt.Shared.Time.{format_utc}
use quanti_qmt.Persistence.Json.{Fields}
use quanti_qmt.Persistence.ExamplePlatform.{platform}
use quanti_qmt.Persistence.Repository.ExampleData.{first_state, first_commit, start}
use quanti_qmt.Persistence.Messages.{
  envelope, registered_payload, build_order_registered_envelope, build, registered, Prepares,
  prepare_outbox-built, leaves,
}

abbrev message : Fields
message =
    envelope platform "oms.order_registered.v1" first_state.order.order_id 1
      (format_utc platform first_state.registration.registered_at) first_commit.journal
      (registered_payload platform first_state.registration)

builds : build platform (λ _. true) first_commit.journal (registered first_state) ≡ ok message
unfolding build_order_registered_envelope
builds = refl

leaves_some : leaves 100 40 ≡ pos 60
leaves_some = refl

leaves_beyond : leaves 40 42 ≡ negsuc 1
leaves_beyond = refl

prepare_outbox-built_example : Prepares platform start (registered first_state) message
prepare_outbox-built_example =
    prepare_outbox-built platform (λ _. true) first_commit.journal (registered first_state) message
      start builds
