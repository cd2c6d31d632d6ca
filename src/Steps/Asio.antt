-- ===== src/Steps/Asio.antt =====
-- src/Steps/AsioStep.cpp and AsioStepToMessage.cpp: what steps have that work through boost::asio. The
-- service itself is outside; of it a step has a pointer, or none.
pub mod Service
pub mod Threads
mod Examples
use hsqueue.Base.{ℕ, Bool, true, false, Option, none, some, Result, ok, err}
use hsqueue.Memory.BlockPool.{BlockPool}
use hsqueue.Steps.Copying
use hsqueue.Steps.Copying.{StepToMessage}
use hsqueue.Steps.Resources.{Resources, request_asio_thread}

-- `me_` holds the step itself while it runs.
pub record AsioStep : Type 0 where
  pub has_service : Bool
  pub holds_itself : Bool

abbrev pub make_asio_step : AsioStep
make_asio_step = record { has_service = false; holds_itself = false }

-- `AsioStep::configureResources`: a tenth of a thread.
unfoldable pub configure_resources : Resources → Resources
configure_resources r = request_asio_thread 0 1 r

unfoldable pub attach_resources : Resources → AsioStep → AsioStep
attach_resources r s = record s { has_service = r.has_asio }

-- `validate`, of both: the error for a missing service is made, and not thrown; the base class is not
-- asked.
unfoldable pub validate : AsioStep → Result {0} Unit
validate s = ok tt

unfoldable pub start : AsioStep → AsioStep
start s = record s { holds_itself = true }

unfoldable pub finish : AsioStep → AsioStep
finish s = record s { holds_itself = false }

-- `AsioStepToMessage::configureResources`
unfoldable pub configure_message_resources : Resources → Resources
configure_message_resources r = Copying.configure_resources (request_asio_thread 0 1 r)

-- `AsioStepToMessage::attachResources`
unfoldable pub attach_message_resources :
    Resources
    → Option BlockPool
    → AsioStep
    → StepToMessage
    → Result (AsioStep × Option BlockPool × StepToMessage)
attach_message_resources r pool s to_message = elim (Copying.attach_resources pool to_message) [
  | err e ↦ err e
  | ok (pool', to_message') ↦ ok (record s { has_service = r.has_asio }, pool', to_message')
]
