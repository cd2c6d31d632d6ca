-- ===== src/Steps/Send.antt =====
-- `Step::send` of src/Steps/Step.hpp, and how a handler can end. What the destination leaves in a
-- message that it handles is a parameter of each step: a function of what it received before and of
-- the message.
use hsqueue.Base.{List, [], ◌∷◌, ◌++◌, Error, Result, ok, err}
use hsqueue.Message.{Message, set_empty}

abbrev pub Destination : Type 0
Destination = List Message → Message → Message

-- All that the destination has received, and the message after the call.
unfoldable pub send : Destination → List Message → Message → List Message × Message
send receive sent m = (sent ++ m ∷ [], set_empty (receive sent m))

-- A handler returns, throws, or stays in a loop.
pub data Outcome {ℓ} (A : Type ℓ) : Type ℓ where
  returns : A → Outcome A
  throws : Error → Outcome A
  loops : Outcome A

abbrev pub and_then {ℓ κ} : {A : Type ℓ} {B : Type κ} → Outcome A → (A → Outcome B) → Outcome B
and_then (returns a) f = f a
and_then (throws e) f = throws e
and_then loops f = loops

abbrev pub from_result {ℓ} : {A : Type ℓ} → Result A → Outcome A
from_result (ok a) = returns a
from_result (err e) = throws e
