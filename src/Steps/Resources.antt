-- ===== src/Steps/Resources.antt =====
-- src/Steps/SharedResources.cpp: what the steps of a pipeline share, and the order in which they are
-- called. Steps and connections are numbers here; the calls of steps and of the asio service are
-- recorded in the order in which they are made.
pub mod Calls
pub mod Ending
pub mod Creation
use mathlib.Core.List.{append_assoc, append-nil}
use hsqueue.Base.{
  ℕ, ◌+◌, ◌*◌, ◌/◌, ◌%◌, ◌<◌, ◌≤◌, ◌≡◌, sym, ◌∙◌, subst, Bool, true, false, List, [], ◌∷◌, ◌++◌,
  arith, ltb, ◌==◌, if◌then◌else◌, add64, w64, map, Option, none, some, Result, ok, err, Error,
  no_resources, configuration_error, refl, Bool-cases, inl, inr, if_of_true, if_of_false, All,
}
use hsqueue.Memory.BlockPool.{MemoryPool, make_memory_pool, cache_aligned_message_size}
use hsqueue.Memory.BlockPool.Capacity.{Supplies, make_memory_pool_lem}
use hsqueue.Steps.Step.{same_text}

pub data Call : Type 0 where
  attached validated started stopped finished : ℕ → Call
  asio_run : ℕ → Call
  asio_stop asio_join : Call

pub record Queue : Type 0 where
  pub name : List ℕ
  pub connection : ℕ

pub record Resources : Type 0 where
  pub messages_needed : ℕ
  pub largest_message_size : ℕ
  pub tenths_of_asio_threads : ℕ
  pub stopping : Bool
  pub queues : List Queue
  pub steps : List ℕ
  pub pool : Option MemoryPool
  pub has_asio : Bool
  pub calls : List Call

abbrev pub make_resources : Resources
make_resources = record {
  messages_needed = 0;
  largest_message_size = 0;
  tenths_of_asio_threads = 0;
  stopping = false;
  queues = [];
  steps = [];
  pool = none;
  has_asio = false;
  calls = [];
}

unfoldable pub add_step : ℕ → Resources → Resources
add_step step r = record r { steps = r.steps ++ step ∷ [] }

unfoldable pub request_asio_thread : ℕ → ℕ → Resources → Resources
request_asio_thread threads tenths r = record r {
  tenths_of_asio_threads = add64 r.tenths_of_asio_threads (add64 (threads * 10 % w64) tenths);
}

unfoldable pub request_messages : ℕ → Resources → Resources
request_messages count r = record r { messages_needed = add64 r.messages_needed count }

unfoldable pub request_message_size : ℕ → Resources → Resources
request_message_size bytes r =
    if ltb r.largest_message_size bytes then record r { largest_message_size = bytes } else r

abbrev pub put_queue : List ℕ → ℕ → List Queue → List Queue
put_queue text connection [] = record { name = text; connection = connection } ∷ []
put_queue text connection (q ∷ qs) =
    if same_text q.name text
    then record q { connection = connection } ∷ qs
    else q ∷ put_queue text connection qs

abbrev pub get_queue : List ℕ → List Queue → Option ℕ
get_queue text [] = none
get_queue text (q ∷ qs) = if same_text q.name text then some q.connection else get_queue text qs

-- A queue of the same name is replaced.
unfoldable pub add_queue : List ℕ → ℕ → Resources → Resources
add_queue text connection r = record r { queues = put_queue text connection r.queues }

unfoldable pub find_queue : List ℕ → Resources → Option ℕ
find_queue text r = get_queue text r.queues

-- The steps validate one after the other; the first that throws ends it.
abbrev pub validate_all : (ℕ → Bool) → List ℕ → Resources → Result {0} Unit × Resources
validate_all valid [] r = (ok tt, r)
validate_all valid (step ∷ steps) r =
    let r' = record r { calls = r.calls ++ validated step ∷ [] } in
    let on = validate_all valid steps r' in if valid step then on else (err configuration_error, r')

-- What the steps do when they are called: `attachResources` may throw, and leaves the pool as it is
-- after what it took; `validate` passes or throws.
pub record StepCalls : Type 0 where
  pub attach : ℕ → MemoryPool → Result {0} Unit × MemoryPool
  pub valid : ℕ → Bool

-- Steps that never throw and take no block.
abbrev pub calm : StepCalls
calm = record { attach = λ step mp. (ok tt, mp); valid = λ step. true }

-- The steps attach one after the other, each to the pool that those before it left; the first that
-- throws ends it.
abbrev pub attach_all : StepCalls → List ℕ → MemoryPool → Resources → Result {0} Unit × Resources
attach_all k [] mp r = (ok tt, record r { pool = some mp })
attach_all k (step ∷ steps) mp r =
    let r' = record r { calls = r.calls ++ attached step ∷ [] } in
    let (answer, mp') = k.attach step mp in
    elim answer [
      | err e ↦ (err e, record r' { pool = some mp' })
      | ok _ ↦ attach_all k steps mp' r'
    ]

-- The steps validate where all of them could attach.
abbrev pub then_validate :
    StepCalls → List ℕ → Result {0} Unit × Resources → Result {0} Unit × Resources
then_validate k steps (err e, r) = (err e, r)
then_validate k steps (ok _, r) = validate_all k.valid steps r

-- The resources with the pool, before the steps attach.
abbrev pub pooled : Resources → MemoryPool → Resources
pooled r mp = record r { pool = some mp; has_asio = ltb 0 r.tenths_of_asio_threads }

-- The two loops over the steps.
abbrev pub attach_and_validate : StepCalls → MemoryPool → Resources → Result {0} Unit × Resources
attach_and_validate k mp r = then_validate k r.steps (attach_all k r.steps mp (pooled r mp))

-- The result, or the exception, and what is left; `none` for a pool whose construction does not end.
unfoldable pub create_resources :
    ℕ → ℕ → (ℕ → ℕ) → StepCalls → Resources → Option (Result {0} Unit × Resources)
create_resources sizeof_pool base links k r =
    let made = make_memory_pool sizeof_pool base links r.largest_message_size r.messages_needed in
    let rest : Option (Result {0} Unit × Resources) = elim made [
      | err e ↦ some (err e, r)
      | ok none ↦ none
      | ok (some mp) ↦ some (attach_and_validate k mp r)
    ] in
    if r.messages_needed == 0
    then some (err no_resources, r)
    else if r.largest_message_size == 0
    then some (err no_resources, r)
    else rest

abbrev pub reverse_onto : List ℕ → List ℕ → List ℕ
reverse_onto [] l = l
reverse_onto (x ∷ xs) l = reverse_onto xs (x ∷ l)

-- The steps start from the last to the first.
unfoldable pub start : Resources → Resources
start r = record r {
  calls =
      (r.calls
        ++ (if r.has_asio then asio_run ((add64 r.tenths_of_asio_threads 9) / 10) ∷ [] else []))
      ++ map started (reverse_onto r.steps []);
}

unfoldable pub stop : Resources → Resources
stop r = record r {
  calls = (r.calls ++ (if r.has_asio then asio_stop ∷ [] else [])) ++ map stopped r.steps;
  stopping = true;
}

unfoldable pub finish : Resources → Resources
finish r = record r {
  calls = (r.calls ++ (if r.has_asio then asio_join ∷ [] else [])) ++ map finished r.steps;
}

-- What a step asks for while it is configured.
pub data Request : Type 0 where
  messages message_size : ℕ → Request
  asio_threads : ℕ → ℕ → Request

abbrev pub request : Request → Resources → Resources
request (messages count) r = request_messages count r
request (message_size bytes) r = request_message_size bytes r
request (asio_threads threads tenths) r = request_asio_thread threads tenths r

abbrev pub request_all : List Request → Resources → Resources
request_all [] r = r
request_all (q ∷ qs) r = request_all qs (request q r)

abbrev pub total : List Request → ℕ
total [] = 0
total (messages count ∷ qs) = count + total qs
total (message_size bytes ∷ qs) = total qs
total (asio_threads threads tenths ∷ qs) = total qs

-- No request is for more bytes.
abbrev pub IsEnough : ℕ → Request → Type 0
IsEnough size (message_size bytes) = bytes ≤ size
IsEnough size (messages count) = Unit
IsEnough size (asio_threads threads tenths) = Unit
