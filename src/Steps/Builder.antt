-- ===== src/Steps/Builder.antt =====
-- src/Steps/Builder.cpp and StepFactory.cpp: pipelines are made from a configuration tree. A step is a
-- number, given in the order in which steps are made. What a step keeps of its own parameters, and its
-- flag `log_stats_on_exit`, are not part of it.
mod Order
mod Adds
mod Kept
mod Schedule
mod Examples
use hsqueue.Base.{
  update, ℕ, zero, suc, ◌+◌, Bool, true, false, not, ◌&&◌, List, [], ◌∷◌, ◌++◌, Option, none, some,
  if◌then◌else◌, ◌==◌, codes, Result, ok, err,
}
use hsqueue.Steps.Step.{Step, make_step, same_text, set_name, attach_destination}
use hsqueue.Steps.Configuration.{Node, Nodes, node, nil, cons}
use hsqueue.Steps.Resources.{Resources, StepCalls, add_step, create_resources}

-- The registry of `StepFactory`: a name, a description, and the kind of step that the maker makes.
pub record RegistryEntry : Type 0 where
  pub key : List ℕ
  pub description : List ℕ
  pub maker : ℕ

abbrev pub Registry : Type 0
Registry = List RegistryEntry

-- An entry of the same name is replaced.
unfoldable pub register_maker : List ℕ → List ℕ → ℕ → Registry → Registry
register_maker key description maker [] =
    record { key = key; description = description; maker = maker } ∷ []
register_maker key description maker (e ∷ es) =
    if same_text e.key key
    then record e { description = description; maker = maker } ∷ es
    else e ∷ register_maker key description maker es

unfoldable pub make : List ℕ → Registry → Option ℕ
make key [] = none
make key (e ∷ es) = if same_text e.key key then some e.maker else make key es

-- What the steps do themselves: the answer of a kind's own `configureParameter` for a node, and none
-- where it asks `Step::configureParameter`; and what a kind asks of the shared resources.
pub record Kinds : Type 0 where
  pub registry : Registry
  pub own : ℕ → List ℕ → Option (List ℕ) → Nodes → Option Bool
  pub requests : ℕ → Resources → Resources

-- `count` steps are made; `kinds` and `steps` are the kind and the base class of each.
pub record Builder : Type 0 where
  pub count : ℕ
  pub kinds : ℕ → ℕ
  pub steps : ℕ → Step
  pub resources : Resources

abbrev pub make_builder : Resources → Builder
make_builder resources = record {
  count = 0;
  kinds = λ _. 0;
  steps = λ _. make_step;
  resources = resources;
}

-- `StepFactory::make` gives a new step.
abbrev pub new_step : ℕ → Builder → Builder
new_step kind b = record b {
  count = b.count + 1;
  kinds = update b.kinds b.count kind;
  steps = update b.steps b.count make_step;
}

abbrev pub change : ℕ → (Step → Step) → Builder → Builder
change i f b = record b { steps = update b.steps i (f (b.steps i)) }

-- `configureResources` and `addStep`.
abbrev pub add : Kinds → ℕ → Builder → Builder
add k i b = record b { resources = add_step i (k.requests (b.kinds i) b.resources) }

-- The step before, if there is one, gets the step as a destination of its name.
abbrev pub attach : Option ℕ → ℕ → Builder → Builder
attach none i b = b
attach (some previous) i b = change previous (attach_destination (b.steps i).name i) b

-- What `Step::configureParameter` and `Builder::configureParameter` make of a key.
pub data Role : Type 0 where
  naming logging branching comment unknown : Role

abbrev pub role_of : List ℕ → Role
role_of key =
    if same_text key (codes "name")
    then naming
    else if same_text key (codes "log_stats_on_exit")
    then logging
    else if same_text key (codes "destination")
    then branching
    else if same_text key (codes "comment")
    then comment
    else unknown

abbrev pub named_by : Option (List ℕ) → List ℕ
named_by none = []
named_by (some text) = text

-- A parameter other than `destination`; a step that answers itself is asked first.
abbrev pub configure_simple : Option Bool → Role → ℕ → Option (List ℕ) → Builder → Bool × Builder
configure_simple (some known) role i value b = (known, b)
configure_simple none naming i value b = (true, change i (set_name (named_by value)) b)
configure_simple none unknown i value b = (false, b)
configure_simple none role i value b = (true, b)

abbrev pub is_comment : List ℕ → Bool
is_comment key = same_text key (codes "comment")

abbrev pub is_named : ℕ → Builder → Bool
is_named i b = not (same_text (b.steps i).name [])

abbrev pub is_branch : Option Bool → Role → Bool
is_branch none branching = true
is_branch _ _ = false

unfoldable mutual
  -- `constructPipe`, from a child on, with the step before it.
  pub construct_pipe : Kinds → Nodes → Option ℕ → Builder → Bool × Builder
  construct_pipe k nil previous b = (true, b)
  construct_pipe k (cons (node key value params) rest) previous b =
      let passed = construct_pipe k rest previous b in
      let i = b.count in
      let done : Bool × Builder = elim (make key k.registry) [
        | none ↦ (false, b)
        | some kind ↦
            let configured = configure k params i (new_step kind b) in
            let on = construct_pipe k rest (some i) (attach previous i (add k i configured.1)) in
            if configured.0 && is_named i configured.1 then on else (false, configured.1)
      ] in
      if is_comment key then passed else done

  -- The parameters of step `i`, in the loop of `Step::configure`.
  pub configure : Kinds → Nodes → ℕ → Builder → Bool × Builder
  configure k nil i b = (true, b)
  configure k (cons (node key value children) params) i b =
      let own = k.own (b.kinds i) key value children in
      let branch = construct_pipe k children (some i) b in
      let simple = configure_simple own (role_of key) i value b in
      let handled = if is_branch own (role_of key) then branch else simple in
      let on = configure k params i handled.1 in if handled.0 then on else (false, handled.1)

-- The loop of `construct`, from a child of the root on.
unfoldable pub construct_roots : Kinds → Nodes → Builder → Bool × Builder
construct_roots k nil b = (true, b)
construct_roots k (cons (node key value children) rest) b =
    let pipe = construct_pipe k children none b in
    let on = construct_roots k rest pipe.1 in
    let passed = construct_roots k rest b in
    let piped = if pipe.0 then on else (false, pipe.1) in
    let other = if is_comment key then passed else (false, b) in
    if same_text key (codes "pipe") then piped else other

-- What `construct` answers after `createResources`: `none` where that does not end.
abbrev pub answered :
    Builder → Option (Result {0} Unit × Resources) → Option (Result {0} Bool × Builder)
answered b none = none
answered b (some (ok done, r)) = some (ok true, record b { resources = r })
answered b (some (err e, r)) = some (err e, record b { resources = r })

abbrev pub then_create :
    (Resources → Option (Result {0} Unit × Resources))
    → Bool × Builder
    → Option (Result {0} Bool × Builder)
then_create create (true, b) = answered b (create b.resources)
then_create create (false, b) = some (ok false, b)

unfoldable pub construct :
    ℕ → ℕ → (ℕ → ℕ) → StepCalls → Kinds → Nodes → Builder → Option (Result {0} Bool × Builder)
construct sizeof_pool base links calls k roots b =
    then_create (create_resources sizeof_pool base links calls) (construct_roots k roots b)
