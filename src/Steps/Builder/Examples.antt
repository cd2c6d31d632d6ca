-- ===== src/Steps/Builder/Examples.antt =====
-- A pipe of two steps, the first with a destination of its own that is a pipe of two steps.
use hsqueue.Base.{
  ℕ, ◌==◌, arith, Bool, true, false, if◌then◌else◌, ◌≡◌, refl, ap, ◌∙◌, ◌+◌, List, [], ◌∷◌, ◌++◌,
  none, some, ok, codes,
}
use hsqueue.Steps.Step.{set_name, attach_destination}
use hsqueue.Steps.Configuration.{Nodes, node, nil, cons}
use hsqueue.Steps.Resources.{
  Resources, make_resources, Request, messages, message_size, request_all, add_step,
  request_messages, request_message_size, create_resources, attach_and_validate, calm,
}
use hsqueue.Steps.Resources.Creation.{create_resources_lem}
use hsqueue.Memory.BlockPool.{MemoryPool, cache_aligned_message_size}
use hsqueue.Steps.Builder.{
  Registry, register_maker, make, construct_pipe, Kinds, Builder, make_builder, construct,
  construct_roots,
}
use hsqueue.Steps.Builder.Order.{IsPlain, order_roots, order_pipe, size_pipe, size_roots}
use hsqueue.Steps.Builder.Schedule.{construct_lem}

abbrev named : List ℕ → Nodes → Nodes
named text params = cons (node (codes "name") (some text) nil) params

abbrev step : List ℕ → List ℕ → Nodes → Nodes → Nodes
step key text params rest = cons (node key none (named text params)) rest

abbrev branch : Nodes
branch =
    step (codes "leaker") (codes "l") nil
      (cons (node (codes "comment") none nil) (step (codes "leaker") (codes "m") nil nil))

abbrev tree : Nodes
tree =
    cons
      (node (codes "pipe") none (
        step (codes "source") (codes "a") (cons (node (codes "destination") none branch) nil)
          (step (codes "leaker") (codes "b") nil nil)))
      nil

abbrev registry : Registry
registry = register_maker (codes "source") [] 1 (register_maker (codes "leaker") [] 0 [])

-- The source asks for three messages of 40 bytes.
abbrev requests : List Request
requests = messages 3 ∷ message_size 40 ∷ []

abbrev asked : ℕ → Resources → Resources
asked kind r = if kind == 1 then request_all requests r else r

abbrev kinds : Kinds
kinds = record { registry = registry; own = λ kind key value children. none; requests = asked }

if-steps :
    (c : Bool) (r r' : Resources) → r.steps ≡ r'.steps → (if c then r else r').steps ≡ r'.steps
if-steps true r r' e = e
if-steps false r r' e = refl

request_all-steps : (r : Resources) → (request_all requests r).steps ≡ r.steps
unfolding request_message_size request_messages
request_all-steps r = if-steps _ _ _ refl

kinds-IsPlain : IsPlain kinds
kinds-IsPlain = record {
  asks = λ kind key value children e. refl;
  leaves = λ kind r. if-steps (kind == 1) (request_all requests r) r (request_all-steps r);
}

-- The source is step 0; the two of its destination, 1 and 2, stand before it.
scheduled : order_roots tree 0 ≡ 1 ∷ 2 ∷ 0 ∷ 3 ∷ []
unfolding order_roots order_pipe size_pipe
scheduled = refl

abbrev built : Bool × Builder
built = construct_roots kinds tree (make_builder make_resources)

abbrev used : Resources
used = request_all requests (record make_resources { steps = 1 ∷ 2 ∷ 0 ∷ 3 ∷ [] })

built_lem : (built ≡ (true, built.1)) × (built.1.resources ≡ used)
unfolding construct_roots construct_pipe make register_maker set_name attach_destination add_step
    request_message_size request_messages
built_lem = (refl, refl)

-- The pool that is made.
created :
    (mp : MemoryPool) × (create_resources 100 4096 (λ o. 0) calm used
      ≡ some (attach_and_validate calm mp used))
unfolding request_messages request_message_size
created =
    let r =
      create_resources_lem 100 4096 (λ o. 0) calm requests
        (record make_resources { steps = 1 ∷ 2 ∷ 0 ∷ 3 ∷ [] }) (omega arith) (omega arith)
        (omega arith) (omega arith) (omega arith)
        (unfold cache_aligned_message_size in omega arith) in
    (r.0, r.1)

abbrev left : Resources
left = (attach_and_validate calm created.0 used).1

validated_lem : attach_and_validate calm created.0 used ≡ (ok tt, left)
unfolding request_messages request_message_size
validated_lem = refl

construct_lem_example :
    (construct 100 4096 (λ o. 0) calm kinds tree (make_builder make_resources)
      ≡ some (ok true, record (built.1) { resources = left }))
    × (left.steps ≡ [] ++ order_roots tree 0)
    × (built.1.count ≡ 0 + size_roots tree)
construct_lem_example =
    construct_lem 100 4096 (λ o. 0) calm kinds tree (make_builder make_resources) built.1 left
      kinds-IsPlain built_lem.0
      (ap (create_resources 100 4096 (λ o. 0) calm) built_lem.1 ∙ created.1 ∙ ap some validated_lem)
