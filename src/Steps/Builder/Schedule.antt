-- ===== src/Steps/Builder/Schedule.antt =====
-- `Builder::construct` of src/Steps/Builder.cpp schedules the steps of its tree in the order of the tree.
use hsqueue.Base.{
  ℕ, ◌+◌, ◌≡◌, refl, sym, ap, ◌∙◌, subst, Bool, true, List, [], ◌∷◌, ◌++◌, Option, none, some,
  codes, ok,
}
use hsqueue.Steps.Step.{same_text}
use hsqueue.Steps.Configuration.{Nodes, node, nil, cons}
use hsqueue.Steps.Resources.{Resources, StepCalls, add_step, create_resources}
use hsqueue.Steps.Builder.Kept.{create_resources-steps}
use hsqueue.Steps.Builder.{
  construct, then_create, answered, Kinds, Builder, Role, naming, logging, branching, comment,
  unknown, role_of, is_branch, is_comment, is_named, configure_simple, construct_pipe, configure,
  construct_roots, make, new_step, add, attach,
}
use hsqueue.Steps.Builder.Order.{
  is_destination, size_pipe, size_params, order_pipe, order_params, size_roots, order_roots,
  IsPlain,
}
use hsqueue.Steps.Builder.Adds.{
  Adds, nothing-Adds, if-Adds, made-Adds, then-Adds, step-Adds, handled-Adds, comment-Adds,
}

attached-steps :
    (previous : Option ℕ) (i : ℕ) (b : Builder)
    → b.resources.steps ≡ (attach previous i b).resources.steps
attached-steps none i b = refl
attached-steps (some p) i b = refl

attached-count : (previous : Option ℕ) (i : ℕ) (b : Builder) → (attach previous i b).count ≡ b.count
attached-count none i b = refl
attached-count (some p) i b = refl

simple-Adds :
    (own : Option Bool) (role : Role) (i : ℕ) (value : Option (List ℕ)) (b : Builder)
    → Adds [] 0 b (configure_simple own role i value b)
simple-Adds (some known) role i value b = nothing-Adds b _ b refl refl
simple-Adds none naming i value b = nothing-Adds b _ _ refl refl
simple-Adds none logging i value b = nothing-Adds b _ b refl refl
simple-Adds none branching i value b = nothing-Adds b _ b refl refl
simple-Adds none comment i value b = nothing-Adds b _ b refl refl
simple-Adds none unknown i value b = nothing-Adds b _ b refl refl

branch-same :
    (own : Option Bool) (role : Role)
    → (is_branch none role ≡ true → own ≡ none)
    → is_branch own role ≡ is_branch none role
branch-same none role h = refl
branch-same (some known) naming h = refl
branch-same (some known) logging h = refl
branch-same (some known) branching h = cc (h refl)
branch-same (some known) comment h = refl
branch-same (some known) unknown h = refl

configured_steps :
    (k : Kinds)
    → IsPlain k
    → (previous : Option ℕ) (i : ℕ) (b : Builder)
    → b.resources.steps ++ i ∷ [] ≡ (attach previous i (add k i b)).resources.steps
unfolding add_step
configured_steps k plain previous i b =
    ap (λ l. l ++ i ∷ []) (sym (plain.leaves (b.kinds i) b.resources))
    ∙ attached-steps previous i (add k i b)

mutual
  unfolding construct_pipe order_pipe size_pipe

  pipe-Adds :
      (k : Kinds)
      → IsPlain k
      → (nodes : Nodes) (previous : Option ℕ) (b : Builder)
      → Adds (order_pipe nodes b.count) (size_pipe nodes) b (construct_pipe k nodes previous b)
  pipe-Adds k plain nil previous b = nothing-Adds b true b refl refl
  pipe-Adds k plain (cons (node key value params) rest) previous b =
      if-Adds (is_comment key) b (λ skipped. pipe-Adds k plain rest previous b)
        (λ taken. made-Adds (make key k.registry) b _ (λ kind.
          let r = configure k params b.count (new_step kind b) in
          let b' = attach previous b.count (add k b.count r.1) in
          step-Adds kind r (is_named b.count r.1) b b' b.count
            (configured_steps k plain previous b.count r.1)
            (attached-count previous b.count (add k b.count r.1))
            ((params-Adds k plain params b.count (new_step kind b)))
            (λ e.
              subst
                (λ j.
                  Adds (order_pipe rest j) (size_pipe rest) b'
                    (construct_pipe k rest (some b.count) b'))
                e (pipe-Adds k plain rest (some b.count) b'))))

  params-Adds :
      (k : Kinds)
      → IsPlain k
      → (params : Nodes) (i : ℕ) (b : Builder)
      → Adds (order_params params b.count) (size_params params) b (configure k params i b)
  params-Adds k plain nil i b = nothing-Adds b true b refl refl
  params-Adds k plain (cons (node key value children) params) i b =
      let own = k.own (b.kinds i) key value children in
      handled-Adds b _ _ (construct_pipe k children (some i) b)
        (configure_simple own (role_of key) i value b) (order_params params) (size_params params)
        (configure k params i) (is_branch own (role_of key)) (is_destination key)
        (branch-same own (role_of key) (plain.asks (b.kinds i) key value children))
        (pipe-Adds k plain children (some i) b) (simple-Adds own (role_of key) i value b)
        (λ b'. params-Adds k plain params i b')

roots-Adds :
    (k : Kinds)
    → IsPlain k
    → (roots : Nodes) (b : Builder)
    → Adds (order_roots roots b.count) (size_roots roots) b (construct_roots k roots b)
unfolding construct_roots order_roots size_roots
roots-Adds k plain nil b = nothing-Adds b true b refl refl
roots-Adds k plain (cons (node key value children) rest) b =
    if-Adds (same_text key (codes "pipe")) b
      (λ piped.
        then-Adds (construct_pipe k children none b) b (pipe-Adds k plain children none b) (λ j.
          let b' = (construct_pipe k children none b).1 in
          subst (λ j'. Adds (order_roots rest j') (size_roots rest) b' (construct_roots k rest b'))
            j (roots-Adds k plain rest b')))
      (λ other. comment-Adds (is_comment key) b (roots-Adds k plain rest b))

-- If every pipe of the tree can be built and the resources created, `construct` answers true, has made
-- as many steps as the tree has, and has put behind the schedule the steps in the order of the tree: those
-- of a step's own destinations before the step, and what follows it in its pipe after it; if no kind of
-- step answers for `destination` itself, and none schedules steps.
pub construct_lem :
    (sizeof_pool base : ℕ) (links : ℕ → ℕ) (calls : StepCalls) (k : Kinds) (roots : Nodes)
    (b built : Builder) (r : Resources)
    → IsPlain k
    → construct_roots k roots b ≡ (true, built)
    → create_resources sizeof_pool base links calls built.resources ≡ some (ok tt, r)
    → (construct sizeof_pool base links calls k roots b
        ≡ some (ok true, record built { resources = r }))
      × (r.steps ≡ b.resources.steps ++ order_roots roots b.count)
      × (built.count ≡ b.count + size_roots roots)
unfolding construct
construct_lem sizeof_pool base links calls k roots b built r plain e f =
    let h =
      subst (Adds (order_roots roots b.count) (size_roots roots) b) e
        (roots-Adds k plain roots b) in
    (
      ap (then_create (create_resources sizeof_pool base links calls)) e ∙ ap (answered built) f,
      create_resources-steps sizeof_pool base links calls built.resources (ok tt) r f
          ∙ h.scheduled refl,
      h.counted refl,
    )
