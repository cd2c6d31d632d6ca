-- ===== src/Steps/Builder/Order.antt =====
-- The steps of a configuration tree of src/Steps/Builder.cpp, counted and in the order in which they are
-- scheduled.
use hsqueue.Base.{ℕ, ◌+◌, ◌≡◌, Bool, true, List, [], ◌∷◌, ◌++◌, Option, none, if◌then◌else◌, codes}
use hsqueue.Steps.Step.{same_text}
use hsqueue.Steps.Configuration.{Nodes, node, nil, cons}
use hsqueue.Steps.Resources.{Resources}
use hsqueue.Steps.Builder.{Kinds, role_of, is_branch, is_comment}

abbrev pub is_destination : List ℕ → Bool
is_destination key = is_branch none (role_of key)

-- The number of steps of a pipe and of a step's parameters.
unfoldable mutual
  pub size_pipe : Nodes → ℕ
  size_pipe nil = 0
  size_pipe (cons (node key value params) rest) =
      let here = 1 + size_params params + size_pipe rest in
      let passed = size_pipe rest in if is_comment key then passed else here

  pub size_params : Nodes → ℕ
  size_params nil = 0
  size_params (cons (node key value children) params) =
      let branch = size_pipe children + size_params params in
      let passed = size_params params in if is_destination key then branch else passed

-- The steps of a pipe that is made from step `n` on: those of a step's destinations stand before the
-- step, and the ones that follow it stand after it.
unfoldable mutual
  pub order_pipe : Nodes → ℕ → List ℕ
  order_pipe nil n = []
  order_pipe (cons (node key value params) rest) n =
      let below = order_params params (n + 1) in
      let after = order_pipe rest (n + 1 + size_params params) in
      let passed = order_pipe rest n in
      if is_comment key then passed else (below ++ n ∷ []) ++ after

  pub order_params : Nodes → ℕ → List ℕ
  order_params nil n = []
  order_params (cons (node key value children) params) n =
      let below = order_pipe children n in
      let after = order_params params (n + size_pipe children) in
      let passed = order_params params n in if is_destination key then below ++ after else passed

-- The steps of all pipes, that are made from step `n` on.
unfoldable pub size_roots : Nodes → ℕ
size_roots nil = 0
size_roots (cons (node key value children) rest) =
    let here = size_pipe children + size_roots rest in
    let passed = size_roots rest in if same_text key (codes "pipe") then here else passed

unfoldable pub order_roots : Nodes → ℕ → List ℕ
order_roots nil n = []
order_roots (cons (node key value children) rest) n =
    let after = order_roots rest (n + size_pipe children) in
    let passed = order_roots rest n in
    if same_text key (codes "pipe") then order_pipe children n ++ after else passed

-- No kind of step answers for a parameter `destination` itself, and none schedules steps.
pub record IsPlain (k : Kinds) : Type 0 where
  pub asks :
      (kind : ℕ) (key : List ℕ) (value : Option (List ℕ)) (children : Nodes)
      → is_destination key ≡ true
      → k.own kind key value children ≡ none
  pub leaves : (kind : ℕ) (r : Resources) → (k.requests kind r).steps ≡ r.steps
