-- ===== src/Steps/Configuration.antt =====
-- src/Steps/Configuration.cpp and hpp: a tree of named nodes with values. Where a tree comes from is not
-- part of it. `boost::lexical_cast` and `tolower` are parameters: the number that a text stands for, if
-- it stands for one, and the small letter of a character.
use hsqueue.Base.{ℕ, Bool, true, false, ◌||◌, List, map, Option, none, some, if◌then◌else◌, codes}
use hsqueue.Steps.Step.{same_text}

-- A node has a name, a value if it has one, and children.
mutual
  pub data Node : Type 0 where
    node : List ℕ → Option (List ℕ) → Nodes → Node

  pub data Nodes : Type 0 where
    nil : Nodes
    cons : Node → Nodes → Nodes

abbrev pub name_of : Node → List ℕ
name_of (node name value children) = name

abbrev pub text_of : Node → Option (List ℕ)
text_of (node name value children) = value

abbrev pub children_of : Node → Nodes
children_of (node name value children) = children

-- `getValue` for a number, signed, unsigned or floating: whether there is one, and the value.
unfoldable pub get_number {ℓ} : {A : Type ℓ} → (List ℕ → Option A) → A → Node → Bool × A
get_number lexical_cast default_value n = elim (text_of n) [
  | none ↦ (false, default_value)
  | some text ↦ elim (lexical_cast text) [
    | none ↦ (false, default_value)
    | some value ↦ (true, value)
  ]
]

abbrev pub says_yes : List ℕ → Bool
says_yes t =
    same_text t (codes "y")
    || same_text t (codes "yes")
    || same_text t (codes "1")
    || same_text t (codes "t")
    || same_text t (codes "true")

abbrev pub says_no : List ℕ → Bool
says_no t =
    same_text t (codes "n")
    || same_text t (codes "no")
    || same_text t (codes "0")
    || same_text t (codes "f")
    || same_text t (codes "false")

abbrev pub read_bool : List ℕ → Bool → Bool × Bool
read_bool t default_value =
    if says_yes t then (true, true) else if says_no t then (true, false) else (false, default_value)

-- `getValue` for a Boolean.
unfoldable pub get_bool : (ℕ → ℕ) → Bool → Node → Bool × Bool
get_bool tolower default_value n = elim (text_of n) [
  | none ↦ (false, default_value)
  | some text ↦ read_bool (map tolower text) default_value
]
