-- ===== src/Steps/Step.antt =====
-- src/Steps/Step.cpp and Step.hpp: what every step of a pipeline has, its destinations above all. A
-- destination is a number that stands for the step attached.
use hsqueue.Base.{
  ℕ, zero, suc, ◌+◌, ◌-◌, ◌<◌, ◌≡◌, refl, ap, ◌∙◌, Bool, true, false, ◌&&◌, List, [], ◌∷◌, ◌++◌,
  arith, ◌==◌, if◌then◌else◌, Option, none, some, length, w64, Result, ok, err, configuration_error,
  not_accepted, ◌⊎◌, if_of_true, if_of_false, Bool-cases, inl, inr,
}

pub record Named : Type 0 where
  pub name : List ℕ
  pub target : ℕ

pub record Step : Type 0 where
  pub paused : Bool
  pub stopping : Bool
  pub name : List ℕ
  pub log_stats_on_exit : Bool
  pub primary : Option ℕ
  pub destinations : List Named

abbrev pub make_step : Step
make_step = record {
  paused = false;
  stopping = false;
  name = [];
  log_stats_on_exit = false;
  primary = none;
  destinations = [];
}

abbrev pub same_text : List ℕ → List ℕ → Bool
same_text [] [] = true
same_text [] (d ∷ ds) = false
same_text (c ∷ cs) [] = false
same_text (c ∷ cs) (d ∷ ds) = c == d && same_text cs ds

-- The keys that `configureParameter` knows; `handled` is what the parameter handler answers, where
-- there is one.
pub data Parameter : Type 0 where
  name_key : Option (List ℕ) → Parameter
  log_stats_key : Option Bool → Parameter
  other_key : Option Bool → Parameter

unfoldable pub configure_parameter : Parameter → Step → Bool × Step
configure_parameter (name_key (some text)) s = (true, record s { name = text })
configure_parameter (log_stats_key (some b)) s = (true, record s { log_stats_on_exit = b })
configure_parameter (other_key (some handled)) s = (handled, s)
configure_parameter (other_key none) s = (false, s)
configure_parameter parameter s = (true, s)

abbrev pub configure_all : List Parameter → Step → Bool × Step
configure_all [] s = (true, s)
configure_all (p ∷ ps) s =
    let (known, s') = configure_parameter p s in
    let on = configure_all ps s' in if known then on else (false, s')

-- `configure`: every parameter must be known, and the step must have a name in the end.
unfoldable pub configure : List Parameter → Step → Bool × Step
configure ps s =
    let (known, s') = configure_all ps s in
    if known then (if same_text s'.name [] then (false, s') else (true, s')) else (false, s')

unfoldable pub set_name : List ℕ → Step → Step
set_name text s = record s { name = text }

-- `attachDestination(destination)`
unfoldable pub attach_primary : ℕ → Step → Step
attach_primary target s = record s { primary = some target }

-- `attachDestination(name, destination)`: the first named one is the primary destination too, unless
-- there is one.
unfoldable pub attach_destination : List ℕ → ℕ → Step → Step
attach_destination text target s = record s {
  primary = elim s.primary [ none ↦ some target | some t ↦ some t ];
  destinations = s.destinations ++ record { name = text; target = target } ∷ [];
}

-- A step that does not override `handle` accepts no message.
unfoldable pub handle : Step → Result {0} Unit
handle s = err not_accepted

unfoldable pub pause : Step → Step
pause s = record s { paused = true }

unfoldable pub resume : Step → Step
resume s = record s { paused = false }

unfoldable pub stop : Step → Step
stop s = record s { stopping = true }

unfoldable pub must_have_destination : Step → Result {0} Unit
must_have_destination s = elim s.primary [ none ↦ err configuration_error | some t ↦ ok tt ]

unfoldable pub must_not_have_destination : Step → Result {0} Unit
must_not_have_destination s = elim s.primary [ none ↦ ok tt | some t ↦ err configuration_error ]

-- `~size_t(0)`
abbrev pub no_index : ℕ
no_index = w64 - 1

abbrev pub index_from : List ℕ → List Named → ℕ → ℕ
index_from text [] index = no_index
index_from text (d ∷ ds) index =
    if same_text d.name text then index else index_from text ds (index + 1)

unfoldable pub destination_index : List ℕ → Step → ℕ
destination_index text s = index_from text s.destinations 0

unfoldable pub must_have_named_destination : List ℕ → Step → Result {0} Unit
unfolding destination_index
must_have_named_destination text s =
    if destination_index text s == no_index then err configuration_error else ok tt

-- The destination that `send(name, message)` calls; none is only worth a warning.
abbrev pub find_named : List ℕ → List Named → Option ℕ
find_named text [] = none
find_named text (d ∷ ds) = if same_text d.name text then some d.target else find_named text ds

-- The destination that `send(index, message)` calls.
abbrev pub target_at : List Named → ℕ → Option ℕ
target_at [] index = none
target_at (d ∷ ds) zero = some d.target
target_at (d ∷ ds) (suc index) = target_at ds index

index_from_lem :
    (text : List ℕ) (ds : List Named) (start : ℕ)
    → start + length ds < no_index
    → ((index_from text ds start ≡ no_index) × (find_named text ds ≡ none))
      ⊎ ((k : ℕ) × (index_from text ds start ≡ start + k)
          × (k < length ds)
          × ((t : ℕ) × (find_named text ds ≡ some t) × (target_at ds k ≡ some t)))
index_from_lem text [] start small = inl (refl, refl)
index_from_lem text (d ∷ ds) start small = elim (Bool-cases (same_text d.name text)) [
  | inl here ↦
      inr (0, if_of_true _ _ here ∙ omega arith, omega arith, (d.target, if_of_true _ _ here, refl))
  | inr past ↦ elim (index_from_lem text ds (start + 1) (omega (arith, small))) [
    | inl (a, b) ↦ inl (if_of_false _ _ past ∙ a, if_of_false _ _ past ∙ b)
    | inr (k, a, lt, (t, b, c)) ↦ inr (
      suc k,
      if_of_false _ _ past ∙ a ∙ omega arith,
      omega (arith, lt),
      (t, if_of_false _ _ past ∙ b, c),
    )
  ]
]

-- `destinationIndex` and `mustHaveDestination` agree with `send` by name: either no destination has
-- the name, the index is ~0, and the check throws; or the check passes, and a send by the index goes
-- where a send by the name goes.
pub destination_index_lem :
    (text : List ℕ) (s : Step)
    → length s.destinations < no_index
    → ((find_named text s.destinations ≡ none)
        × (destination_index text s ≡ no_index)
        × (must_have_named_destination text s ≡ err configuration_error))
      ⊎ ((t : ℕ) × (find_named text s.destinations ≡ some t)
          × (target_at s.destinations (destination_index text s) ≡ some t)
          × (must_have_named_destination text s ≡ ok tt))
unfolding destination_index must_have_named_destination
destination_index_lem text s small =
    elim (index_from_lem text s.destinations 0 (omega (arith, small))) [
      | inl (a, b) ↦ inl (b, a, rw a refl)
      | inr (k, a, lt, (t, b, c)) ↦
          let here : index_from text s.destinations 0 ≡ k = a ∙ omega arith in
          inr (
            t,
            b,
            ap (target_at s.destinations) here ∙ c,
            if_of_false {b = index_from text s.destinations 0 == no_index} _ _
                (ground (arith, here, lt, small)),
          )
    ]
