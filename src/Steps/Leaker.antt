-- ===== src/Steps/Leaker.antt =====
-- src/StepLibrary/Leaker.cpp: a step for tests that discards messages.
use mathlib.Core.List.{append_assoc, append-nil}
use native.Mathlib.Nat.{mod-lt, mod-eq_of_lt, mod_self}
use hsqueue.Base.{
  ltb, refl, if_of_true, if_of_false, mod_succ, ℕ, ◌+◌, ◌%◌, ◌<◌, ◌≡◌, sym, ap, ◌∙◌, Bool, true,
  false, not, List, [], ◌∷◌, ◌++◌, arith, leb, ◌==◌, if◌then◌else◌, add64, w64, length, Bool-cases,
  Option, some, inl, inr, Result, ok, err, configuration_error,
}
use hsqueue.Message.{Message, MessageType, heartbeat, shutdown}
use hsqueue.Steps.Send.{Destination, send}

pub record Leaker : Type 0 where
  pub count : ℕ
  pub every : ℕ
  pub offset : ℕ
  pub leak_heartbeats : Bool
  pub leak_shutdowns : Bool
  pub message_number : ℕ
  pub published : ℕ
  pub leaked : ℕ
  pub sent : List Message

abbrev pub make_leaker : Leaker
make_leaker = record {
  count = 0;
  every = 0;
  offset = 0;
  leak_heartbeats = false;
  leak_shutdowns = false;
  message_number = 0;
  published = 0;
  leaked = 0;
  sent = [];
}

-- The keys of `configureParameter`, with the value that the node gives, if it gives one.
pub data Parameter : Type 0 where
  count_key offset_key every_key : Option ℕ → Parameter
  heartbeats_key shutdowns_key : Option Bool → Parameter
  other_key : Parameter

-- `base` is the answer of `Step::configureParameter`.
unfoldable pub configure_parameter : Parameter → Bool → Leaker → Bool × Leaker
configure_parameter (count_key (some n)) base s = (true, record s { count = n })
configure_parameter (offset_key (some n)) base s = (true, record s { offset = n })
configure_parameter (every_key (some n)) base s = (true, record s { every = n })
configure_parameter (heartbeats_key (some b)) base s = (true, record s { leak_heartbeats = b })
configure_parameter (shutdowns_key (some b)) base s = (true, record s { leak_shutdowns = b })
configure_parameter other_key base s = (base, s)
configure_parameter parameter base s = (false, s)

unfoldable pub validate : Bool → Leaker → Result {0} Unit
validate has_destination s =
    if not has_destination
    then err configuration_error
    else if s.every == 0
    then err configuration_error
    else ok tt

-- Whether a message of the type takes part.
abbrev pub can_leak : MessageType → Bool → Bool → Bool
can_leak kind leak_heartbeats leak_shutdowns = elim kind [
  | heartbeat ↦ leak_heartbeats
  | shutdown ↦ leak_shutdowns
  | _ ↦ true
]

unfoldable pub handle : Destination → Leaker → Message → Leaker × Message
handle receive s m =
    let number = add64 s.message_number 1 in
    let (sent, m') = send receive s.sent m in
    if can_leak m.kind s.leak_heartbeats s.leak_shutdowns
    then if leb s.count (add64 number s.offset % s.every)
      then (record s { message_number = number; published = add64 s.published 1; sent = sent }, m')
      else (record s { message_number = number; leaked = add64 s.leaked 1 }, m)
    else (s, m)

abbrev pub handle_all : Destination → Leaker → List Message → Leaker
handle_all receive s [] = s
handle_all receive s (m ∷ ms) = handle_all receive (handle receive s m).0 ms

-- Heartbeats take part by the one flag, shutdowns by the other, all else always.
abbrev pub takes_part : Bool → Bool → MessageType → Bool
takes_part beats stops heartbeat = beats
takes_part beats stops shutdown = stops
takes_part beats stops _ = true

can_leak-takes_part :
    (kind : MessageType) (beats stops : Bool)
    → can_leak kind beats stops ≡ takes_part beats stops kind
can_leak-takes_part kind beats stops =
    elim kind as (λ k. can_leak k beats stops ≡ takes_part beats stops k) [
      | heartbeat ↦ refl
      | shutdown ↦ refl
      | _ ↦ refl
    ]

-- The messages that take part.
abbrev pub taking_part : Bool → Bool → List Message → List Message
taking_part beats stops [] = []
taking_part beats stops (m ∷ ms) =
    let rest = taking_part beats stops ms in
    if takes_part beats stops m.kind then m ∷ rest else rest

-- The next place in a block of `every` messages, and the first after the last.
abbrev pub next_place : ℕ → ℕ → ℕ
next_place every place = if place + 1 == every then 0 else place + 1

-- Of each block of `every` messages the first `count` are lost; the first message of the list stands
-- at `place` in its block.
abbrev pub let_through : ℕ → ℕ → ℕ → List Message → List Message
let_through count every place [] = []
let_through count every place (m ∷ ms) =
    let rest = let_through count every (next_place every place) ms in
    if ltb place count then rest else m ∷ rest

next_place-mod : (n every : ℕ) → 0 < every → (n + 1) % every ≡ next_place every (n % every)
next_place-mod n every pos = elim (Bool-cases (n % every + 1 == every)) [
  | inl last ↦
      let e : n % every + 1 ≡ every = ground (arith, last) in
      mod_succ every n ∙ ap (λ k. k % every) e ∙ mod_self every ∙ sym (if_of_true _ _ last)
  | inr inside ↦
      let small : n % every + 1 < every = ground (arith, inside, mod-lt n pos) in
      mod_succ every n ∙ mod-eq_of_lt small ∙ sym (if_of_false _ _ inside)
]

-- Of the messages that take part, which are all but the heartbeats and shutdowns whose flags are not
-- set, the leaker sends on those that are not among the first `count` of a block of `every`; the
-- first message of the run stands in its block where the number and the offset put it. Heartbeats
-- and shutdowns that do not take part are neither sent nor counted. `every` is not 0, as `validate`
-- makes sure, and the numbers stay below 2^64.
pub handle_all_lem :
    (receive : Destination) (s : Leaker) (ms : List Message)
    → 0 < s.every
    → s.message_number + s.offset + length ms < w64
    → (handle_all receive s ms).sent
      ≡ s.sent
        ++ let_through s.count s.every
            ((s.message_number + s.offset + 1) % s.every)
            (taking_part s.leak_heartbeats s.leak_shutdowns ms)
unfolding handle send
handle_all_lem receive s [] pos small = sym (append-nil _)
handle_all_lem receive s (m ∷ ms) pos small =
    elim (Bool-cases (takes_part s.leak_heartbeats s.leak_shutdowns m.kind)) [
      | inr out ↦
          simp (can_leak-takes_part m.kind s.leak_heartbeats s.leak_shutdowns, out)
            (handle_all_lem receive s ms pos (omega (arith, small)))
      | inl part ↦ elim (Bool-cases (ltb ((s.message_number + s.offset + 1) % s.every) s.count)) [
        | inr on ↦
            let le : leb s.count ((s.message_number + s.offset + 1) % s.every) ≡ true =
              ground (arith, on) in
            simp (can_leak-takes_part m.kind s.leak_heartbeats s.leak_shutdowns, part, same, on, le)
              (handle_all_lem receive
                  (record s {
                    message_number = add64 s.message_number 1;
                    published = add64 s.published 1;
                    sent = s.sent ++ m ∷ [];
                  })
                  ms pos (omega (arith, small, next))
                ∙ append_assoc s.sent (m ∷ []) _
                ∙ ap (λ k. s.sent ++ m ∷ through k) place)
        | inl off ↦
            let gt : leb s.count ((s.message_number + s.offset + 1) % s.every) ≡ false =
              ground (arith, off) in
            simp
              (can_leak-takes_part m.kind s.leak_heartbeats s.leak_shutdowns, part, same, off, gt)
              (handle_all_lem receive
                  (record s {
                    message_number = add64 s.message_number 1;
                    leaked = add64 s.leaked 1;
                  })
                  ms pos (omega (arith, small, next))
                ∙ ap (λ k. s.sent ++ through k) place)
      ]
    ]
  where
    through : ℕ → List Message
    through k = let_through s.count s.every k (taking_part s.leak_heartbeats s.leak_shutdowns ms)

    next : add64 s.message_number 1 + s.offset ≡ s.message_number + s.offset + 1
    next = omega (arith, small)

    same : add64 (add64 s.message_number 1) s.offset ≡ s.message_number + s.offset + 1
    same = omega (arith, small)

    place :
        (add64 s.message_number 1 + s.offset + 1) % s.every
        ≡ next_place s.every ((s.message_number + s.offset + 1) % s.every)
    place =
        ap (λ n. (n + 1) % s.every) next
        ∙ next_place-mod (s.message_number + s.offset + 1) s.every pos
