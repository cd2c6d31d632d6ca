-- ===== src/Steps/RoundRobin/Turns.antt =====
-- The turns of src/StepLibrary/RoundRobin.cpp: no destination gets more than one data message more
-- than another.
use hsqueue.Base.{
  ℕ, suc, ◌+◌, ◌/◌, ◌%◌, ◌<◌, ◌≡◌, ◌≢◌, refl, ap, ◌∙◌, false, List, [], ◌∷◌, ◌++◌, if◌then◌else◌,
  ltb, ◌==◌, arith, length, All, w32, sym, add32, split_succ, mod_succ, if_of_false, subst, dec_lt,
}
use native.Mathlib.Nat.{
  add-zero, add-mul-div_right, div-eq_of_lt, mod-eq_of_lt, mod-lt, div_self, mod_self,
}
use hsqueue.Message.{Message, MessageType, heartbeat, shutdown}
use hsqueue.Steps.Copying.{Receiver, Deliveries, send_to}
use hsqueue.Steps.RoundRobin.{RoundRobin, handle, handle_kind, handle_data, handle_all}

-- How many deliveries went to a destination.
abbrev pub received : ℕ → Deliveries → ℕ
received d [] = 0
received d ((index, p) ∷ l) = (if index == d then 1 else 0) + received d l

received-append : (d : ℕ) (l k : Deliveries) → received d (l ++ k) ≡ received d l + received d k
received-append d [] k = omega arith
received-append d (x ∷ l) k = omega (arith, received-append d l k)

-- A destination's part of the first so many messages: one of each full round, and one of the last
-- round where its turn came.
unfoldable pub share : ℕ → ℕ → ℕ → ℕ
share count d n = n / count + (if ltb d (n % count) then 1 else 0)

module _ (count n : ℕ) where
  div_step : 0 < count → (n + 1) / count ≡ (n % count + 1) / count + n / count
  div_step pos =
      ap (λ k. k / count) (split_succ count n) ∙ add-mul-div_right (n % count + 1) (n / count) pos

  share_step :
      (d : ℕ)
      → 0 < count
      → d < count
      → share count d (n + 1) ≡ share count d n + (if n % count == d then 1 else 0)
  unfolding share
  share_step d pos small = elim (dec_lt (n % count + 1) count) [
    | yes within ↦
        ground (arith, div_step pos, mod_succ count n, div-eq_of_lt within, mod-eq_of_lt within)
    | no past ↦
        let last : n % count + 1 ≡ count = omega (arith, past, mod-lt n pos) in
        ground (
          arith,
          div_step pos,
          mod_succ count n,
          last,
          ap (λ k. k / count) last ∙ div_self pos,
          ap (λ k. k % count) last ∙ mod_self count,
        )
  ]

-- Neither a heartbeat nor a shutdown.
abbrev pub IsData : Message → Type 0
IsData m = (m.kind ≢ heartbeat) × (m.kind ≢ shutdown)

kind_data :
    (kind : MessageType) (receive : Receiver) (s : RoundRobin) (m : Message)
    → kind ≢ heartbeat
    → kind ≢ shutdown
    → handle_kind kind receive s m ≡ handle_data receive s m
kind_data heartbeat receive s m h k = absurd (h refl)
kind_data shutdown receive s m h k = absurd (k refl)
kind_data _ receive s m h k = refl

-- What a data message does.
record Turned (s s' : RoundRobin) (index : ℕ) : Type 0 where
  stopping : s'.stopping ≡ s.stopping
  destinations : s'.destinations ≡ s.destinations
  handled : s'.messages_handled ≡ add32 s.messages_handled 1
  counted :
      (d : ℕ) → received d s'.world.sent ≡ received d s.world.sent + (if index == d then 1 else 0)

handle-Turned :
    (receive : Receiver) (s : RoundRobin) (m : Message)
    → IsData m
    → s.stopping ≡ false
    → 0 < s.destinations
    → Turned s (handle receive s m).1 (s.messages_handled % s.destinations)
unfolding handle send_to
handle-Turned receive s m (h, k) going pos =
    subst (λ r. Turned s r.1 (s.messages_handled % s.destinations))
      (sym (
        if_of_false _ _ going
        ∙ kind_data m.kind receive s m h k
        ∙ if_of_false {b = s.destinations == 0} _ _ (ground arith)))
      (record {
        stopping = refl;
        destinations = refl;
        handled = refl;
        counted = λ d. omega (arith, received-append d s.world.sent _);
      })

-- A run of data messages to a round robin that is not stopping and has destinations: each of these
-- gets its share of all data messages so far, one for each full round and one where the last round
-- has reached it, as long as the count of messages does not wrap.
pub received-handle_all :
    (receive : Receiver) (s : RoundRobin) (ms : List Message) (d : ℕ)
    → All IsData ms
    → s.stopping ≡ false
    → d < s.destinations
    → s.messages_handled + length ms < w32
    → received d (handle_all receive s ms).world.sent + share s.destinations d s.messages_handled
      ≡ received d s.world.sent + share s.destinations d (s.messages_handled + length ms)
received-handle_all receive s [] d all going small fits =
    ap (λ k. received d s.world.sent + share s.destinations d k) (sym (add-zero s.messages_handled))
received-handle_all receive s (m ∷ ms) d (first, more) going small fits =
    let t = handle-Turned receive s m first going (omega arith) in
    let s' = (handle receive s m).1 in
    let one : s'.messages_handled ≡ s.messages_handled + 1 = ground (arith, t.handled) in
    let rest =
      received-handle_all receive s' ms d more (t.stopping ∙ going) (omega (arith, t.destinations))
        (omega (arith, one)) in
    let here =
      subst
        (λ c.
          received d (handle_all receive s' ms).world.sent + share c d s'.messages_handled
          ≡ received d s'.world.sent + share c d (s'.messages_handled + length ms))
        t.destinations rest in
    let shifted =
      subst
        (λ k.
          received d (handle_all receive s' ms).world.sent + share s.destinations d k
          ≡ received d s'.world.sent + share s.destinations d (k + length ms))
        one here in
    let later : share s.destinations d (s.messages_handled + 1 + length ms)
        ≡ share s.destinations d (s.messages_handled + suc (length ms)) =
      ap (share s.destinations d) (omega arith) in
    omega (
      arith,
      shifted,
      t.counted d,
      share_step s.destinations s.messages_handled d (omega arith) small,
      later,
    )
