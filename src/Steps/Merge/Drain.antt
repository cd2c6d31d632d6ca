-- ===== src/Steps/Merge/Drain.antt =====
-- What a shutdown does to the messages that are kept: `handleShutdown` of
-- src/StepLibrary/OrderedMerge.cpp.
use mathlib.Core.List.{Perm, append-nil}
use mathlib.Core.List.Perm
use mathlib.Core.Path.{ap₂}
use hsqueue.Base.{
  ℕ, zero, suc, ◌+◌, ◌-◌, ◌*◌, ◌≤◌, ◌<◌, ◌≡◌, inl, inr, refl, sym, ap, ◌∙◌, subst, Bool, true,
  false, List, [], ◌∷◌, ◌++◌, arith, add64, w32, length, Bool-cases, if_of_true, if_of_false,
}
use hsqueue.Message.{Message, is_empty, set_empty}
use hsqueue.Steps.Send.{Destination, Outcome, returns, send}
use hsqueue.Steps.Merge.{
  Merge, slot, publish_next, publish_from, publish_pending_messages, find_and_publish_gap, drain,
  handle_shutdown,
}
use hsqueue.Steps.Merge.Stash.{
  waiting, length-waiting, Moves, Moves-trans, Moves-count, publish_next-Moves, publish_next-count,
  publish_next-IsNear, Published, publish_from-Published,
}
use hsqueue.Steps.Merge.Search.{Gapped, find_and_publish_gap-Gapped}

-- A step that is set up: a slot for each message of the window, room for the gap message, and
-- sequence numbers far enough from 2^32 for the messages that are kept.
pub record IsReady (sizeof_gap : ℕ) (s : Merge) : Type 0 where
  pub window : 0 < s.look_ahead
  pub sized : length s.pending ≡ s.look_ahead
  pub room : sizeof_gap ≤ s.out_message.capacity
  pub near : s.expected + length (waiting s.pending) * (s.look_ahead + 1) + s.look_ahead < w32

abbrev count_gap : Merge → Merge
count_gap s = record s {
  stats = record (s.stats) { shutdown_published_gap = add64 s.stats.shutdown_published_gap 1 };
}

Gapped-Moves : {s : Merge} {r : Bool × Merge} → Gapped s r → Moves s (count_gap r.1)
Gapped-Moves {s = s} g = record {
  moved = [];
  delivered = g.same_sent ∙ sym (append-nil _);
  kept = subst (λ l. Perm (waiting s.pending) (waiting l)) (sym g.same_pending) Perm.rfl;
  same_window = g.same_window;
  same_room = g.same_capacity;
  same_length = ap length g.same_pending;
}

module _ (receive : Destination) (sizeof_gap : ℕ) where
  record Drained (s : Merge) (r : Outcome Merge) : Type 0 where
    last : Merge
    returned : r ≡ returns last
    moves : Moves s last
    nothing : length (waiting last.pending) ≡ 0

  publish_pending_messages-Published :
      (s : Merge)
      → length s.pending ≡ s.look_ahead
      → is_empty (slot s s.expected) ≡ false
      → s.expected + length (waiting s.pending) * (s.look_ahead + 1) < w32
      → Published receive s (publish_pending_messages receive s)
        × (length (waiting (publish_pending_messages receive s).pending)
            < length (waiting s.pending))
  unfolding publish_pending_messages
  publish_pending_messages-Published s sized full near =
      let p =
        publish_from-Published receive k (publish_next receive s)
          (omega (arith, length-waiting s.pending, first, some))
          (publish_next-IsNear receive s full near) in
      subst (λ u. Published receive s u × (length (waiting u.pending) < length (waiting s.pending)))
        (sym (ap (λ n. publish_from receive n s) some ∙ if_of_false _ _ full))
        (
          record {
            moves = Moves-trans (publish_next-Moves receive s full) p.moves;
            exhausted = p.exhausted;
            near = p.near;
          },
          omega (arith, first, Moves-count receive p.moves),
        )
    where
      first : length (waiting s.pending) ≡ suc (length (waiting (publish_next receive s).pending))
      first = publish_next-count receive s full

      k : ℕ
      k = length s.pending - 1

      some : length s.pending ≡ suc k
      some = omega (arith, length-waiting s.pending, first)

  drain-Drained :
      (fuel : ℕ) (s : Merge)
      → length (waiting s.pending) < fuel
      → IsReady sizeof_gap s
      → Drained s (drain receive sizeof_gap fuel s)
  drain-Drained zero s enough k = absurd (omega (arith, enough))
  drain-Drained (suc fuel) s enough k = elim (Bool-cases r.0) [
    | inr done ↦ record {
      last = r.1;
      returned = rw e (if_of_false _ _ done);
      moves = uncounted (Gapped-Moves g);
      nothing = ap (λ l. length (waiting l)) g.same_pending ∙ g.empty done;
    }
    | inl more ↦
        let (p, fewer) =
          publish_pending_messages-Published (count_gap r.1)
            (ap length g.same_pending ∙ k.sized ∙ sym g.same_window) (g.full more)
            (weakly same g.same_window) in
        let m = Moves-trans (Gapped-Moves g) p.moves in
        let d =
          drain-Drained fuel (publish_pending_messages receive (count_gap r.1))
            (omega (arith, enough, fewer, same))
            (record {
              window = omega (arith, m.same_window, k.window);
              sized = m.same_length ∙ k.sized ∙ sym m.same_window;
              room = omega (arith, m.same_room, k.room);
              near = p.near;
            }) in
        record {
          last = d.last;
          returned = rw e (if_of_true _ _ more ∙ d.returned);
          moves = Moves-trans m d.moves;
          nothing = d.nothing;
        }
  ]
    where
      found : (r : Bool × Merge) × (find_and_publish_gap sizeof_gap s ≡ returns r) × Gapped s r
      found =
          find_and_publish_gap-Gapped sizeof_gap s k.room (omega (arith, k.near)) k.window k.sized

      r : Bool × Merge
      r = found.0

      e : find_and_publish_gap sizeof_gap s ≡ returns r
      e = found.1

      g : Gapped s r
      g = found.2

      same : length (waiting (count_gap r.1).pending) ≡ length (waiting s.pending)
      same = ap (λ l. length (waiting l)) g.same_pending

      uncounted : Moves s (count_gap r.1) → Moves s r.1
      uncounted m = record {
        moved = m.moved;
        delivered = m.delivered;
        kept = m.kept;
        same_window = m.same_window;
        same_room = m.same_room;
        same_length = m.same_length;
      }

      weakly :
          length (waiting (count_gap r.1).pending) ≡ length (waiting s.pending)
          → r.1.look_ahead ≡ s.look_ahead
          → r.1.expected + length (waiting r.1.pending) * (r.1.look_ahead + 1) < w32
      weakly e1 e2 =
          let bound : r.1.expected + length (waiting s.pending) * (s.look_ahead + 1) < w32 =
            omega (arith, k.near, g.close) in
          subst (λ n. r.1.expected + n < w32) (ap₂ (λ a b. a * (b + 1)) (sym e1) (sym e2)) bound

-- A shutdown is forwarded, and before it all the messages that were kept, each once; the loop ends
-- and nothing is kept. There must be room for the gap message in the output message.
pub handle_shutdown-Drained :
    (receive : Destination) (sizeof_gap : ℕ) (s : Merge) (m : Message)
    → IsReady sizeof_gap s
    → (s' : Merge) × (m' : Message) × (out : List Message) × (handle_shutdown receive sizeof_gap s m
        ≡ returns (s', m'))
      × (s'.sent ≡ (s.sent ++ out) ++ m ∷ [])
      × Perm (waiting s.pending) out
      × (waiting s'.pending ≡ [])
      × (is_empty m' ≡ true)
unfolding handle_shutdown send set_empty is_empty
handle_shutdown-Drained receive sizeof_gap s m k =
    let d =
      drain-Drained receive sizeof_gap (suc (length s.pending)) s
        (omega (arith, length-waiting s.pending)) k in
    let gone = is_nil _ d.nothing in
    (
      record (d.last) { sent = d.last.sent ++ m ∷ [] },
      set_empty (receive d.last.sent m),
      d.moves.moved,
      rw (d.returned),
      ap (λ l. l ++ m ∷ []) d.moves.delivered,
      subst (Perm (waiting s.pending)) (ap (λ l. d.moves.moved ++ l) gone ∙ append-nil _)
          d.moves.kept,
      gone,
      refl,
    )
  where
    is_nil : (l : List Message) → length l ≡ 0 → l ≡ []
    is_nil [] e = refl
    is_nil (x ∷ l) e = absurd (omega (arith, e))
