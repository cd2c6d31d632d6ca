-- ===== src/Steps/Merge/Stall.antt =====
-- Where `OrderedMerge` of src/StepLibrary/OrderedMerge.cpp does not do what it is for: a message from
-- beyond the window, and a heartbeat that waits for one.
use mathlib.Core.Path.{ap₂}
use hsqueue.Base.{
  ℕ, zero, suc, ◌+◌, ◌-◌, ◌%◌, ◌≤◌, ◌<◌, ◌≡◌, refl, ap, ◌∙◌, Bool, true, false, arith, ltb, ◌==◌,
  if◌then◌else◌, add64, sub32, w32, get_or, set, length, Bool-cases, if_of_true, if_of_false, inl,
  inr, lt→ltb,
}
use hsqueue.Message.{Message, blank, is_empty, move_to}
use hsqueue.Steps.Send.{Destination, returns, loops}
use hsqueue.Steps.Merge.{
  Merge, slot, find_and_publish_gap, catch_up, make_room, place, handle_data_message,
}
use hsqueue.Steps.Merge.Search.{Gapped, find_and_publish_gap-Gapped}

-- The loop of `handleHeartbeat` never ends where nothing is kept, and the number that the last
-- heartbeat saw as the highest kept is still to come: each round finds no gap and changes nothing.
pub catch_up-loops :
    (receive : Destination) (sizeof_gap fuel : ℕ) (s : Merge)
    → sizeof_gap ≤ s.out_message.capacity
    → s.expected + s.look_ahead < w32
    → 0 < s.look_ahead
    → length s.pending ≡ s.look_ahead
    → ((q : ℕ) → is_empty (slot s q) ≡ true)
    → s.expected < s.last_heartbeat_highest
    → catch_up receive sizeof_gap fuel s ≡ loops
catch_up-loops receive sizeof_gap zero s room near window sized none behind = refl
catch_up-loops receive sizeof_gap (suc fuel) s room near window sized none behind =
    if_of_true {b = ltb s.expected s.last_heartbeat_highest} _ _ (lt→ltb _ _ behind)
    ∙ rw e (
        ap (catch_up receive sizeof_gap fuel)
          (if_of_false {b = r.0} _ _ missing ∙ g.unchanged missing)
        ∙ catch_up-loops receive sizeof_gap fuel s room near window sized none behind)
  where
    found : (r : Bool × Merge) × (find_and_publish_gap sizeof_gap s ≡ returns r) × Gapped s r
    found = find_and_publish_gap-Gapped sizeof_gap s room near window sized

    r : Bool × Merge
    r = found.0

    e : find_and_publish_gap sizeof_gap s ≡ returns r
    e = found.1

    g : Gapped s r
    g = found.2

    missing : r.0 ≡ false
    missing = elim (Bool-cases r.0) [
      | inr none' ↦ none'
      | inl some ↦
          let gone : is_empty (get_or s.pending (r.1.expected % s.look_ahead) blank) ≡ true =
            none r.1.expected in
          let there : slot r.1 r.1.expected ≡ get_or s.pending (r.1.expected % s.look_ahead) blank =
            ap₂ (λ l n. get_or l (r.1.expected % n) blank) g.same_pending g.same_window in
          absurd (cc (ap is_empty there, g.full some, gone))
    ]

-- The loop for such a message is not entered.
make_room_idle :
    (receive : Destination) (sizeof_gap fuel sequence : ℕ) (s : Merge) (m : Message)
    → sequence < w32
    → s.expected + s.look_ahead ≤ sequence
    → make_room receive sizeof_gap (suc fuel) sequence s m ≡ returns (s, m)
make_room_idle receive sizeof_gap fuel sequence s m small beyond =
    if_of_false {b = ltb (sub32 sequence s.expected) s.look_ahead} _ _
      (ground (arith, small, beyond))

-- A message from beyond the window is put in its slot at once: the loop that should make room for it
-- runs no round, nothing is sent, and whatever message stood in the slot is gone.
pub handle_data_message_beyond :
    (receive : Destination) (sizeof_gap fuel : ℕ) (s : Merge) (m : Message)
    → 0 < s.expected
    → 0 < s.look_ahead
    → s.expected + s.look_ahead ≤ m.sequence
    → m.sequence < w32
    → (s' : Merge) × (m' : Message) × (handle_data_message receive sizeof_gap (suc fuel) s m
        ≡ returns (s', m'))
      × (s'.sent ≡ s.sent)
      × (s'.expected ≡ s.expected)
      × (s'.pending ≡ set s.pending (m.sequence % s.look_ahead) (move_to m (slot s m.sequence)).1)
unfolding handle_data_message
handle_data_message_beyond receive sizeof_gap fuel s m waits room beyond small = (
  record s {
    pending = set s.pending (m.sequence % s.look_ahead) (move_to m (slot s m.sequence)).1;
    highest_stashed = m.sequence;
    stats = record (s.stats) { future = add64 s.stats.future 1 };
  },
  (move_to m (slot s m.sequence)).0,
  ap (λ u. place receive sizeof_gap (suc fuel) u m) begun
      ∙ if_of_false {b = m.sequence == s.expected} _ _ (ground (arith, beyond, room))
      ∙ if_of_false {b = ltb m.sequence s.expected} _ _ (ground (arith, beyond))
      ∙ if_of_false {b = ltb (m.sequence - s.expected) s.look_ahead} _ _ (ground (arith, beyond))
      ∙ rw (
          make_room_idle receive sizeof_gap fuel m.sequence
            (record s { stats = record (s.stats) { future = add64 s.stats.future 1 } }) m small
            beyond),
  refl,
  refl,
  refl,
)
  where
    begun :
        (if s.expected == 0
          then record s { expected = m.sequence; highest_stashed = m.sequence }
          else s)
        ≡ s
    begun = if_of_false {b = s.expected == 0} _ _ (ground (arith, waits))
