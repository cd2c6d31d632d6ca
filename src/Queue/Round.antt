-- ===== src/Queue/Round.antt =====
-- The round of a loop of `publish` in src/HighQueue/Producer.cpp that publishes.
use hsqueue.Base.{ℕ, suc, ◌≡◌, ◌≢◌, Bool, true, false, List, ◌∷◌, arith, add64}
use hsqueue.Message.{move_to}
use hsqueue.Wait.{Remaining}
use hsqueue.Queue.Header.{Header, filled, skip, entry_at, set_entry}
use hsqueue.Queue.Producer.{
  Producer, Scene, Tick, Progress, finished, thrown, still_waiting, can_publish, publish_entry,
  notify_consumer, publish_shared, publish_solo,
}

-- The scene after a message is published at `position`.
abbrev pub after_publish : Scene → ℕ → Scene
after_publish s position =
    let e = entry_at s.header position in
    let (m, m') = move_to s.message e.message in
    record s {
      header =
          notify_consumer s.producer
            (record (set_entry s.header position (record { message = m'; status = filled })) {
              publish_position = add64 position 1;
            });
      message = m;
    }

publish_entry_lem :
    (s : Scene) (position : ℕ)
    → (entry_at s.header position).status ≢ skip
    → publish_entry s position ≡ (
        let e = entry_at s.header position in
        let (m, m') = move_to s.message e.message in
        (
          true,
          record s {
            header = set_entry s.header position (record { message = m'; status = filled });
            message = m;
          },
        ))
unfolding publish_entry
publish_entry_lem s position h = ground arith

-- A round of either loop that may publish, does.
pub publish_shared_room :
    (t : Tick) (ts : List Tick) (r : Remaining) (late : Bool) (s : Scene)
    → let (can, p, h) = can_publish s.producer s.header s.header.publish_position in
      can ≡ true
      → (entry_at h s.header.publish_position).status ≢ skip
      → publish_shared (t ∷ ts) r late s
        ≡ finished (after_publish (record s { producer = p; header = h }) s.header.publish_position)
unfolding publish_shared
publish_shared_room t ts r late s can plain =
    rw can (rw (publish_entry_lem (record s { producer = p; header = h }) _ plain))
  where
    p : Producer
    p = (can_publish s.producer s.header s.header.publish_position).1

    h : Header
    h = (can_publish s.producer s.header s.header.publish_position).2

pub publish_solo_room :
    (rounds : ℕ) (ts : List Tick) (s : Scene)
    → s.producer.stopping ≡ false
    → let (can, p, h) = can_publish s.producer s.header s.header.publish_position in
      can ≡ true
      → (entry_at h s.header.publish_position).status ≢ skip
      → publish_solo (suc rounds) ts s
        ≡ finished (after_publish (record s { producer = p; header = h }) s.header.publish_position)
unfolding publish_solo
publish_solo_room rounds ts s going can plain =
    simp (going, can) (rw (publish_entry_lem (record s { producer = p; header = h }) _ plain))
  where
    p : Producer
    p = (can_publish s.producer s.header s.header.publish_position).1

    h : Header
    h = (can_publish s.producer s.header s.header.publish_position).2

-- The scene of a call of `publish`, with the call counted.
abbrev pub counted : Scene → Scene
counted s =
    let p = s.producer in
    record s {
      producer = record p { stats = record (p.stats) { publishes = add64 p.stats.publishes 1 } };
    }

abbrev pub Finishes : (Scene → Type 0) → Progress Scene → Type 0
Finishes P (finished s) = P s
Finishes P (thrown e s) = ⊥
Finishes P (still_waiting s) = ⊥
