-- ===== src/Steps/Asio/Threads.antt =====
-- Every thread that src/Steps/AsioService.cpp starts is joined, once.
use hsqueue.Base.{
  update, ℕ, zero, suc, ◌+◌, ◌-◌, ◌≡◌, ◌≢◌, ◌≤◌, ◌<◌, refl, sym, ap, ◌∙◌, subst, List, [], ◌∷◌,
  ◌++◌, Option, none, some, true, false, ltb, ◌==◌, arith, if_of_true, if_of_false, Bool-cases, inl,
  inr,
}
use mathlib.Core.List.{append_assoc, append-nil}
use hsqueue.Steps.Asio.Service.{
  AsioService, Ends, comes_to_end, join_thread, join_rounds, join_threads, stop_service, grow,
  start_rounds, start_threads,
}

-- The array holds the threads from `first` on, in the order in which they were started, and nothing else.
pub record IsRunning (first : ℕ) (s : AsioService) : Type 0 where
  pub within : s.thread_count ≤ s.thread_capacity
  pub started : s.started ≡ first + s.thread_count
  pub running : (i : ℕ) → i < s.thread_count → s.threads i ≡ some (first + i)
  pub nothing_else : (i : ℕ) → s.thread_count ≤ i → s.threads i ≡ none

-- `n` threads from `first` on, from the last to the first.
abbrev pub down_from : ℕ → ℕ → List ℕ
down_from first zero = []
down_from first (suc n) = (first + n) ∷ down_from first n

update_self : (f : ℕ → Option ℕ) (i : ℕ) (a : Option ℕ) → update f i a i ≡ a
update_self f i a = if_of_true {b = i == i} _ _ (ground arith)

update_ne : (f : ℕ → Option ℕ) (i j : ℕ) (a : Option ℕ) → i ≢ j → update f i a j ≡ f j
update_ne f i j a ne = if_of_false {b = i == j} _ _ (ground (arith, ne))

-- What starting and growing leave.
record Grown (first count : ℕ) (s s' : AsioService) : Type 0 where
  running : IsRunning first s'
  same : s'.joined ≡ s.joined
  counted : s'.thread_count ≡ count

start_rounds-Grown :
    (first rounds : ℕ) (s : AsioService)
    → IsRunning first s
    → s.thread_count + rounds ≤ s.thread_capacity
    → Grown first (s.thread_count + rounds) s (start_rounds rounds s)
start_rounds-Grown first zero s r fits = record { running = r; same = refl; counted = omega arith }
start_rounds-Grown first (suc rounds) s r fits =
    let g = start_rounds-Grown first rounds next next-IsRunning (omega (arith, fits)) in
    record { running = g.running; same = g.same; counted = g.counted ∙ omega arith }
  where
    next : AsioService
    next = record s {
      threads = update s.threads s.thread_count (some s.started);
      thread_count = s.thread_count + 1;
      started = s.started + 1;
    }

    last_or_before : (i : ℕ) → i < s.thread_count + 1 → next.threads i ≡ some (first + i)
    last_or_before i lt = elim (Bool-cases (s.thread_count == i)) [
      | inl here ↦
          let e : s.thread_count ≡ i = ground arith in
          if_of_true _ _ here ∙ ap some (omega (arith, r.started, e))
      | inr before ↦ if_of_false _ _ before ∙ r.running i (ground (arith, lt))
    ]

    next-IsRunning : IsRunning first next
    next-IsRunning = record {
      within = omega (arith, fits);
      started = omega (arith, r.started);
      running = last_or_before;
      nothing_else = λ i le.
          update_ne s.threads s.thread_count i (some s.started) (λ e. omega (arith, le, e))
          ∙ r.nothing_else i (omega (arith, le));
    }

grow-IsRunning :
    (first count : ℕ) (s : AsioService)
    → IsRunning first s
    → s.thread_capacity ≤ count
    → IsRunning first (grow count s)
unfolding grow
grow-IsRunning first count s r le = record {
  within = omega (arith, r.within, le);
  started = r.started;
  running = λ i lt. if_of_true {b = ltb i s.thread_count} _ _ (ground (arith, lt)) ∙ r.running i lt;
  nothing_else = λ i le'. if_of_false {b = ltb i s.thread_count} _ _ (ground (arith, le'));
}

abbrev more : ℕ → ℕ → ℕ
more n count = n + (count - n)

start_threads-Grown :
    (first count : ℕ) (s : AsioService)
    → IsRunning first s
    → Grown first (more s.thread_count count) s (start_threads count s)
unfolding start_threads grow
start_threads-Grown first count s r = elim (Bool-cases (ltb s.thread_capacity count)) [
  | inl larger ↦
      subst
        (λ s'.
          Grown first (more s.thread_count count) s (start_rounds (count - s'.thread_count) s'))
        (sym (if_of_true _ _ larger))
        (let g =
            start_rounds-Grown first (count - s.thread_count) (grow count s)
              (grow-IsRunning first count s r (ground arith)) (ground (arith, r.within, larger)) in
          record { running = g.running; same = g.same; counted = g.counted })
  | inr enough ↦
      subst
        (λ s'.
          Grown first (more s.thread_count count) s (start_rounds (count - s'.thread_count) s'))
        (sym (if_of_false _ _ enough))
        (start_rounds-Grown first (count - s.thread_count) s r (ground (arith, r.within, enough)))
]

record Emptied (first n : ℕ) (s s' : AsioService) : Type 0 where
  all_joined : s'.joined ≡ s.joined ++ down_from first n
  none_left : s'.thread_count ≡ 0
  array_empty : (i : ℕ) → s'.threads i ≡ none
  same_started : s'.started ≡ s.started

module _ (ends : Ends) where
  join_rounds-Emptied :
      (first n : ℕ) (s : AsioService)
      → ((t : ℕ) → ends s.stopping t ≡ true)
      → s.thread_count ≡ n
      → ((i : ℕ) → i < n → s.threads i ≡ some (first + i))
      → ((i : ℕ) → n ≤ i → s.threads i ≡ none)
      → (s' : AsioService) × (join_rounds ends n s ≡ some s') × Emptied first n s s'
  join_rounds-Emptied first zero s ended e running nothing = (
    s,
    refl,
    record {
      all_joined = sym (append-nil _);
      none_left = e;
      array_empty = λ i. nothing i (omega arith);
      same_started = refl;
    },
  )
  join_rounds-Emptied first (suc n) s ended e running nothing =
      let (s', joined, h) =
        join_rounds-Emptied first n next ended (omega (arith, e))
          (λ i lt.
            update_ne s.threads (s.thread_count - 1) i none (λ f. omega (arith, e, lt, f))
            ∙ running i (omega (arith, lt)))
          left in
      (
        s',
        if_of_true _ _ (ap (comes_to_end (ends s.stopping)) last ∙ ended (first + n)) ∙ joined,
        record {
          all_joined =
              h.all_joined
              ∙ ap (λ l. l ++ down_from first n) (ap (λ t. join_thread t s.joined) last)
              ∙ append_assoc s.joined ((first + n) ∷ []) (down_from first n);
          none_left = h.none_left;
          array_empty = h.array_empty;
          same_started = h.same_started;
        },
      )
    where
      next : AsioService
      next = record s {
        thread_count = s.thread_count - 1;
        threads = update s.threads (s.thread_count - 1) none;
        joined = join_thread (s.threads (s.thread_count - 1)) s.joined;
      }

      last : s.threads (s.thread_count - 1) ≡ some (first + n)
      last = ap s.threads {y = n} (omega (arith, e)) ∙ running n (omega arith)

      left : (i : ℕ) → n ≤ i → next.threads i ≡ none
      left i le = elim (Bool-cases (s.thread_count - 1 == i)) [
        | inl here ↦ if_of_true _ _ here
        | inr past ↦ if_of_false _ _ past ∙ nothing i (ground (arith, e, le, past))
      ]

  -- However many threads are asked for, and however many run already: once the service is stopped,
  -- `joinThreads` returns, and it has joined each thread that ran exactly once, the last started
  -- first; none is left in the array, and `startThreads` had started as many as were missing. The
  -- threads of a stopped service must come to their end.
  pub join_threads-start_threads :
      (first count : ℕ) (s : AsioService)
      → ((t : ℕ) → ends true t ≡ true)
      → IsRunning first s
      → let n = s.thread_count + (count - s.thread_count) in
        (s' : AsioService) × (join_threads ends (stop_service (start_threads count s)) ≡ some s')
        × (s'.joined ≡ s.joined ++ down_from first n)
        × (s'.started ≡ first + n)
        × (s'.thread_count ≡ 0)
        × ((i : ℕ) → s'.threads i ≡ none)
  unfolding join_threads stop_service
  join_threads-start_threads first count s ended r =
      let g = start_threads-Grown first count s r in
      let s1 = start_threads count s in
      let (s', joined, h) =
        join_rounds-Emptied first s1.thread_count (stop_service s1) ended refl g.running.running
          g.running.nothing_else in
      (
        s',
        joined,
        h.all_joined
            ∙ ap (λ l. l ++ down_from first s1.thread_count) g.same
            ∙ ap (λ n. s.joined ++ down_from first n) g.counted,
        h.same_started ∙ g.running.started ∙ ap (λ n. first + n) g.counted,
        h.none_left,
        h.array_empty,
      )

  -- Where the service was not stopped and its last thread does not end, `joinThreads` waits forever.
  pub join_threads-waits :
      (first : ℕ) (s : AsioService)
      → IsRunning first s
      → 0 < s.thread_count
      → ends s.stopping (first + (s.thread_count - 1)) ≡ false
      → join_threads ends s ≡ none
  unfolding join_threads
  join_threads-waits first s r running stuck =
      let last = r.running (s.thread_count - 1) (omega (arith, running)) in
      let rounds : s.thread_count ≡ suc (s.thread_count - 1) = omega (arith, running) in
      ap (λ n. join_rounds ends n s) rounds
      ∙ if_of_false _ _ (ap (comes_to_end (ends s.stopping)) last ∙ stuck)
