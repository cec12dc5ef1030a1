-- ===== src/History/Drain.antt =====
-- Nothing that runtime_history/src/recorder.cpp accepts is lost, and the order is kept.
use embodied_agent_runtime.Common.{
  ℕ, ◌≤◌, true, false, ◌||◌, none, List, [], ◌∷◌, ◌++◌, length, length-append, leb, ◌≡◌, ◌∙◌, refl,
  sym, ap, subst, arith, inl, inr, Bool-cases,
}
use mathlib.Core.List.{append_assoc, append-nil}
use embodied_agent_runtime.History.Tasks.{TaskRecord}
use embodied_agent_runtime.History.Recorder.{
  JoinState, idle, joining, joined, Recorder, next_join, wake_with, has_records, construct_recorder,
  enqueue, begin_stop, begin_join, end_join, wake, end_write, Step, enqueues, stops, starts_join,
  ends_join, wakes, writes, Reachable, start, after,
}

-- The records accepted are those handed to the write and those in the queue, in order; the queue is within
-- its capacity; and a worker that has returned has nothing left to write.
pub record IsKept (s : Recorder) : Type 0 where
  pub in_order : s.accepted ≡ s.handed ++ s.queue
  pub bounded : length s.queue ≤ s.capacity
  pub drained : s.has_returned ≡ true → (s.queue ≡ []) × (s.in_hand ≡ none) × (s.stopping ≡ true)
  pub returned_if_joined : s.join_state ≡ joined → s.has_returned ≡ true

enqueue-IsKept : (x : TaskRecord) (s : Recorder) → IsKept s → IsKept (enqueue x s).1
unfolding enqueue
enqueue-IsKept x s k = elim (Bool-cases (s.stopping || leb s.capacity (length s.queue))) [
  | inl refused ↦ rw refused k
  | inr taken ↦
      let step : (enqueue x s).1
          ≡ record s { queue = s.queue ++ (x ∷ []); accepted = s.accepted ++ (x ∷ []) } =
        rw taken refl in
      rw step (record {
        in_order = rw k.in_order (append_assoc s.handed s.queue (x ∷ []));
        bounded =
            let room : leb s.capacity (length s.queue) ≡ false = ground (arith, taken) in
            grind (arith, length-append s.queue (x ∷ []));
        drained = λ r. absurd (ground (arith, (k.drained r).2, taken));
        returned_if_joined = k.returned_if_joined;
      })
]

wake_with-IsKept :
    (queue : List TaskRecord) (s : Recorder)
    → s.queue ≡ queue
    → s.has_returned ≡ false
    → s.in_hand ≡ none
    → s.stopping || has_records queue ≡ true
    → IsKept s
    → IsKept (wake_with queue s)
wake_with-IsKept [] s e running free awake k = record {
  in_order = k.in_order;
  bounded = k.bounded;
  drained = λ r. (e, free, ground (arith, awake));
  returned_if_joined = λ j. refl;
}
wake_with-IsKept (front ∷ rest) s e running free awake k = record {
  in_order = k.in_order ∙ rw e (sym (append_assoc s.handed (front ∷ []) rest));
  bounded =
      let whole : length (front ∷ rest) ≤ s.capacity =
        subst (λ queue. length queue ≤ s.capacity) e k.bounded in
      omega arith;
  drained = λ r. absurd (ground (arith, r, running));
  returned_if_joined = k.returned_if_joined;
}

next_join_lem : (j : JoinState) → next_join j ≡ joined → j ≡ joined
next_join_lem idle e = absurd cc
next_join_lem joining e = absurd cc
next_join_lem joined e = refl

next-IsKept : (s t : Recorder) → Step s t → IsKept s → IsKept t
unfolding begin_stop begin_join end_join wake end_write
next-IsKept _ _ (enqueues x s) k = enqueue-IsKept x s k
next-IsKept _ _ (stops s) k = record {
  in_order = k.in_order;
  bounded = k.bounded;
  drained = λ r. let (q, h, _) = k.drained r in (q, h, refl);
  returned_if_joined = k.returned_if_joined;
}
next-IsKept _ _ (starts_join s stopping free) k = record {
  in_order = k.in_order;
  bounded = k.bounded;
  drained = k.drained;
  returned_if_joined = λ j. k.returned_if_joined (next_join_lem s.join_state j);
}
next-IsKept _ _ (ends_join s joining' returned) k = record {
  in_order = k.in_order;
  bounded = k.bounded;
  drained = k.drained;
  returned_if_joined = λ j. returned;
}
next-IsKept _ _ (wakes s running free awake) k =
    wake_with-IsKept s.queue s refl running free awake k
next-IsKept _ _ (writes written x s held) k = record {
  in_order = k.in_order;
  bounded = k.bounded;
  drained = λ r. let (q, h, p) = k.drained r in (q, refl, p);
  returned_if_joined = k.returned_if_joined;
}

reach-IsKept : (capacity : ℕ) (s : Recorder) → Reachable capacity s → IsKept s
unfolding construct_recorder
reach-IsKept capacity _ start = record {
  in_order = refl;
  bounded = omega arith;
  drained = λ r. absurd cc;
  returned_if_joined = λ j. absurd cc;
}
reach-IsKept capacity _ (after s t r step) = next-IsKept s t step (reach-IsKept capacity s r)

-- Whatever the threads do and in whatever order: the records that a recorder has accepted are those that its worker has
-- handed to the write and then those in the queue, in the order of their acceptance; the queue is
-- within its capacity; and once the worker has returned, or was joined, it has been told to stop and every
-- record that was accepted has been handed to the write.
pub Reachable-in_order :
    (capacity : ℕ) (s : Recorder)
    → Reachable capacity s
    → (s.accepted ≡ s.handed ++ s.queue)
      × (length s.queue ≤ s.capacity)
      × (s.has_returned ≡ true → (s.accepted ≡ s.handed) × (s.stopping ≡ true))
      × (s.join_state ≡ joined → s.has_returned ≡ true)
Reachable-in_order capacity s r =
    let k = reach-IsKept capacity s r in
    (
      k.in_order,
      k.bounded,
      λ e.
          let (q, _, p) = k.drained e in
          (k.in_order ∙ ap (λ x. s.handed ++ x) q ∙ append-nil s.handed, p),
      k.returned_if_joined,
    )
