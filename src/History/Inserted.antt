-- ===== src/History/Inserted.antt =====
-- What an insertion into the rows of finished tasks in runtime_history/src/store.cpp leaves, whatever call of
-- SQLite fails, and the ranks of its percentiles.
use embodied_agent_runtime.Common.{
  Option-cases, inl, inr, Bool, true, false, not, Option, none, some, List, is_some, if◌then◌else◌,
  ◌≡◌, ◌∙◌, refl, sym, ap, subst, arith,
}
use mathlib.Core.Option.{some_inj}
use mathlib.Core.Option
use embodied_agent_runtime.Common.Int.{ℤ, pos, negsuc}
use embodied_agent_runtime.Common.Exec.{
  Result, returned, thrown, exhausted, Exec, pure, throw, gets, change, ◌>>=◌, ◌>>◌, catching,
}
use embodied_agent_runtime.Common.Exec.Ensures.{
  Holds, Ensures, Keeps, bind-Ensures, Keeps-Ensures, weaken-Ensures, if-Ensures, pure-Ensures,
  throw-Ensures, change-Ensures, gets-Ensures, catching-Ensures,
}
use embodied_agent_runtime.Common.Text.{Text, text_eq_refl}
use embodied_agent_runtime.History.Store.{Sqlite}
use embodied_agent_runtime.History.Tasks.{
  TaskRecord, read_task, same_int, same_task, TaskTable, task_of, insert_or_ignore, accepts,
  run_task, step_task, get_unlocked, rollback_tasks, confirm, insert_task, store_insert,
}

-- What stands in the table after an insertion, by whether it reports success: the record, or a row from
-- before it that reads as the record.
abbrev pub Inserted : TaskRecord → List TaskRecord → Bool → List TaskRecord → Type 0
Inserted r old true tasks =
    (tasks ≡ insert_or_ignore r old)
    × ((x : TaskRecord) × (task_of r.task_id tasks ≡ some x)
        × (same_task (if is_some (task_of r.task_id old) then read_task x else x) r ≡ true))
Inserted r old false tasks = tasks ≡ old

same_int_refl : (a : ℤ) → same_int a a ≡ true
same_int_refl (pos n) = ground arith
same_int_refl (negsuc n) = ground arith

same_task_refl : (r : TaskRecord) → same_task r r ≡ true
unfolding same_task
same_task_refl r = ground (
  arith,
  text_eq_refl r.task_id,
  text_eq_refl r.target_id,
  text_eq_refl r.message,
  same_int_refl r.completed_at_ns,
)

-- A new record stands in the table as it is.
fresh-Inserted :
    (r : TaskRecord) (old : List TaskRecord)
    → is_some (task_of r.task_id old) ≡ false
    → Inserted r old true (insert_or_ignore r old)
unfolding task_of
fresh-Inserted r old new =
    (refl, (r, rw new (rw (text_eq_refl r.task_id) refl), rw new (same_task_refl r)))

ignored :
    (r : TaskRecord) (old : List TaskRecord)
    → is_some (task_of r.task_id old) ≡ true
    → insert_or_ignore r old ≡ old
ignored r old there = rw there refl

-- A record whose id was there is accepted as far as the two agree.
held-Inserted :
    (r x : TaskRecord) (old : List TaskRecord) (b : Bool)
    → task_of r.task_id old ≡ some x
    → same_task (read_task x) r ≡ b
    → Inserted r old b (insert_or_ignore r old)
held-Inserted r x old false found e = ignored r old (ap is_some found)
held-Inserted r x old true found e =
    (refl, (x, ap (task_of r.task_id) (ignored r old (ap is_some found)) ∙ found, rw found e))

accepts-Inserted :
    (r : TaskRecord) (old : List TaskRecord) (inserted : Bool) (existing : Option TaskRecord)
    → inserted ≡ not (is_some (task_of r.task_id old))
    → (inserted ≡ false → existing ≡ Option.map read_task (task_of r.task_id old))
    → Inserted r old (accepts r inserted existing) (insert_or_ignore r old)
accepts-Inserted r old true none fresh read = fresh-Inserted r old (ground (arith, fresh))
accepts-Inserted r old true (some x) fresh read = fresh-Inserted r old (ground (arith, fresh))
accepts-Inserted r old false none fresh read = ignored r old (ground (arith, fresh))
accepts-Inserted r old false (some x) fresh read = elim (Option-cases (task_of r.task_id old)) [
  | inl missing ↦ absurd (ground (arith, fresh, missing))
  | inr (y, found) ↦
      let same : read_task y ≡ x = some_inj.0 (sym (read refl ∙ ap (Option.map read_task) found)) in
      held-Inserted r y old (same_task x r) found (ap (λ z. same_task z r) same)
]

abbrev is_returned : {A : Type 0} → Result A → Bool
is_returned (returned a) = true
is_returned (thrown t) = false
is_returned exhausted = false

module _ (q : Sqlite) where
  open q use {World}

  run_task-Keeps : (P : List TaskRecord → Type 0) → Keeps (λ s. P s.tasks) (run_task q)
  unfolding run_task
  run_task-Keeps P = record { at = λ s held. called (q.call s.world).0 (q.call s.world).1 s held }
    where
      called :
          (e : Option Text) (w : World) (s : TaskTable World)
          → P s.tasks
          → Holds
              (λ _ s. P s.tasks)
              (λ s. P s.tasks)
              (elim e [ none ↦ returned tt | some t ↦ thrown t ], record s { world = w })
      called none w s held = held
      called (some t) w s held = held

  step_task-Keeps : (P : List TaskRecord → Type 0) → Keeps (λ s. P s.tasks) (step_task q)
  unfolding step_task
  step_task-Keeps P = record { at = λ s held. held }

  -- After the INSERT, what the transaction knows.
  abbrev Pending : TaskRecord → List TaskRecord → Bool → List TaskRecord → Type 0
  Pending r old inserted tasks =
      (inserted ≡ not (is_some (task_of r.task_id old))) × (tasks ≡ insert_or_ignore r old)

  anyhow :
      {A : Type 0} {m : Exec (TaskTable World) A} {P : TaskTable World → Type 0}
      → Keeps P m
      → Ensures P m (λ _. P) (λ s. Unit {0})
  anyhow k = weaken-Ensures _ (λ s h. h) (λ a s h. h) (λ s h. tt) (Keeps-Ensures k)

  found-Ensures :
      (k : Text) (P : List TaskRecord → Type 0) (failed : Option Text)
      → Ensures
          (λ s. P s.tasks)
          (elim failed [
            | some e ↦ throw e
            | none ↦ gets {S = TaskTable World} (λ s. Option.map read_task (task_of k s.tasks))
          ])
          (λ o s. P s.tasks × (o ≡ Option.map read_task (task_of k s.tasks)))
          (λ s. Unit {0})
  found-Ensures k P none = gets-Ensures _ (λ s h. (h, refl))
  found-Ensures k P (some e) = throw-Ensures e (λ s h. tt)

  get_unlocked-Ensures :
      (k : Text) (P : List TaskRecord → Type 0)
      → Ensures
          (λ s. P s.tasks)
          (get_unlocked q k)
          (λ o s. P s.tasks × (o ≡ Option.map read_task (task_of k s.tasks)))
          (λ s. Unit {0})
  unfolding get_unlocked
  get_unlocked-Ensures k P =
      bind-Ensures _ _ (anyhow (run_task-Keeps P))
        (λ _. bind-Ensures _ _ (anyhow (step_task-Keeps P)) (found-Ensures k P))

  -- The record that stands under the id, if the INSERT was ignored.
  existing-Ensures :
      (r : TaskRecord) (old : List TaskRecord) (inserted : Bool)
      → Ensures
          (λ s. Pending r old inserted s.tasks)
          (if inserted then pure none else get_unlocked q r.task_id)
          (λ o s.
            Pending r old inserted s.tasks
            × (inserted ≡ false → o ≡ Option.map read_task (task_of r.task_id old)))
          (λ s. Unit {0})
  existing-Ensures r old true = pure-Ensures none (λ s h. (h, λ e. absurd cc))
  existing-Ensures r old false =
      weaken-Ensures _ (λ s h. h)
        (λ o s ((c, e), k). (
          (c, e),
          λ _.
              k
              ∙ ap (λ t. Option.map read_task (task_of r.task_id t))
                  (e ∙ ignored r old (ground (arith, c))),
        ))
        (λ s h. h) (get_unlocked-Ensures r.task_id (Pending r old false))

  confirm-Ensures :
      (r : TaskRecord) (old : List TaskRecord)
      → Ensures
          (λ s. s.tasks ≡ old)
          (confirm q r)
          (λ ok s. Inserted r old ok s.tasks)
          (λ s. Unit {0})
  unfolding confirm
  confirm-Ensures r old =
      bind-Ensures _ _
        (gets-Ensures _ {Q = λ b s. (b ≡ not (is_some (task_of r.task_id old))) × (s.tasks ≡ old)}
          (λ s e. (ap (λ x. not (is_some (task_of r.task_id x))) e, e)))
        (λ inserted.
          bind-Ensures _ _
            (change-Ensures _ {Q = λ _ s. Pending r old inserted s.tasks}
              (λ s (c, e). (c, ap (insert_or_ignore r) e)))
            (λ _. bind-Ensures _ _ (existing-Ensures r old inserted) (λ existing.
              bind-Ensures _ _
                (anyhow (
                  run_task-Keeps (λ tasks.
                    Pending r old inserted tasks
                    × (inserted ≡ false
                        → existing ≡ Option.map read_task (task_of r.task_id old)))))
                (λ _. pure-Ensures _ (λ s ((c, e), read).
                  subst (Inserted r old (accepts r inserted existing)) (sym e)
                    (accepts-Inserted r old inserted existing c read))))))

  rollback-Ensures :
      (r : TaskRecord) (old : List TaskRecord) {P : TaskTable World → Type 0}
      → Ensures P (rollback_tasks q old) (λ ok s. Inserted r old ok s.tasks) (λ s. Unit {0})
  unfolding rollback_tasks
  rollback-Ensures r old =
      bind-Ensures _ _ (change-Ensures _ {Q = λ _ s. s.tasks ≡ old} (λ s h. refl))
        (λ _. pure-Ensures false (λ s h. h))

  stepped-Ensures :
      (r : TaskRecord) (old : List TaskRecord) (failed : Option Text)
      → Ensures
          (λ s. s.tasks ≡ old)
          (elim failed [ some e ↦ (do run_task q; rollback_tasks q old) | none ↦ confirm q r ])
          (λ ok s. Inserted r old ok s.tasks)
          (λ s. Unit {0})
  stepped-Ensures r old none = confirm-Ensures r old
  stepped-Ensures r old (some e) =
      bind-Ensures _ _ (anyhow (run_task-Keeps (λ tasks. tasks ≡ old)))
        (λ _. rollback-Ensures r old)

  insert_task-Ensures :
      (r : TaskRecord) (old : List TaskRecord)
      → Ensures
          (λ s. s.tasks ≡ old)
          (insert_task q r old)
          (λ ok s. Inserted r old ok s.tasks)
          (λ s. Unit {0})
  unfolding insert_task
  insert_task-Ensures r old =
      bind-Ensures _ _ (anyhow (run_task-Keeps (λ tasks. tasks ≡ old))) (λ _.
        bind-Ensures _ _ (anyhow (run_task-Keeps (λ tasks. tasks ≡ old))) (λ _.
          bind-Ensures _ _ (anyhow (step_task-Keeps (λ tasks. tasks ≡ old)))
            (stepped-Ensures r old)))

  caught-Ensures :
      (r : TaskRecord) (old : List TaskRecord)
      → Ensures
          (λ s. s.tasks ≡ old)
          (catching (insert_task q r old) (λ e. rollback_tasks q old))
          (λ ok s. Inserted r old ok s.tasks)
          (λ s. Unit {0})
  caught-Ensures r old =
      catching-Ensures _ _ (λ s h. tt) (insert_task-Ensures r old) (λ e. rollback-Ensures r old)

  store_insert-Ensures :
      (r : TaskRecord) (old : List TaskRecord)
      → Ensures
          (λ s. s.tasks ≡ old)
          (store_insert q r)
          (λ ok s. Inserted r old ok s.tasks)
          (λ s. Unit {0})
  unfolding store_insert
  store_insert-Ensures r old = if-Ensures _ _ _ (pure-Ensures false (λ s h. h)) (
      bind-Ensures _ _
        (gets-Ensures _ {Q = λ saved s. (saved ≡ old) × (s.tasks ≡ old)} (λ s e. (e, e)))
        (λ saved. record { at = λ s (c, e). rw c ((caught-Ensures r old).at s e) }))

  returns : (r : TaskRecord) (s : TaskTable World) → is_returned (store_insert q r s).0 ≡ true
  unfolding store_insert insert_task confirm get_unlocked rollback_tasks run_task step_task pure
      throw gets change ◌>>=◌ catching
  returns r s = ground arith

settled :
    {W : Type 0} (r : TaskRecord) (old : List TaskRecord) (x : Result Bool × TaskTable W)
    → is_returned x.0 ≡ true
    → Holds (λ ok s. Inserted r old ok s.tasks) (λ s. Unit {0}) x
    → (ok : Bool) × (x.0 ≡ returned ok) × Inserted r old ok x.1.tasks
settled r old (returned ok, s) h k = (ok, refl, k)
settled r old (thrown t, s) h k = absurd cc
settled r old (exhausted, s) h k = absurd cc

-- Whichever calls of SQLite fail, an insertion returns: true, where the rows are the old ones with the
-- record before them if its task id is new, and the row under the id then agrees with it in every member that
-- `same` compares, an old row as it is read back; or false, where the rows are the old ones.
pub store_insert-Inserted :
    (q : Sqlite) (r : TaskRecord) (s : TaskTable q.World)
    → (ok : Bool) × ((store_insert q r s).0 ≡ returned ok)
      × Inserted r s.tasks ok (store_insert q r s).1.tasks
store_insert-Inserted q r s =
    settled r s.tasks (store_insert q r s) (returns q r s)
      ((store_insert-Ensures q r s.tasks).at s refl)
