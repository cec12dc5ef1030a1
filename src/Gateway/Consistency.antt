-- ===== src/Gateway/Consistency.antt =====
-- What holds of the RequestRegistry of runtime_gateway/src/request_registry.cpp between two calls.
use embodied_agent_runtime.Common.{
  ℕ, ◌≤◌, ◌<◌, true, false, ◌||◌, Option, none, some, List, [], ◌∷◌, length, All, leb, is_some, ◌≡◌,
  refl, ap, arith, inl, inr, Bool-cases, Option-cases,
}
use embodied_agent_runtime.Common.Map.{
  text_key, count, keys, find, erase, emplace, modify, find-count, keys-modify, length-keys,
  count-append, count-remove_first, count-remove_all, count-erase, length-erase, find-erase-none,
}
use embodied_agent_runtime.Common.Text.{Text, text_eq_iff, is_empty}
use embodied_agent_runtime.Gateway.Request.{RequestRecord}
use embodied_agent_runtime.Gateway.Registry.{
  RequestRegistry, has_task, is_finished, evictable, add, evict, insert_new, insert,
  update_terminal, erase_request, clear,
}

-- The task ids of the records.
abbrev pub tasks : List (Text × RequestRecord) → List Text
tasks [] = []
tasks ((id, v) ∷ m) = v.task_id ∷ tasks m

-- Each record stands under its own id, once; the insertion order lists just these ids; no two records
-- share a task; and there are at most `capacity` of them.
pub record IsConsistent (g : RequestRegistry) : Type 0 where
  pub keys_own : All (λ (e : Text × RequestRecord). e.0 ≡ e.1.request_id) g.records
  pub keys_once : (k : Text) → count k (keys g.records) ≤ 1
  pub order_same : (k : Text) → count k g.insertion_order ≡ count k (keys g.records)
  pub tasks_once : (t : Text) → count t (tasks g.records) ≤ 1
  pub bounded : length g.records ≤ g.capacity
  pub positive : 0 < g.capacity

-- Lemmas about the records.
abbrev Own : Text × RequestRecord → Type 0
Own e = e.0 ≡ e.1.request_id

erase-Own : (k : Text) (m : List (Text × RequestRecord)) → All Own m → All Own (erase k m)
unfolding erase
erase-Own k [] h = tt
erase-Own k ((j, v) ∷ m) h = ground (arith, erase-Own k m h.1)

tasks-erase :
    (k t : Text) (m : List (Text × RequestRecord)) → count t (tasks (erase k m)) ≤ count t (tasks m)
unfolding erase count
tasks-erase k t [] = omega arith
tasks-erase k t ((j, v) ∷ m) = ground (arith, tasks-erase k t m)

pub has_task-count :
    (t : Text) (m : List (Text × RequestRecord)) → has_task t m ≡ false → count t (tasks m) ≡ 0
unfolding has_task count
has_task-count t [] h = refl
has_task-count t ((j, v) ∷ m) h =
    ground (arith, text_eq_iff v.task_id t, text_eq_iff t v.task_id, has_task-count t m)

pub evictable-finished :
    (m : List (Text × RequestRecord)) (order : List Text) (id : Text)
    → evictable m order ≡ some id
    → is_finished (find id m) ≡ true
unfolding evictable
evictable-finished m [] id h = cc
evictable-finished m (k ∷ order) id h = ground (arith, evictable-finished m order id)

finished-found : (o : Option RequestRecord) → is_finished o ≡ true → is_some o ≡ true
finished-found none h = h
finished-found (some v) h = refl

module _ (g : RequestRegistry) (h : IsConsistent g) where
  -- Room is made by the eviction of a request that has ended.
  pub evict-IsConsistent :
      (id : Text)
      → is_some (find id g.records) ≡ true
      → IsConsistent (evict id g) × (length (evict id g).records < g.capacity)
  unfolding evict
  evict-IsConsistent id found =
      let fewer : length (erase id g.records) < g.capacity =
        omega (arith, length-erase id g.records, (find-count id g.records).0 found, h.bounded) in
      (
        record {
          keys_own = erase-Own id g.records h.keys_own;
          keys_once = λ k. ground (arith, count-erase k id g.records, h.keys_once k);
          order_same = λ k. ground (
            arith,
            count-erase k id g.records,
            count-remove_first k id g.insertion_order,
            h.order_same k,
            h.keys_once k,
          );
          tasks_once = λ t. omega (arith, tasks-erase id t g.records, h.tasks_once t);
          bounded = omega arith;
          positive = h.positive;
        },
        fewer,
      )

  pub add-IsConsistent :
      (r : RequestRecord)
      → find r.request_id g.records ≡ none
      → has_task r.task_id g.records ≡ false
      → length g.records < g.capacity
      → IsConsistent (add r g)
  unfolding add emplace count
  add-IsConsistent r new free room =
      let absent : count r.request_id (keys g.records) ≡ 0 =
        ground (arith, find-count r.request_id g.records) in
      rw new (record {
        keys_own = (refl, h.keys_own);
        keys_once = λ k. ground (arith, absent, text_eq_iff k r.request_id, h.keys_once k);
        order_same = λ k.
            ground (arith, count-append k g.insertion_order (r.request_id ∷ []), h.order_same k);
        tasks_once = λ t. ground (
          arith,
          has_task-count r.task_id g.records free,
          text_eq_iff t r.task_id,
          h.tasks_once t,
        );
        bounded = room;
        positive = h.positive;
      })

has_task-erase :
    (t k : Text) (m : List (Text × RequestRecord))
    → has_task t m ≡ false
    → has_task t (erase k m) ≡ false
unfolding has_task erase
has_task-erase t k [] h = refl
has_task-erase t k ((j, v) ∷ m) h = ground (arith, has_task-erase t k m)

insert_new-IsConsistent :
    (g : RequestRegistry) (r : RequestRecord)
    → IsConsistent g
    → find r.request_id g.records ≡ none
    → has_task r.task_id g.records ≡ false
    → IsConsistent (insert_new r g).1
unfolding insert_new
insert_new-IsConsistent g r h new free = elim (Bool-cases (leb g.capacity (length g.records))) [
  | inr room ↦ rw room (add-IsConsistent g h r new free (ground arith))
  | inl full ↦ rw full (elim (Option-cases (evictable g.records g.insertion_order)) [
    | inl none_ended ↦ rw none_ended h
    | inr (id, ended) ↦
        let found = finished-found _ (evictable-finished g.records g.insertion_order id ended) in
        let (kept, room) = evict-IsConsistent g h id found in
        rw ended (
          add-IsConsistent (evict id g) kept r
            (unfold evict in find-erase-none r.request_id id g.records new)
            (unfold evict in has_task-erase r.task_id id g.records free) (unfold evict in room))
  ])
]

pub insert-IsConsistent :
    (r : RequestRecord) (g : RequestRegistry) → IsConsistent g → IsConsistent (insert r g).1
unfolding insert
insert-IsConsistent r g h =
    elim (Bool-cases (is_empty r.request_id || (is_empty r.task_id || is_empty r.target_id))) [
      | inl bad ↦ rw bad h
      | inr fine ↦ rw fine (elim (Option-cases (find r.request_id g.records)) [
        | inr (v, old) ↦ rw old h
        | inl new ↦ rw new (elim (Bool-cases (has_task r.task_id g.records)) [
          | inl taken ↦ rw taken h
          | inr free ↦ rw free (insert_new-IsConsistent g r h new free)
        ])
      ])
    ]

modify-Own :
    (k : Text) (f : RequestRecord → RequestRecord) (m : List (Text × RequestRecord))
    → ((v : RequestRecord) → (f v).request_id ≡ v.request_id)
    → All Own m
    → All Own (modify k f m)
unfolding modify
modify-Own k f [] s h = tt
modify-Own k f ((j, v) ∷ m) s h = ground (arith, s v, modify-Own k f m s h.1)

tasks-modify :
    (k : Text) (f : RequestRecord → RequestRecord) (m : List (Text × RequestRecord))
    → ((v : RequestRecord) → (f v).task_id ≡ v.task_id)
    → tasks (modify k f m) ≡ tasks m
unfolding modify
tasks-modify k f [] s = refl
tasks-modify k f ((j, v) ∷ m) s = ground (arith, s v, tasks-modify k f m s)

length-modify :
    (k : Text) (f : RequestRecord → RequestRecord) (m : List (Text × RequestRecord))
    → length (modify k f m) ≡ length m
length-modify k f m =
    omega (arith, ap length (keys-modify k f m), length-keys (modify k f m), length-keys m)

pub update_terminal-IsConsistent :
    (id state : Text) (outcome code : ℕ) (message : Text) (g : RequestRegistry)
    → IsConsistent g
    → IsConsistent (update_terminal id state outcome code message g).1
unfolding update_terminal
update_terminal-IsConsistent id st o c msg g h = elim (Bool-cases (is_some (find id g.records))) [
  | inr missing ↦ rw missing h
  | inl found ↦
      let f : RequestRecord → RequestRecord =
        λ v. record v { state = st; outcome = o; error_code = c; message = msg } in
      rw found (record {
        keys_own = modify-Own id f g.records (λ v. refl) h.keys_own;
        keys_once = λ k. omega (arith, ap (count k) (keys-modify id f g.records), h.keys_once k);
        order_same = λ k. omega (arith, ap (count k) (keys-modify id f g.records), h.order_same k);
        tasks_once = λ t.
            omega (arith, ap (count t) (tasks-modify id f g.records (λ v. refl)), h.tasks_once t);
        bounded = omega (arith, length-modify id f g.records, h.bounded);
        positive = h.positive;
      })
]

pub erase_request-IsConsistent :
    (id : Text) (g : RequestRegistry) → IsConsistent g → IsConsistent (erase_request id g).1
unfolding erase_request
erase_request-IsConsistent id g h = elim (Bool-cases (is_some (find id g.records))) [
  | inr missing ↦ rw missing h
  | inl found ↦ rw found (record {
    keys_own = erase-Own id g.records h.keys_own;
    keys_once = λ k. ground (arith, count-erase k id g.records, h.keys_once k);
    order_same = λ k. ground (
      arith,
      count-erase k id g.records,
      count-remove_all k id g.insertion_order,
      h.order_same k,
    );
    tasks_once = λ t. omega (arith, tasks-erase id t g.records, h.tasks_once t);
    bounded = omega (arith, length-erase id g.records, h.bounded);
    positive = h.positive;
  })
]

pub clear-IsConsistent : (g : RequestRegistry) → IsConsistent g → IsConsistent (clear g)
unfolding clear count
clear-IsConsistent g h = record {
  keys_own = tt;
  keys_once = λ k. omega arith;
  order_same = λ k. refl;
  tasks_once = λ t. omega arith;
  bounded = omega arith;
  positive = h.positive;
}
