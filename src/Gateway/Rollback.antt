-- ===== src/Gateway/Rollback.antt =====
-- When RequestRegistry of runtime_gateway/src/request_registry.cpp is full, what `erase` undoes, and how
-- its two lookups agree.
use embodied_agent_runtime.Common.{
  ◌≤◌, ◌<◌, true, false, none, some, List, [], ◌∷◌, ◌++◌, length, All, ◌≡◌, ◌↔◌, refl, subst, arith,
  inl, inr, Bool-cases,
}
use mathlib.Core.List.{append-nil}
use embodied_agent_runtime.Common.Map.{
  text_key, count, keys, find, erase, emplace, remove_all, find-count,
}
use embodied_agent_runtime.Common.Text.{Text, text_eq, text_eq_iff, text_eq_refl}
use embodied_agent_runtime.Gateway.Request.{RequestRecord, is_terminal}
use embodied_agent_runtime.Gateway.Registry.{
  inserted, capacity_reached, RequestRegistry, is_finished, evictable, add, insert_new, insert,
  erase_request, get_by_request_id, get_by_task_id, task_in, size,
}
use embodied_agent_runtime.Gateway.Consistency.{IsConsistent, tasks}
use embodied_agent_runtime.Gateway.Admission.{insert_cases}

evictable-none :
    (m : List (Text × RequestRecord)) (order : List Text) (j : Text)
    → evictable m order ≡ none
    → 0 < count j order
    → is_finished (find j m) ≡ false
unfolding evictable count
evictable-none m [] j e h = absurd (omega arith)
evictable-none m (k ∷ order) j e h = ground (arith, text_eq_iff j k, evictable-none m order j)

capacity_lem :
    (r : RequestRecord) (g : RequestRegistry)
    → (insert r g).0 ≡ capacity_reached
    → (evictable g.records g.insertion_order ≡ none) × (g.capacity ≤ length g.records)
unfolding insert insert_new
capacity_lem r g e = ground arith

-- A consistent registry refuses a request for want of room only if it holds exactly as many records
-- as its capacity and none of them has ended.
insert-capacity_reached :
    (r v : RequestRecord) (j : Text) (g : RequestRegistry)
    → IsConsistent g
    → (insert r g).0 ≡ capacity_reached
    → get_by_request_id j g ≡ some v
    → (size g ≡ g.capacity) × (is_terminal v ≡ false)
unfolding get_by_request_id size
insert-capacity_reached r v j g h e found =
    let (all_pending, full) = capacity_lem r g e in
    let listed : 0 < count j g.insertion_order =
      ground (arith, h.order_same j, find-count j g.records) in
    (
      omega (arith, h.bounded),
      ground (arith, evictable-none g.records g.insertion_order j all_pending listed),
    )

erase-absent : (k : Text) (m : List (Text × RequestRecord)) → find k m ≡ none → erase k m ≡ m
unfolding erase find
erase-absent k [] h = refl
erase-absent k ((j, v) ∷ m) h = ground (arith, erase-absent k m)

remove_all-absent : (k : Text) (xs : List Text) → count k xs ≡ 0 → remove_all k xs ≡ xs
unfolding remove_all count
remove_all-absent k [] h = refl
remove_all-absent k (x ∷ xs) h = ground (arith, remove_all-absent k xs)

remove_all-append :
    (k : Text) (xs ys : List Text) → remove_all k (xs ++ ys) ≡ remove_all k xs ++ remove_all k ys
unfolding remove_all
remove_all-append k [] ys = refl
remove_all-append k (x ∷ xs) ys = ground (arith, remove_all-append k xs ys)

erase-add :
    (r : RequestRecord) (g : RequestRegistry)
    → IsConsistent g
    → find r.request_id g.records ≡ none
    → erase_request r.request_id (add r g) ≡ (true, g)
unfolding erase_request add emplace find erase remove_all
erase-add r g h new =
    let absent : count r.request_id g.insertion_order ≡ 0 =
      ground (arith, h.order_same r.request_id, find-count r.request_id g.records) in
    ground (
      arith,
      text_eq_refl r.request_id,
      erase-absent r.request_id g.records,
      remove_all-append r.request_id g.insertion_order (r.request_id ∷ []),
      remove_all-absent r.request_id g.insertion_order,
      append-nil g.insertion_order,
    )

-- Where there is room, erasing a request that was just inserted gives the registry back as it was.
pub erase_request-insert :
    (r : RequestRecord) (g : RequestRegistry)
    → IsConsistent g
    → (insert r g).0 ≡ inserted
    → size g < g.capacity
    → erase_request r.request_id (insert r g).1 ≡ (true, g)
unfolding size
erase_request-insert r g h ok room =
    insert_cases (λ x. x.0 ≡ inserted → erase_request r.request_id x.1 ≡ (true, g)) r g
      (λ x n e. absurd (n e)) (λ new free _ e. erase-add r g h new)
      (λ id new free over ended e. absurd (omega arith)) ok

found-task :
    (m : List (Text × RequestRecord)) (j : Text) (v : RequestRecord)
    → find j m ≡ some v
    → 0 < count v.task_id (tasks m)
unfolding find count
found-task [] j v found = cc
found-task ((i, w) ∷ m) j v found = ground (arith, text_eq_refl v.task_id, found-task m j v)

task_in-find :
    (m : List (Text × RequestRecord)) (j : Text) (v : RequestRecord)
    → count v.task_id (tasks m) ≤ 1
    → find j m ≡ some v
    → task_in v.task_id m ≡ some v
unfolding task_in find count
task_in-find [] j v once found = cc
task_in-find ((i, w) ∷ m) j v once found = ground (
  arith,
  text_eq_iff w.task_id v.task_id,
  text_eq_iff v.task_id w.task_id,
  found-task m j v,
  task_in-find m j v,
)

task_in_sound :
    (m : List (Text × RequestRecord)) (t : Text) (v : RequestRecord)
    → task_in t m ≡ some v
    → All (λ (e : Text × RequestRecord). e.0 ≡ e.1.request_id) m
    → ((k : Text) → count k (keys m) ≤ 1)
    → (v.task_id ≡ t) × (find v.request_id m ≡ some v)
unfolding task_in find count
task_in_sound [] t v e own once = cc
task_in_sound ((i, w) ∷ m) t v e own once = elim (Bool-cases (text_eq w.task_id t)) [
  | inl here ↦
      let hit : w ≡ v = ground arith in
      ground (arith, text_eq_iff w.task_id t, own.0, text_eq_refl w.request_id, hit)
  | inr further ↦
      let (mine, found) = task_in_sound m t v (ground arith) own.1 (λ k. ground (arith, once k)) in
      ground (
        arith,
        mine,
        found,
        find-count v.request_id m,
        text_eq_iff v.request_id i,
        once v.request_id,
      )
]

-- The two lookups of a consistent registry agree: a task id leads to a record exactly if that record
-- stands under its own request id and carries that task id.
pub get_by_task_id_iff :
    (t : Text) (v : RequestRecord) (g : RequestRegistry)
    → IsConsistent g
    → (get_by_task_id t g ≡ some v)
      ↔ ((v.task_id ≡ t) × (get_by_request_id v.request_id g ≡ some v))
unfolding get_by_task_id get_by_request_id
get_by_task_id_iff t v g h = (
  λ e. task_in_sound g.records t v e h.keys_own h.keys_once,
  λ p.
      subst (λ k. task_in k g.records ≡ some v) p.0
        (task_in-find g.records v.request_id v (h.tasks_once v.task_id) p.1),
)
