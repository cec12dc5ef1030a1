-- ===== src/Tests/Gateway.antt =====
-- The request registry of runtime_gateway at concrete requests.
use embodied_agent_runtime.Common.{
  ◌≡◌, ◌≢◌, ◌↔◌, ◌<◌, refl, some, true, false, [], ◌∷◌, arith, ◌||◌,
}
use embodied_agent_runtime.Common.Decimal.{decimal}
use embodied_agent_runtime.Common.Map.{find, emplace, erase, remove_first}
use embodied_agent_runtime.Common.Text.{Text, text, text_eq, is_empty}
use embodied_agent_runtime.Gateway.Request.{RequestRecord, prefixed, fingerprint, is_terminal}
use embodied_agent_runtime.Gateway.Fingerprint.{SameRequest, fingerprint_iff}
use embodied_agent_runtime.Gateway.Registry.{
  RequestRegistry, inserted, duplicate, capacity_reached, construct_registry, has_task, evictable,
  add, evict, insert_new, insert, erase_request, get_by_request_id, get_by_task_id, size,
}
use embodied_agent_runtime.Gateway.Consistency.{IsConsistent, insert-IsConsistent}
use embodied_agent_runtime.Gateway.Admission.{
  inserts, updates, erases, apply_all, construct_registry-IsConsistent, constructed-IsConsistent,
  insert-keeps_pending, insert-insert,
}
use embodied_agent_runtime.Gateway.Rollback.{erase_request-insert, get_by_task_id_iff}

abbrev request : Text → Text → RequestRecord
request id task = record {
  request_id = id;
  task_id = task;
  target_id = text "dock_a";
  workflow_id = text "single_task";
  timeout_ms = 1000;
  state = text "ACCEPTED";
  outcome = 0;
  error_code = 0;
  message = text "";
}

abbrev first : RequestRecord
first = request (text "r1") (text "t1")

abbrev second : RequestRecord
second = request (text "r2") (text "t2")

abbrev empty : RequestRegistry
empty = record { capacity = 1; insertion_order = []; records = [] }

made : construct_registry 1 ≡ some empty
unfolding construct_registry
made = refl

-- What `insert` calls.
insertion : Unit {0}
unfolding insert insert_new add evict emplace find erase remove_first has_task evictable is_terminal
    fingerprint prefixed decimal text text_eq
insertion = tt

prefix_of_r1 : prefixed (text "r1") ≡ text "2:r1"
unfolding prefixed decimal text
prefix_of_r1 = refl

first_inserted : (insert first empty).0 ≡ inserted
unfolding insertion
first_inserted = refl

-- A pending request is not evicted: the second one finds no room.
second_refused : (insert second (insert first empty).1).0 ≡ capacity_reached
unfolding insertion
second_refused = refl

first_found : get_by_request_id first.request_id (insert first empty).1 ≡ some first
unfolding insertion get_by_request_id
first_found = refl

first_pending : is_terminal first ≡ false
unfolding insertion
first_pending = refl

construct_registry-IsConsistent_example : IsConsistent (
    apply_all empty (
      inserts first
      ∷ updates first.request_id (text "COMPLETED") 0 0 (text "done")
      ∷ inserts second
      ∷ erases second.request_id
      ∷ []))
construct_registry-IsConsistent_example = construct_registry-IsConsistent 1 empty _ made

fingerprint_iff_example : (fingerprint first ≡ fingerprint second) ↔ SameRequest first second
fingerprint_iff_example = fingerprint_iff first second

insert-keeps_pending_example :
    get_by_request_id first.request_id (insert second (insert first empty).1).1 ≡ some first
insert-keeps_pending_example =
    insert-keeps_pending second first first.request_id (insert first empty).1 first_found
      first_pending

nonempty : is_empty first.request_id || (is_empty first.task_id || is_empty first.target_id) ≡ false
unfolding text
nonempty = refl

abbrev again : RequestRecord
again = record first { timeout_ms = 2000 }

insert-insert_example :
    (((insert again (insert first empty).1).0 ≡ duplicate) ↔ SameRequest first again)
    × ((insert again (insert first empty).1).0 ≢ inserted)
    × ((insert again (insert first empty).1).1 ≡ (insert first empty).1)
insert-insert_example = insert-insert first again empty first_inserted refl nonempty

empty-IsConsistent : IsConsistent empty
empty-IsConsistent = constructed-IsConsistent 1 empty made

holding-IsConsistent : IsConsistent (insert first empty).1
holding-IsConsistent = insert-IsConsistent first empty empty-IsConsistent

room : size empty < empty.capacity
unfolding size
room = omega arith

erase_request-insert_example : erase_request first.request_id (insert first empty).1 ≡ (true, empty)
erase_request-insert_example =
    erase_request-insert first empty empty-IsConsistent first_inserted room

get_by_task_id_iff_example : (get_by_task_id first.task_id (insert first empty).1 ≡ some first) ↔ (
    (first.task_id ≡ first.task_id)
    × (get_by_request_id first.request_id (insert first empty).1 ≡ some first))
get_by_task_id_iff_example =
    get_by_task_id_iff first.task_id first (insert first empty).1 holding-IsConsistent
