-- ===== src/Gateway/Registry.antt =====
-- RequestRegistry of runtime_gateway/src/request_registry.cpp. The mutex makes each method one step.
use embodied_agent_runtime.Common.{
  ℕ, Bool, true, false, ◌||◌, Option, none, some, List, [], ◌∷◌, ◌++◌, length, leb, ◌==◌, is_some,
  if◌then◌else◌,
}
use embodied_agent_runtime.Common.Map.{
  text_key, find, erase, emplace, modify, remove_first, remove_all,
}
use embodied_agent_runtime.Common.Text.{Text, text_eq, is_empty}
use embodied_agent_runtime.Gateway.Request.{RequestRecord, is_terminal, fingerprint}

pub data InsertResult : Type 0 where
  inserted duplicate conflict invalid capacity_reached : InsertResult

pub record RequestRegistry : Type 0 where
  pub capacity : ℕ
  pub insertion_order : List Text
  pub records : List (Text × RequestRecord)

-- The constructor: `none` where it throws.
unfoldable pub construct_registry : ℕ → Option RequestRegistry
construct_registry capacity =
    if capacity == 0
    then none
    else some (record { capacity = capacity; insertion_order = []; records = [] })

-- Whether some record has the task id.
unfoldable pub has_task : Text → List (Text × RequestRecord) → Bool
has_task task_id [] = false
has_task task_id ((id, value) ∷ m) = text_eq value.task_id task_id || has_task task_id m

abbrev pub is_finished : Option RequestRecord → Bool
is_finished none = false
is_finished (some value) = is_terminal value

-- The `find_if` over the insertion order: the oldest request that has ended.
unfoldable pub evictable : List (Text × RequestRecord) → List Text → Option Text
evictable records [] = none
evictable records (id ∷ order) =
    if is_finished (find id records) then some id else evictable records order

-- `records_.emplace` and `insertion_order_.push_back`.
unfoldable pub add : RequestRecord → RequestRegistry → RequestRegistry
add r g = record g {
  records = emplace r.request_id r g.records;
  insertion_order = g.insertion_order ++ (r.request_id ∷ []);
}

-- The two `erase` calls on the evicted request.
unfoldable pub evict : Text → RequestRegistry → RequestRegistry
evict id g = record g {
  records = erase id g.records;
  insertion_order = remove_first id g.insertion_order;
}

-- `insert` once the id and the task are known to be new.
unfoldable pub insert_new : RequestRecord → RequestRegistry → InsertResult × RequestRegistry
insert_new r g =
    if leb g.capacity (length g.records)
    then elim (evictable g.records g.insertion_order) [
      | none ↦ (capacity_reached, g)
      | some id ↦ (inserted, add r (evict id g))
    ]
    else (inserted, add r g)

unfoldable pub insert : RequestRecord → RequestRegistry → InsertResult × RequestRegistry
insert r g =
    if is_empty r.request_id || (is_empty r.task_id || is_empty r.target_id)
    then (invalid, g)
    else elim (find r.request_id g.records) [
      | some existing ↦
          (if text_eq (fingerprint existing) (fingerprint r) then duplicate else conflict, g)
      | none ↦ if has_task r.task_id g.records then (conflict, g) else insert_new r g
    ]

unfoldable pub get_by_request_id : Text → RequestRegistry → Option RequestRecord
get_by_request_id request_id g = find request_id g.records

-- The map's own order of iteration is left open: here it is the list's.
unfoldable pub task_in : Text → List (Text × RequestRecord) → Option RequestRecord
task_in task_id [] = none
task_in task_id ((id, value) ∷ m) =
    if text_eq value.task_id task_id then some value else task_in task_id m

unfoldable pub get_by_task_id : Text → RequestRegistry → Option RequestRecord
unfolding task_in
get_by_task_id task_id g = task_in task_id g.records

unfoldable pub update_terminal :
    Text → Text → ℕ → ℕ → Text → RequestRegistry → Bool × RequestRegistry
update_terminal request_id state outcome error_code message g =
    if is_some (find request_id g.records)
    then (
      true,
      record g {
        records =
            modify request_id
              (λ v. record v {
                state = state;
                outcome = outcome;
                error_code = error_code;
                message = message;
              })
              g.records;
      },
    )
    else (false, g)

-- `erase`.
unfoldable pub erase_request : Text → RequestRegistry → Bool × RequestRegistry
erase_request request_id g =
    if is_some (find request_id g.records)
    then (
      true,
      record g {
        records = erase request_id g.records;
        insertion_order = remove_all request_id g.insertion_order;
      },
    )
    else (false, g)

unfoldable pub clear : RequestRegistry → RequestRegistry
clear g = record g { records = []; insertion_order = [] }

unfoldable pub size : RequestRegistry → ℕ
size g = length g.records
