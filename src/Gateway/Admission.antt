-- ===== src/Gateway/Admission.antt =====
-- What the calls of RequestRegistry in runtime_gateway/src/request_registry.cpp promise.
use embodied_agent_runtime.Common.{
  ℕ, zero, suc, ◌≤◌, ◌<◌, false, ◌||◌, none, some, List, [], ◌∷◌, length, leb, if◌then◌else◌, ◌≡◌,
  ◌≢◌, ◌↔◌, refl, ap, ◌∙◌, subst, arith, inl, inr, Bool-cases, Option-cases,
}
use embodied_agent_runtime.Common.Map.{text_key, count, find, find-erase, find-emplace}
use embodied_agent_runtime.Common.Text.{Text, text_eq, text_eq_iff, is_empty, text_eq_refl}
use embodied_agent_runtime.Gateway.Request.{RequestRecord, is_terminal, fingerprint}
use embodied_agent_runtime.Gateway.Fingerprint.{SameRequest, fingerprint_iff}
use embodied_agent_runtime.Gateway.Registry.{
  InsertResult, inserted, duplicate, conflict, invalid, capacity_reached, RequestRegistry,
  construct_registry, has_task, evictable, add, evict, insert_new, insert, update_terminal,
  erase_request, clear, get_by_request_id,
}
use embodied_agent_runtime.Gateway.Consistency.{
  IsConsistent, evictable-finished, insert-IsConsistent, update_terminal-IsConsistent,
  erase_request-IsConsistent, clear-IsConsistent,
}

-- A call that changes the registry.
pub data Call : Type 0 where
  inserts : RequestRecord → Call
  updates : Text → Text → ℕ → ℕ → Text → Call
  erases : Text → Call
  clears : Call

pub apply : RequestRegistry → Call → RequestRegistry
apply g (inserts r) = (insert r g).1
apply g (updates id state outcome code message) =
    (update_terminal id state outcome code message g).1
apply g (erases id) = (erase_request id g).1
apply g clears = clear g

pub apply_all : RequestRegistry → List Call → RequestRegistry
unfolding apply
apply_all g [] = g
apply_all g (c ∷ cs) = apply_all (apply g c) cs

apply-IsConsistent : (g : RequestRegistry) (c : Call) → IsConsistent g → IsConsistent (apply g c)
unfolding apply
apply-IsConsistent g (inserts r) h = insert-IsConsistent r g h
apply-IsConsistent g (updates id s o c m) h = update_terminal-IsConsistent id s o c m g h
apply-IsConsistent g (erases id) h = erase_request-IsConsistent id g h
apply-IsConsistent g clears h = clear-IsConsistent g h

apply_all-IsConsistent :
    (g : RequestRegistry) (cs : List Call) → IsConsistent g → IsConsistent (apply_all g cs)
unfolding apply_all
apply_all-IsConsistent g [] h = h
apply_all-IsConsistent g (c ∷ cs) h =
    apply_all-IsConsistent (apply g c) cs (apply-IsConsistent g c h)

empty-IsConsistent :
    (capacity : ℕ)
    → 0 < capacity
    → IsConsistent (record { capacity = capacity; insertion_order = []; records = [] })
unfolding count
empty-IsConsistent c h = record {
  keys_own = tt;
  keys_once = λ k. omega arith;
  order_same = λ k. refl;
  tasks_once = λ t. omega arith;
  bounded = omega arith;
  positive = h;
}

pub constructed-IsConsistent :
    (capacity : ℕ) (g : RequestRegistry) → construct_registry capacity ≡ some g → IsConsistent g
unfolding construct_registry
constructed-IsConsistent zero g e = cc
constructed-IsConsistent (suc c) g e =
    subst IsConsistent (ground arith) (empty-IsConsistent (suc c) (omega arith))

-- A registry that was constructed is consistent after any sequence of calls: each record stands
-- under its own id, once, the insertion order lists just these ids, no two records share a task, and
-- there are at most as many as the capacity.
pub construct_registry-IsConsistent :
    (capacity : ℕ) (g : RequestRegistry) (cs : List Call)
    → construct_registry capacity ≡ some g
    → IsConsistent (apply_all g cs)
construct_registry-IsConsistent capacity g cs made =
    apply_all-IsConsistent g cs (constructed-IsConsistent capacity g made)

find-add :
    (j : Text) (r : RequestRecord) (g : RequestRegistry)
    → find r.request_id g.records ≡ none
    → find j (add r g).records ≡ (if text_eq j r.request_id then some r else find j g.records)
unfolding add
find-add j r g new = ground (arith, find-emplace j r.request_id r g.records)

find-evict-none :
    (j id : Text) (g : RequestRegistry)
    → find j g.records ≡ none
    → find j (evict id g).records ≡ none
unfolding evict
find-evict-none j id g h = ground (arith, find-erase j id g.records)

-- The ways in which `insert` ends: refused with the registry as it was, added where there is room, or
-- added after an eviction.
pub insert_cases {ℓ} :
    (P : InsertResult × RequestRegistry → Type ℓ) (r : RequestRecord) (g : RequestRegistry)
    → ((x : InsertResult) → x ≢ inserted → P (x, g))
    → (find r.request_id g.records ≡ none
        → has_task r.task_id g.records ≡ false
        → length g.records < g.capacity
        → P (inserted, add r g))
    → ((id : Text)
        → find r.request_id g.records ≡ none
        → has_task r.task_id g.records ≡ false
        → g.capacity ≤ length g.records
        → evictable g.records g.insertion_order ≡ some id
        → P (inserted, add r (evict id g)))
    → P (insert r g)
unfolding insert insert_new
insert_cases P r g refused added replaced =
    elim (Bool-cases (is_empty r.request_id || (is_empty r.task_id || is_empty r.target_id))) [
      | inl bad ↦ rw bad (refused invalid (λ e. cc))
      | inr fine ↦ rw fine (elim (Option-cases (find r.request_id g.records)) [
        | inr (v, old) ↦ rw old (elim (Bool-cases (text_eq (fingerprint v) (fingerprint r))) [
          | inl same ↦ rw same (refused duplicate (λ e. cc))
          | inr other ↦ rw other (refused conflict (λ e. cc))
        ])
        | inl new ↦ rw new (elim (Bool-cases (has_task r.task_id g.records)) [
          | inl taken ↦ rw taken (refused conflict (λ e. cc))
          | inr free ↦ rw free (elim (Bool-cases (leb g.capacity (length g.records))) [
            | inr room ↦ rw room (added new free (ground arith))
            | inl full ↦ rw full (elim (Option-cases (evictable g.records g.insertion_order)) [
              | inl none_ended ↦ rw none_ended (refused capacity_reached (λ e. cc))
              | inr (id, ended) ↦ rw ended (replaced id new free (ground arith) ended)
            ])
          ])
        ])
      ])
    ]

find-evict :
    (j id : Text) (g : RequestRegistry) (v : RequestRecord)
    → find j g.records ≡ some v
    → is_terminal v ≡ false
    → evictable g.records g.insertion_order ≡ some id
    → find j (evict id g).records ≡ some v
unfolding evict
find-evict j id g v old pending ended = ground (
  arith,
  find-erase j id g.records,
  text_eq_iff j id,
  evictable-finished g.records g.insertion_order id ended,
)

-- An insertion never drops or changes a record that has not ended.
pub insert-keeps_pending :
    (r v : RequestRecord) (j : Text) (g : RequestRegistry)
    → get_by_request_id j g ≡ some v
    → is_terminal v ≡ false
    → get_by_request_id j (insert r g).1 ≡ some v
unfolding get_by_request_id
insert-keeps_pending r v j g old pending =
    insert_cases (λ x. find j x.1.records ≡ some v) r g (λ x n. old)
      (λ new free room. ground (arith, find-add j r g new, text_eq_iff j r.request_id))
      (λ id new free over ended. ground (
        arith,
        find-add j r (evict id g) (find-evict-none r.request_id id g new),
        find-evict j id g v old pending ended,
        text_eq_iff j r.request_id,
      ))

insert-find :
    (r : RequestRecord) (g : RequestRegistry)
    → (insert r g).0 ≡ inserted
    → find r.request_id (insert r g).1.records ≡ some r
insert-find r g =
    insert_cases (λ x. x.0 ≡ inserted → find r.request_id x.1.records ≡ some r) r g
      (λ x n e. absurd (n e))
      (λ new free room e. ground (arith, find-add r.request_id r g new, text_eq_refl r.request_id))
      (λ id new free over ended e. ground (
        arith,
        find-add r.request_id r (evict id g) (find-evict-none r.request_id id g new),
        text_eq_refl r.request_id,
      ))

again_lem :
    (r again : RequestRecord) (g : RequestRegistry)
    → find r.request_id g.records ≡ some r
    → again.request_id ≡ r.request_id
    → is_empty again.request_id || (is_empty again.task_id || is_empty again.target_id) ≡ false
    → (((insert again g).0 ≡ duplicate) ↔ SameRequest r again)
      × ((insert again g).0 ≢ inserted)
      × ((insert again g).1 ≡ g)
unfolding insert
again_lem r again g old same fine =
    let found : find again.request_id g.records ≡ some r = ap (λ k. find k g.records) same ∙ old in
    rw (fine, found)
      (ground (arith, fingerprint_iff r again, text_eq_iff (fingerprint r) (fingerprint again)))

-- After an insertion a second request with the same id, with no empty id, task or target, is never admitted and changes nothing: it is a
-- duplicate exactly when it agrees with the first in all five fields of its identity.
pub insert-insert :
    (r again : RequestRecord) (g : RequestRegistry)
    → (insert r g).0 ≡ inserted
    → again.request_id ≡ r.request_id
    → is_empty again.request_id || (is_empty again.task_id || is_empty again.target_id) ≡ false
    → (((insert again (insert r g).1).0 ≡ duplicate) ↔ SameRequest r again)
      × ((insert again (insert r g).1).0 ≢ inserted)
      × ((insert again (insert r g).1).1 ≡ (insert r g).1)
insert-insert r again g ok same fine =
    again_lem r again (insert r g).1 (insert-find r g ok) same fine
