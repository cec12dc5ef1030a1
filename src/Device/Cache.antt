-- ===== src/Device/Cache.antt =====
-- The replay cache of virtual_can_device/src/virtual_can_device_node.cpp stays bounded and in step with
-- its order of insertion.
use embodied_agent_runtime.Common.{
  ℕ, suc, ◌≤◌, ◌<◌, Bool, true, false, Option, none, some, List, [], ◌∷◌, ◌++◌, length, leb, not,
  ◌||◌, ltb, subst, ◌≡◌, ◌∙◌, refl, ap, arith, inl, inr, Bool-cases, Option-cases, ==_iff,
}
use mathlib.Core.Option
use mathlib.Core.Option.{some_inj}
use embodied_agent_runtime.Bridge.Policy.{is_nonpositive}
use embodied_agent_runtime.Common.Int.{ℤ, pos, negsuc, pos_part}
use embodied_agent_runtime.Common.Map.{
  nat_key, count, keys, find, erase, emplace, find-count, find-erase-none, count-erase,
  length-erase, count-append,
}
use embodied_agent_runtime.Common.Text.{Text}
use embodied_agent_runtime.Can.Protocol.{RawFrame, Command, Response, decode_command}
use embodied_agent_runtime.Bridge.Host.{mode_fault}
use embodied_agent_runtime.Device.Node.{
  Mode, CacheEntry, VirtualCanDevice, answer, process_new, same_command, initial_device,
  construct_device, supported_mode, evict_front, cache_command, send_response, reply,
  process_cached, process_command, receive_frame, plain, resend, conflict_reply, on_command,
}

-- The order of insertion lists the cached ids, each once, and there are at most as many as the capacity.
pub record IsBounded (d : VirtualCanDevice) : Type 0 where
  pub ids_once : (k : ℕ) → count k (keys d.cache) ≤ 1
  pub order_same : (k : ℕ) → count k d.cache_order ≡ count k (keys d.cache)
  pub bounded : length d.cache ≤ d.replay_cache_capacity
  pub positive : 0 < d.replay_cache_capacity

some_key : (m : List (ℕ × CacheEntry)) → 0 < length m → (k : ℕ) × (0 < count k (keys m))
unfolding count
some_key [] h = absurd (omega arith)
some_key ((k, v) ∷ m) h = (k, ground arith)

count-head : (k : ℕ) (ks : List ℕ) → count k (k ∷ ks) ≡ suc (count k ks)
unfolding count
count-head k ks = ground (arith, ==_iff k k)

evict_front-IsBounded :
    (order : List ℕ) (d : VirtualCanDevice)
    → d.cache_order ≡ order
    → IsBounded d
    → d.replay_cache_capacity ≤ length d.cache
    → IsBounded (evict_front order d)
      × (length (evict_front order d).cache < d.replay_cache_capacity)
unfolding evict_front count
evict_front-IsBounded [] d e h full =
    let (k, held) = some_key d.cache (omega (arith, h.positive)) in
    absurd (omega (arith, h.order_same k, ap (count k) e))
evict_front-IsBounded (oldest ∷ order) d e h full =
    let listed : count oldest d.cache_order ≡ suc (count oldest order) =
      ap (count oldest) e ∙ count-head oldest order in
    let fewer : length (erase oldest d.cache) < d.replay_cache_capacity =
      omega (arith, length-erase oldest d.cache, h.order_same oldest, h.bounded) in
    (
      record {
        ids_once = λ k. ground (arith, count-erase k oldest d.cache, h.ids_once k);
        order_same = λ k. ground (
          arith,
          ap (count k) e,
          listed,
          count-erase k oldest d.cache,
          ==_iff k oldest,
          h.order_same k,
          h.ids_once k,
          h.order_same oldest,
          h.ids_once oldest,
        );
        bounded = omega arith;
        positive = h.positive;
      },
      fewer,
    )

push-IsBounded :
    (command : Command) (response : Option Response) (d : VirtualCanDevice)
    → IsBounded d
    → find command.command_id d.cache ≡ none
    → length d.cache < d.replay_cache_capacity
    → IsBounded (record d {
      cache =
          emplace command.command_id (record { command = command; response = response }) d.cache;
      cache_order = d.cache_order ++ (command.command_id ∷ []);
    })
unfolding emplace count
push-IsBounded c r d h new room =
    let absent : count c.command_id (keys d.cache) ≡ 0 =
      ground (arith, find-count c.command_id d.cache) in
    rw new (record {
      ids_once = λ k. ground (arith, absent, h.ids_once k);
      order_same =
          λ k. ground (arith, count-append k d.cache_order (c.command_id ∷ []), h.order_same k);
      bounded = room;
      positive = h.positive;
    })

pub find-evict_front-none :
    (j : ℕ) (order : List ℕ) (d : VirtualCanDevice)
    → find j d.cache ≡ none
    → find j (evict_front order d).cache ≡ none
unfolding evict_front
find-evict_front-none j [] d h = h
find-evict_front-none j (k ∷ order) d h = find-erase-none j k d.cache h

capacity-evict_front :
    (order : List ℕ) (d : VirtualCanDevice)
    → (evict_front order d).replay_cache_capacity ≡ d.replay_cache_capacity
unfolding evict_front
capacity-evict_front [] d = refl
capacity-evict_front (k ∷ order) d = refl

pub cache_command-IsBounded :
    (command : Command) (response : Option Response) (d : VirtualCanDevice)
    → IsBounded d
    → find command.command_id d.cache ≡ none
    → IsBounded (cache_command command response d)
unfolding cache_command
cache_command-IsBounded c r d h new =
    elim (Bool-cases (leb d.replay_cache_capacity (length d.cache))) [
      | inr room ↦ rw room (push-IsBounded c r d h new (ground arith))
      | inl full ↦
          let (kept, room) = evict_front-IsBounded d.cache_order d refl h (ground arith) in
          rw full (
            push-IsBounded c r (evict_front d.cache_order d) kept
              (find-evict_front-none c.command_id d.cache_order d new)
              (omega (arith, capacity-evict_front d.cache_order d)))
    ]

send_response-IsBounded :
    (w : Bool) (r : Response) (d : VirtualCanDevice)
    → IsBounded d
    → IsBounded (send_response w r d).0
unfolding send_response
send_response-IsBounded true r d h = record {
  ids_once = h.ids_once;
  order_same = h.order_same;
  bounded = h.bounded;
  positive = h.positive;
}
send_response-IsBounded false r d h = h

resend-IsBounded :
    (w : Bool) (o : Option Response) (d : VirtualCanDevice)
    → IsBounded d
    → IsBounded (resend w o d).0
resend-IsBounded w none d h = h
resend-IsBounded w (some r) d h = send_response-IsBounded w r d h

conflict_reply-IsBounded :
    (w : Bool) (c : Command) (d : VirtualCanDevice)
    → IsBounded d
    → IsBounded (conflict_reply w c d).0
unfolding conflict_reply
conflict_reply-IsBounded w c d h = send_response-IsBounded w (plain c.command_id 3 mode_fault) d h

process_cached-IsBounded :
    (w : Bool) (c : Command) (cached : CacheEntry) (d : VirtualCanDevice)
    → IsBounded d
    → IsBounded (process_cached w c cached d).0
unfolding process_cached
process_cached-IsBounded w c cached d h = elim (Bool-cases (not (same_command cached.command c))) [
  | inl differs ↦ rw differs (conflict_reply-IsBounded w c d h)
  | inr same ↦ rw same (resend-IsBounded w cached.response d h)
]

-- Every command that is not cached is cached, with an answer or with none.
reply-IsBounded :
    (w : Bool) (c : Command) (o : Option Response) (d : VirtualCanDevice)
    → IsBounded d
    → find c.command_id d.cache ≡ none
    → IsBounded (reply w c o d).0
unfolding reply
reply-IsBounded w c none d h new = cache_command-IsBounded c none d h new
reply-IsBounded w c (some r) d h new =
    send_response-IsBounded w r (cache_command c (some r) d)
      (cache_command-IsBounded c (some r) d h new)

process_new-IsBounded :
    (w : Bool) (c : Command) (d : VirtualCanDevice)
    → IsBounded d
    → find c.command_id d.cache ≡ none
    → IsBounded (process_new w c d).0
unfolding process_new
process_new-IsBounded w c d h new = reply-IsBounded w c (answer d.mode c) d h new

process_command-IsBounded :
    (w : Bool) (c : Command) (d : VirtualCanDevice)
    → IsBounded d
    → IsBounded (process_command w c d).0
unfolding process_command
process_command-IsBounded w c d h = elim (Option-cases (find c.command_id d.cache)) [
  | inl new ↦ rw (new, process_command) (process_new-IsBounded w c d h new)
  | inr (cached, old) ↦ rw (old, process_command) (process_cached-IsBounded w c cached d h)
]

on_command-IsBounded :
    (w : Bool) (c : Option Command) (d : VirtualCanDevice)
    → IsBounded d
    → IsBounded (on_command w c d).0
on_command-IsBounded w none d h = h
on_command-IsBounded w (some c) d h = process_command-IsBounded w c d h

-- The device after a series of frames, each with whether the socket took the answer.
abbrev pub receive_all : List (Bool × RawFrame) → VirtualCanDevice → VirtualCanDevice
receive_all [] d = d
receive_all ((written, frame) ∷ rest) d = receive_all rest (receive_frame written frame d).0

receive_all-IsBounded :
    (fs : List (Bool × RawFrame)) (d : VirtualCanDevice)
    → IsBounded d
    → IsBounded (receive_all fs d)
unfolding receive_frame
receive_all-IsBounded [] d h = h
receive_all-IsBounded ((w, f) ∷ fs) d h =
    receive_all-IsBounded fs (receive_frame w f d).0
      (on_command-IsBounded w (decode_command f).0 d h)

initial_device-IsBounded : (n : ℕ) (m : Mode) → 0 < n → IsBounded (initial_device n m)
unfolding count
initial_device-IsBounded n m p = record {
  ids_once = λ k. omega arith;
  order_same = λ k. refl;
  bounded = omega arith;
  positive = p;
}

made-IsBounded :
    (n : ℕ) (o : Option Mode) (d : VirtualCanDevice)
    → 0 < n
    → Option.map (initial_device n) o ≡ some d
    → IsBounded d
made-IsBounded n none d p e = absurd cc
made-IsBounded n (some m) d p e = subst IsBounded (some_inj.0 e) (initial_device-IsBounded n m p)

positive_capacity : (z : ℤ) → is_nonpositive z ≡ false → 0 < pos_part z
positive_capacity (pos n) h = ground arith
positive_capacity (negsuc n) h = absurd cc

constructed-IsBounded :
    (mode : Text) (capacity : ℤ) (d : VirtualCanDevice)
    → construct_device mode capacity ≡ some d
    → IsBounded d
unfolding construct_device
constructed-IsBounded mode capacity d e =
    elim (Bool-cases (is_nonpositive capacity || ltb 65536 (pos_part capacity))) [
      | inl bad ↦ absurd (ground (arith, bad))
      | inr good ↦
          made-IsBounded (pos_part capacity) (supported_mode mode) d
            (positive_capacity capacity (ground arith)) (ground arith)
    ]

-- From the constructor on, whatever frames arrive and whether or not the socket takes the answers,
-- the order of insertion lists the cached ids, each once, and the cache never holds more entries
-- than its capacity.
pub construct_device-IsBounded :
    (mode : Text) (capacity : ℤ) (d : VirtualCanDevice) (frames : List (Bool × RawFrame))
    → construct_device mode capacity ≡ some d
    → IsBounded (receive_all frames d)
construct_device-IsBounded mode capacity d frames made =
    receive_all-IsBounded frames d (constructed-IsBounded mode capacity d made)
