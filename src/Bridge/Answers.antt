-- ===== src/Bridge/Answers.antt =====
-- The wait for an answer in device_bridge/src/device_bridge_node.cpp ends, with what it promises.
use embodied_agent_runtime.Common.{
  ℕ, zero, suc, ◌+◌, ◌-◌, ◌*◌, ◌/◌, ◌≤◌, ◌<◌, min, Bool, true, false, Option, none, some, ◌==◌, leb,
  ◌≡◌, arith, subst, sym, ap, ◌∙◌, Bool-cases, inl, inr, Option-cases, refl, ==_iff,
}
use embodied_agent_runtime.Can.Protocol.{RawFrame, decode_response}
use embodied_agent_runtime.Bridge.Host.{Host, IsSteady, Arrival, nothing, failed, arrived}
use embodied_agent_runtime.Bridge.Wait.{
  WaitResult, response, timeout, canceled, transport_error, shutdown, match_response, classify,
  observed, wait_round, wait_loop, receive_response,
}

module _ (h : Host) where
  open h use {World, alive, canceling, clock, receive}

  -- What each result promises, whatever the world does.
  abbrev pub Answers : ℕ → Bool → WaitResult → Type 0
  Answers expected observe_cancel (response r) =
      (r.command_id ≡ expected)
      × (poll : ℕ) × (w : World) × (frame : RawFrame) × ((receive poll w).0 ≡ arrived frame)
      × ((decode_response frame).0 ≡ some r)
  Answers expected observe_cancel timeout = Unit
  Answers expected observe_cancel canceled = observe_cancel ≡ true
  Answers expected observe_cancel (transport_error e) =
      (poll : ℕ) × (w : World) × ((receive poll w).0 ≡ failed e)
  Answers expected observe_cancel (shutdown e) = (w : World) × ((alive w).0 ≡ false)

  abbrev AnswersOr : ℕ → Bool → Option WaitResult → Type 0
  AnswersOr expected observe_cancel none = Unit
  AnswersOr expected observe_cancel (some r) = Answers expected observe_cancel r

  classify-Answers :
      (expected poll : ℕ) (o : Bool) (w : World) (a : Arrival)
      → (receive poll w).0 ≡ a
      → AnswersOr expected o (classify expected a)
  unfolding classify match_response
  classify-Answers expected poll o w nothing e = tt
  classify-Answers expected poll o w (failed m) e = (poll, w, e)
  classify-Answers expected poll o w (arrived f) e = elim (Option-cases (decode_response f).0) [
    | inl bad ↦ rw bad tt
    | inr (r, good) ↦ rw good (elim (Bool-cases (r.command_id == expected)) [
      | inl mine ↦ rw mine ((==_iff _ _).0 mine, poll, w, f, e, good)
      | inr other ↦ rw other tt
    ])
  ]

  observed-true : (o : Bool) (w : World) → (observed h o w).0 ≡ true → o ≡ true
  observed-true true w e = refl
  observed-true false w e = e

  wait_round-Answers :
      (poll_ms expected deadline : ℕ) (o : Bool) (w : World)
      → AnswersOr expected o (wait_round h poll_ms expected deadline o w).0
  unfolding wait_round
  wait_round-Answers p x d o w = elim (Bool-cases (alive w).0) [
    | inr down ↦ rw down (w, down)
    | inl up ↦ rw up (elim (Bool-cases (observed h o (alive w).1).0) [
      | inl seen ↦ rw seen (observed-true o (alive w).1 seen)
      | inr unseen ↦ rw unseen (elim (Bool-cases (leb d (clock (observed h o (alive w).1).1).0)) [
        | inl late ↦ rw late tt
        | inr early ↦ rw early (classify-Answers x _ o _ _ refl)
      ])
    ])
  ]

  module _ (steady : IsSteady h) where
    open steady use {time, clock_reads, clock_keeps, alive_keeps, canceling_keeps, receive_advances}

    observed_keeps : (o : Bool) (w : World) → time w ≤ time (observed h o w).1
    observed_keeps true w = canceling_keeps w
    observed_keeps false w = omega arith

    -- A round that does not end the loop begins before the deadline and takes time.
    wait_round_advances :
        (poll_ms expected deadline : ℕ) (o : Bool) (w : World)
        → (wait_round h poll_ms expected deadline o w).0 ≡ none
        → (time w < deadline) × (time w < time (wait_round h poll_ms expected deadline o w).1)
    unfolding wait_round
    wait_round_advances p x d o w e =
        let w2 = (observed h o (alive w).1).1 in
        let w3 = (clock w2).1 in
        ground (
          arith,
          alive_keeps w,
          observed_keeps o (alive w).1,
          clock_reads w2,
          clock_keeps w2,
          receive_advances (min ((d - (clock w2).0) / 1000000) p) w3,
        )

    -- A timeout is reported no sooner than the deadline.
    abbrev pub IsLate : ℕ → WaitResult → World → Type 0
    IsLate deadline timeout w = deadline ≤ time w
    IsLate deadline _ w = Unit

    IsLate-intro :
        (deadline : ℕ) (x : WaitResult) (w : World)
        → (x ≡ timeout → deadline ≤ time w)
        → IsLate deadline x w
    IsLate-intro d timeout w f = f refl
    IsLate-intro d _ w f = tt

    -- What `wait_loop` gives where the fuel is enough.
    abbrev pub Settles : ℕ → ℕ → Bool → Option (WaitResult × World) → Type 0
    Settles expected deadline o none = ⊥
    Settles expected deadline o (some (x, w')) = Answers expected o x × IsLate deadline x w'

    wait_round_late :
        (poll_ms expected deadline : ℕ) (o : Bool) (w : World)
        → (wait_round h poll_ms expected deadline o w).0 ≡ some timeout
        → deadline ≤ time (wait_round h poll_ms expected deadline o w).1
    unfolding wait_round classify match_response
    wait_round_late p x d o w e =
        let w2 = (observed h o (alive w).1).1 in ground (arith, clock_reads w2, clock_keeps w2)

    -- Enough fuel is one round more than the nanoseconds to the deadline.
    wait_loop-Settles :
        (fuel poll_ms expected deadline : ℕ) (o : Bool) (w : World)
        → 0 < fuel
        → deadline < fuel + time w
        → Settles expected deadline o (wait_loop h fuel poll_ms expected deadline o w)
    unfolding wait_loop
    wait_loop-Settles zero p x d o w b c = absurd (omega arith)
    wait_loop-Settles (suc fuel) p x d o w b c = elim (Option-cases (wait_round h p x d o w).0) [
      | inl again ↦
          let later = wait_round_advances p x d o w again in
          let next = (wait_round h p x d o w).1 in
          let step : wait_loop h (suc fuel) p x d o w ≡ wait_loop h fuel p x d o next =
            rw (again, wait_loop) in
          subst (Settles x d o) (sym step)
            (wait_loop-Settles fuel p x d o next (omega arith) (omega arith))
      | inr (r, ended) ↦
          let next = (wait_round h p x d o w).1 in
          let step : wait_loop h (suc fuel) p x d o w ≡ some (r, next) = rw (ended, wait_loop) in
          subst (Settles x d o) (sym step) (
            subst (AnswersOr x o) ended (wait_round-Answers p x d o w),
            IsLate-intro d r next (λ e. wait_round_late p x d o w (ended ∙ ap some e)),
          )
    ]

    -- The wait for an answer always ends, if the clock is steady and the fuel exceeds the timeout in
    -- nanoseconds. A response carries the expected command id and was decoded from a frame that
    -- the socket delivered, a cancel is reported only if it was to be observed, a transport error
    -- is one that the socket reported, a shutdown was seen, and after a timeout the clock stands
    -- at the deadline or later.
    pub receive_response-Settles :
        (fuel poll_ms expected timeout_ms : ℕ) (o : Bool) (w : World)
        → timeout_ms * 1000000 < fuel
        → Settles expected
            (time w + timeout_ms * 1000000)
            o
            (receive_response h fuel poll_ms expected timeout_ms o w)
    unfolding receive_response
    receive_response-Settles fuel p x t o w b = rw (clock_reads w) (
        wait_loop-Settles fuel p x (time w + t * 1000000) o (clock w).1 (omega arith)
          (omega (arith, clock_keeps w)))
