-- ===== src/Core/Pipeline/Invariant.antt =====
-- The engine of src/core/pipeline.c keeps every predicate that its single updates keep, and with
-- enough fuel it always returns.
use zmk_pointing_tools.Base.{
  ℕ, zero, suc, ◌+◌, ◌-◌, ◌≤◌, ◌≡◌, refl, Bool, true, false, not, ◌||◌, Option, none, some, Status,
  err, is_success, arith, ◌==◌, get_elem?, inl, inr, Bool-cases, Option-cases, success, is_error,
  e2big, if◌then◌else◌,
}
use zmk_pointing_tools.Core.Signal.{Signal, kind, kind_eq, kind_accepted}
use zmk_pointing_tools.Core.Pipeline.Types.{
  Script, finish, emit, schedule, cancel, notify, Stage, Operation, Observation,
}
use zmk_pointing_tools.Core.Pipeline.Engine.{
  Outcome, is_some, charge, count_output, observe, hold, put_sink, put_stage, update_stage,
  stage_schedule_flush, stage_emit, run_script, emit_to_sink, hold_next, deliver, dispatch_at,
  drain_round, drain,
}

flush_of_test : (a b : Bool) → (not a || not b) ≡ false → b ≡ true
flush_of_test a b h = ground arith

module _ {S T : Type 0} where
  -- The code returned, in a state with the property.
  abbrev pub Ensures : (Operation S T → Type 0) → Outcome S T → Type 0
  Ensures P none = ⊥
  Ensures P (some (o, ret)) = P o

  -- What the single updates of the engine keep.
  pub record IsClosed (P : Operation S T → Type 0) : Type 0 where
    pub charged : (o : Operation S T) → (o.remaining_dispatches == 0) ≡ false → P o → P (charge o)
    pub refused :
        (t : T) (o : Operation S T)
        → (o.remaining_dispatches == 0) ≡ false
        → P o
        → P (put_sink t (charge o))
    pub delivered :
        (t : T) (o : Operation S T)
        → (o.remaining_dispatches == 0) ≡ false
        → P o
        → P (count_output (put_sink t (charge o)))
    pub observed : (e : Observation) (o : Operation S T) → P o → P (observe e o)
    pub held : (p : Option (ℕ × Signal)) (o : Operation S T) → P o → P (hold p o)
    pub stored :
        (index : ℕ) (state : S) (o : Operation S T)
        → P o
        → P (update_stage index (λ stage. record stage { state = state }) o)
    pub cancelled :
        (index : ℕ) (o : Operation S T)
        → P o
        → P (update_stage index (λ stage. record stage { deadline_pending = false }) o)
    pub scheduled :
        (index : ℕ) (stage : Stage S) (deadline : ℕ) (o : Operation S T)
        → get_elem? o.pipeline.stages index ≡ some stage
        → is_some stage.api.flush ≡ true
        → P o
        → P (put_stage index (record stage { deadline_ms = deadline; deadline_pending = true }) o)

  module _ (P : Operation S T → Type 0) (closed : IsClosed P) where
    schedule-Ensures :
        (index deadline : ℕ) (o : Operation S T) → P o → P (stage_schedule_flush index deadline o).0
    unfolding stage_schedule_flush
    schedule-Ensures index deadline o h = elim (Option-cases (get_elem? o.pipeline.stages index)) [
      | inl e ↦ rw (e, stage_schedule_flush) h
      | inr (stage, e) ↦
          elim (Bool-cases (not stage.api.stateful || not (is_some stage.api.flush))) [
            | inl t ↦ rw (e, stage_schedule_flush) (rw t h)
            | inr t ↦
                rw (e, stage_schedule_flush)
                  (rw t (
                    closed.scheduled index stage deadline o e
                      (flush_of_test stage.api.stateful (is_some stage.api.flush) t) h))
          ]
    ]

    -- A chain keeps the property if both its parts do.
    pub bind-Ensures :
        (m : Outcome S T) (f : Operation S T → Status → Outcome S T)
        → Ensures P m
        → ((o : Operation S T) (ret : Status) → P o → Ensures P (f o ret))
        → Ensures P (elim m [ none ↦ none | some (o, ret) ↦ f o ret ])
    bind-Ensures none f h k = h
    bind-Ensures (some (o, ret)) f h k = k o ret h

    pub if-Ensures :
        (b : Bool) (m n : Outcome S T)
        → (b ≡ true → Ensures P m)
        → (b ≡ false → Ensures P n)
        → Ensures P (if b then m else n)
    if-Ensures true m n h k = h refl
    if-Ensures false m n h k = k refl

    emit_to_sink-Ensures :
        (signal : Signal) (o : Operation S T)
        → ((t : T) → P (put_sink t o) × P (count_output (put_sink t o)))
        → P (emit_to_sink signal o).0
    unfolding emit_to_sink
    emit_to_sink-Ensures signal o sends =
        let reply = o.pipeline.sink.api.emit o.pipeline.sink.state signal in
        elim (Bool-cases (is_success reply.1)) [
          | inl e ↦ rw (e, emit_to_sink) (sends reply.0).1
          | inr e ↦ rw (e, emit_to_sink) (sends reply.0).0
        ]

    module _ (drain_held : Operation S T → Status → Outcome S T)
        (keeps : (o : Operation S T) (ret : Status) → P o → Ensures P (drain_held o ret)) where
      hold_next-Ensures :
          (pending : Option (ℕ × Signal)) (index : ℕ) (signal : Signal) (o : Operation S T)
          → P o
          → Ensures P (hold_next drain_held pending index signal o)
      unfolding hold_next
      hold_next-Ensures none index signal o h = closed.held _ o h
      hold_next-Ensures (some earlier) index signal o h =
          bind-Ensures (drain_held o success) _ (keeps o success h)
            λ after ret h'. if-Ensures (is_error ret) _ _ (λ e. h') (λ e. closed.held _ after h')

      emit-Ensures :
          (index : ℕ) (signal : Signal) (o : Operation S T)
          → P o
          → Ensures P (stage_emit drain_held index signal o)
      unfolding stage_emit
      emit-Ensures index signal o h = elim (Option-cases (get_elem? o.pipeline.stages index)) [
        | inl e ↦ rw (e, stage_emit) h
        | inr (stage, e) ↦
            rw (e, stage_emit)
              (if-Ensures (kind_eq (kind signal) stage.api.output_kind) _ _
                (λ t. hold_next-Ensures o.pending index signal _ (closed.observed _ o h)) (λ t. h))
      ]

      pub run_script-Ensures :
          (script : Script S) (index : ℕ) (o : Operation S T)
          → P o
          → Ensures P (run_script drain_held script index o)
      unfolding run_script
      run_script-Ensures (finish state ret) index o h = closed.stored index state o h
      run_script-Ensures (emit signal next) index o h =
          bind-Ensures (stage_emit drain_held index signal o) _ (emit-Ensures index signal o h)
            λ after ret h'. run_script-Ensures (next ret) index after h'
      run_script-Ensures (schedule deadline next) index o h =
          let (after, ret) = stage_schedule_flush index deadline o in
          run_script-Ensures (next ret) index after (schedule-Ensures index deadline o h)
      run_script-Ensures (cancel next) index o h =
          run_script-Ensures next index _ (closed.cancelled index o h)
      run_script-Ensures (notify event value next) index o h =
          run_script-Ensures next index _ (closed.observed _ o h)

      deliver-Ensures :
          (target : Option (Stage S)) (index : ℕ) (signal : Signal) (o : Operation S T)
          → P (charge o)
          → ((t : T) → P (put_sink t (charge o)) × P (count_output (put_sink t (charge o))))
          → Ensures P (deliver drain_held target index signal o)
      unfolding deliver
      deliver-Ensures none index signal o h sends =
          if-Ensures (kind_accepted o.pipeline.sink.api.accepted_kinds (kind signal)) _ _
            (λ t. emit_to_sink-Ensures signal (charge o) sends) (λ t. h)
      deliver-Ensures (some stage) index signal o h sends =
          if-Ensures (kind_accepted stage.api.accepted_kinds (kind signal)) _ _
            (λ t.
              run_script-Ensures (stage.api.process stage.state signal o.now_ms) index (charge o) h)
            (λ t. h)

  -- A property together with a bound on the dispatches that remain.
  abbrev pub Bounded : (Operation S T → Type 0) → ℕ → Operation S T → Type 0
  Bounded P n o = P o × (o.remaining_dispatches ≤ n)

  module _ (P : Operation S T → Type 0) (closed : IsClosed P) where
    pub Bounded-IsClosed : (n : ℕ) → IsClosed (Bounded P n)
    unfolding charge put_sink count_output observe hold update_stage put_stage
    Bounded-IsClosed n = record {
      charged = λ o r h. (closed.charged o r h.0, omega arith);
      refused = λ t o r h. (closed.refused t o r h.0, omega arith);
      delivered = λ t o r h. (closed.delivered t o r h.0, omega arith);
      observed = λ e o h. (closed.observed e o h.0, h.1);
      held = λ p o h. (closed.held p o h.0, h.1);
      stored = λ index state o h. (closed.stored index state o h.0, h.1);
      cancelled = λ index o h. (closed.cancelled index o h.0, h.1);
      scheduled =
          λ index stage deadline o e f h. (closed.scheduled index stage deadline o e f h.0, h.1);
    }

    -- A dispatch uses one of the dispatches that remain, or is refused where none does.
    pub dispatch_at-Bounded :
        (drain_held : Operation S T → Status → Outcome S T) (n index : ℕ) (signal : Signal)
        (o : Operation S T)
        → ((o : Operation S T) (ret : Status)
            → Bounded P n o
            → Ensures (Bounded P n) (drain_held o ret))
        → Bounded P (suc n) o
        → Ensures (Bounded P n) (dispatch_at drain_held index signal o)
    unfolding dispatch_at
    dispatch_at-Bounded drain_held n index signal o keeps h =
        if-Ensures (Bounded P n) (Bounded-IsClosed n) (o.remaining_dispatches == 0) _ _
          (λ spent. (h.0, ground arith))
          λ left.
            deliver-Ensures (Bounded P n) (Bounded-IsClosed n) drain_held keeps
              (get_elem? o.pipeline.stages index) index signal o
              (closed.charged o left h.0, less o h.1)
              λ t. (
                (closed.refused t o left h.0, less o h.1),
                (closed.delivered t o left h.0, less o h.1),
              )
      where
        less : (o : Operation S T) → o.remaining_dispatches ≤ suc n → o.remaining_dispatches - 1 ≤ n
        less o h = omega arith

    dispatch_at-spent :
        (drain_held : Operation S T → Status → Outcome S T) (index : ℕ) (signal : Signal)
        (o : Operation S T)
        → o.remaining_dispatches ≡ 0
        → dispatch_at drain_held index signal o ≡ some (o, err e2big)
    unfolding dispatch_at
    dispatch_at-spent drain_held index signal o e = ground arith

    round-spent :
        (drain_held : Operation S T → Status → Outcome S T) (allowed : Bool)
        (pending : Option (ℕ × Signal)) (o : Operation S T) (ret : Status)
        → ((o : Operation S T) → Bounded P 0 o → Ensures (Bounded P 0) (drain_held o (err e2big)))
        → Bounded P 0 o
        → Ensures (Bounded P 0) (drain_round drain_held allowed pending o ret)
    unfolding drain_round hold
    round-spent drain_held false pending o ret ends h = (closed.held none o h.0, h.1)
    round-spent drain_held true none o ret ends h = (closed.held none o h.0, h.1)
    round-spent drain_held true (some (index, signal)) o ret ends h =
        rw (dispatch_at-spent drain_held index signal (hold none o) (omega arith), drain_round)
          (ends (hold none o) (closed.held none o h.0, h.1))

    round-Bounded :
        (drain_held : Operation S T → Status → Outcome S T) (n : ℕ) (allowed : Bool)
        (pending : Option (ℕ × Signal)) (o : Operation S T) (ret : Status)
        → ((o : Operation S T) (ret : Status)
            → Bounded P n o
            → Ensures (Bounded P n) (drain_held o ret))
        → Bounded P (suc n) o
        → Ensures (Bounded P (suc n)) (drain_round drain_held allowed pending o ret)
    unfolding drain_round hold
    round-Bounded drain_held n false pending o ret keeps h = (closed.held none o h.0, h.1)
    round-Bounded drain_held n true none o ret keeps h = (closed.held none o h.0, h.1)
    round-Bounded drain_held n true (some (index, signal)) o ret keeps h = weaken _ (
        bind-Ensures (Bounded P n) (Bounded-IsClosed n)
          (dispatch_at drain_held index signal (hold none o)) drain_held
          (dispatch_at-Bounded drain_held n index signal (hold none o) keeps
            (closed.held none o h.0, h.1))
          keeps)
      where
        weaken : (m : Outcome S T) → Ensures (Bounded P n) m → Ensures (Bounded P (suc n)) m
        weaken none k = k
        weaken (some (o, ret)) k = (k.0, omega arith)

    pub drain-Bounded :
        (fuel n : ℕ) (o : Operation S T) (ret : Status)
        → n + 2 ≤ fuel
        → Bounded P n o
        → Ensures (Bounded P n) (drain fuel o ret)
    unfolding drain
    drain-Bounded zero n o ret enough h = absurd (omega arith)
    drain-Bounded (suc zero) n o ret enough h = absurd (omega arith)
    drain-Bounded (suc (suc fuel)) zero o ret enough h =
        round-spent (drain (suc fuel)) (is_success ret) o.pending o ret
          (λ o' h'. (closed.held none o' h'.0, h'.1)) h
    drain-Bounded (suc (suc fuel)) (suc n) o ret enough h =
        round-Bounded (drain (suc fuel)) n (is_success ret) o.pending o ret
          (λ o' ret' h'. drain-Bounded (suc fuel) n o' ret' (omega arith) h') h
