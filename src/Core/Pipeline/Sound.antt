-- ===== src/Core/Pipeline/Sound.antt =====
-- What every operation of a pipeline keeps: its place in the lifecycle, the dispatch budget's
-- accounts, and that only a stage with a flush callback waits for a deadline.
use zmk_pointing_tools.Base.{
  ℕ, zero, suc, ◌+◌, ◌≤◌, ◌≡◌, refl, ◌∙◌, ap, true, List, [], ◌∷◌, some, arith, get_elem?, set,
  modify, length, some_inj,
}
use mathlib.Core.Path.{subst}
use zmk_pointing_tools.Core.Pipeline.Types.{Stage, Pipeline, Operation}
use zmk_pointing_tools.Core.Pipeline.Engine.{
  is_some, charge, count_output, observe, hold, put_sink, put_stage, update_stage,
}
use zmk_pointing_tools.Core.Pipeline.Invariant.{IsClosed}

module _ {S : Type 0} where
  -- A pending deadline belongs to a stage that can be flushed.
  abbrev pub IsFlushable : Stage S → Type 0
  IsFlushable stage = stage.deadline_pending ≡ true → is_some stage.api.flush ≡ true

  abbrev pub AllFlushable : List (Stage S) → Type 0
  AllFlushable [] = Unit
  AllFlushable (stage ∷ rest) = IsFlushable stage × AllFlushable rest

  length-modify :
      (stages : List (Stage S)) (index : ℕ) (f : Stage S → Stage S)
      → length (modify stages index f) ≡ length stages
  length-modify [] index f = refl
  length-modify (stage ∷ rest) zero f = refl
  length-modify (stage ∷ rest) (suc index) f = ap suc (length-modify rest index f)

  length-set_stage :
      (stages : List (Stage S)) (index : ℕ) (new : Stage S)
      → length (set stages index new) ≡ length stages
  length-set_stage [] index new = refl
  length-set_stage (stage ∷ rest) zero new = refl
  length-set_stage (stage ∷ rest) (suc index) new = ap suc (length-set_stage rest index new)

  modify-AllFlushable :
      (f : Stage S → Stage S) (stages : List (Stage S)) (index : ℕ)
      → ((stage : Stage S) → IsFlushable stage → IsFlushable (f stage))
      → AllFlushable stages
      → AllFlushable (modify stages index f)
  modify-AllFlushable f [] index keeps h = h
  modify-AllFlushable f (stage ∷ rest) zero keeps h = (keeps stage h.0, h.1)
  modify-AllFlushable f (stage ∷ rest) (suc index) keeps h =
      (h.0, modify-AllFlushable f rest index keeps h.1)

  set-AllFlushable :
      (stages : List (Stage S)) (index : ℕ) (new : Stage S)
      → is_some new.api.flush ≡ true
      → AllFlushable stages
      → AllFlushable (set stages index new)
  set-AllFlushable [] index new k h = h
  set-AllFlushable (stage ∷ rest) zero new k h = (λ p. k, h.1)
  set-AllFlushable (stage ∷ rest) (suc index) new k h = (h.0, set-AllFlushable rest index new k h.1)

  pub get_elem?-IsFlushable :
      (stages : List (Stage S)) (index : ℕ) {stage : Stage S}
      → AllFlushable stages
      → get_elem? stages index ≡ some stage
      → IsFlushable stage
  get_elem?-IsFlushable [] index h e = cc
  get_elem?-IsFlushable (stage ∷ rest) zero h e = subst IsFlushable (some_inj e) h.0
  get_elem?-IsFlushable (stage ∷ rest) (suc index) h e = get_elem?-IsFlushable rest index h.1 e

module _ {S T : Type 0} where
  -- A pipeline `p'` that an operation of `p` has led to.
  pub record IsSuccessor (p p' : Pipeline S T) : Type 0 where
    pub same_address : p'.address ≡ p.address
    pub same_input : p'.input_kind ≡ p.input_kind
    pub same_budget : p'.dispatch_budget ≡ p.dispatch_budget
    pub same_validated : p'.validated ≡ p.validated
    pub same_length : length p'.stages ≡ length p.stages
    pub flushable : AllFlushable p'.stages

  pub record IsSound (p : Pipeline S T) (o : Operation S T) : Type 0 where
    pub successor : IsSuccessor p o.pipeline
    pub same_active : o.pipeline.active ≡ p.active
    pub accounted : o.remaining_dispatches + o.result.dispatches ≡ p.dispatch_budget
    pub outputs_dispatched : o.result.outputs ≤ o.result.dispatches

  -- A write to the stages that keeps their number and their deadlines' right to a flush.
  with_stages-IsSound :
      {p : Pipeline S T} (stages : List (Stage S)) (o : Operation S T)
      → length stages ≡ length o.pipeline.stages
      → AllFlushable stages
      → IsSound p o
      → IsSound p (record o { pipeline = record (o.pipeline) { stages = stages } })
  with_stages-IsSound stages o same all h = record {
    successor = record {
      same_address = h.successor.same_address;
      same_input = h.successor.same_input;
      same_budget = h.successor.same_budget;
      same_validated = h.successor.same_validated;
      same_length = same ∙ h.successor.same_length;
      flushable = all;
    };
    same_active = h.same_active;
    accounted = h.accounted;
    outputs_dispatched = h.outputs_dispatched;
  }

  update_stage-IsSound :
      {p : Pipeline S T} (f : Stage S → Stage S) (index : ℕ) (o : Operation S T)
      → ((stage : Stage S) → IsFlushable stage → IsFlushable (f stage))
      → IsSound p o
      → IsSound p (update_stage index f o)
  unfolding update_stage
  update_stage-IsSound f index o keeps h =
      with_stages-IsSound _ o (length-modify o.pipeline.stages index f)
        (modify-AllFlushable f o.pipeline.stages index keeps h.successor.flushable) h

  pub IsSound-IsClosed : (p : Pipeline S T) → IsClosed (IsSound p)
  unfolding charge count_output observe hold put_sink put_stage
  IsSound-IsClosed p = record {
    charged = λ o r h. ground arith;
    refused = λ t o r h. ground arith;
    delivered = λ t o r h. ground arith;
    observed = λ e o h. ground arith;
    held = λ q o h. ground arith;
    stored = λ index state o h. update_stage-IsSound _ index o (λ stage k. k) h;
    cancelled = λ index o h. update_stage-IsSound _ index o (λ stage k c. cc) h;
    scheduled = λ index stage deadline o e f h.
        with_stages-IsSound _ o (length-set_stage o.pipeline.stages index _)
          (set-AllFlushable o.pipeline.stages index _ f h.successor.flushable) h;
  }
