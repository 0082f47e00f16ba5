-- ===== src/Core/Router/Active.antt =====
-- Which pipelines of a router are active: the lists in which only one place is, and what a change
-- of that place does.
use zmk_pointing_tools.Base.{
  subst, get_elem?, set, true, [], zero, none, suc, List, false, some_inj, ℕ, Option, some, ◌≡◌,
  ◌∷◌,
}
use zmk_pointing_tools.Core.Pipeline.Sound.{AllFlushable}
use zmk_pointing_tools.Core.Pipeline.Types.{Pipeline}

module _ {S T : Type 0} where
  -- Exactly the pipeline at the index is active; at `none`, no pipeline is.
  abbrev pub OnlyActive : List (Pipeline S T) → Option ℕ → Type 0
  OnlyActive [] index = Unit
  OnlyActive (p ∷ rest) none = (p.active ≡ false) × OnlyActive rest none
  OnlyActive (p ∷ rest) (some zero) = (p.active ≡ true) × OnlyActive rest none
  OnlyActive (p ∷ rest) (some (suc index)) = (p.active ≡ false) × OnlyActive rest (some index)

  -- Every pipeline is validated, and its deadlines can be flushed.
  abbrev pub AllReady : List (Pipeline S T) → Type 0
  AllReady [] = Unit
  AllReady (p ∷ rest) = (p.validated ≡ true) × AllFlushable p.stages × AllReady rest

  pub active-get_elem? :
      (ps : List (Pipeline S T)) (index : ℕ) {p : Pipeline S T}
      → OnlyActive ps (some index)
      → get_elem? ps index ≡ some p
      → p.active ≡ true
  active-get_elem? [] index h e = cc
  active-get_elem? (q ∷ rest) zero h e =
      subst (λ (r : Pipeline S T). r.active ≡ true) (some_inj e) h.0
  active-get_elem? (q ∷ rest) (suc index) h e = active-get_elem? rest index h.1 e

  pub idle-get_elem? :
      (ps : List (Pipeline S T)) (index : ℕ) {p : Pipeline S T}
      → OnlyActive ps none
      → get_elem? ps index ≡ some p
      → p.active ≡ false
  idle-get_elem? [] index h e = cc
  idle-get_elem? (q ∷ rest) zero h e =
      subst (λ (r : Pipeline S T). r.active ≡ false) (some_inj e) h.0
  idle-get_elem? (q ∷ rest) (suc index) h e = idle-get_elem? rest index h.1 e

  pub ready-get_elem? :
      (ps : List (Pipeline S T)) (index : ℕ) {p : Pipeline S T}
      → AllReady ps
      → get_elem? ps index ≡ some p
      → (p.validated ≡ true) × AllFlushable p.stages
  ready-get_elem? [] index h e = cc
  ready-get_elem? (q ∷ rest) zero h e =
      subst (λ (r : Pipeline S T). (r.validated ≡ true) × AllFlushable r.stages) (some_inj e)
        (h.0, h.1)
  ready-get_elem? (q ∷ rest) (suc index) h e = ready-get_elem? rest index h.2 e

  pub set-ready :
      (ps : List (Pipeline S T)) (index : ℕ) (p : Pipeline S T)
      → AllReady ps
      → p.validated ≡ true
      → AllFlushable p.stages
      → AllReady (set ps index p)
  set-ready [] index p h v f = h
  set-ready (q ∷ rest) zero p h v f = (v, f, h.2)
  set-ready (q ∷ rest) (suc index) p h v f = (h.0, h.1, set-ready rest index p h.2 v f)

  -- The active pipeline stops.
  pub set-stops :
      (ps : List (Pipeline S T)) (index : ℕ) (p : Pipeline S T)
      → OnlyActive ps (some index)
      → p.active ≡ false
      → OnlyActive (set ps index p) none
  set-stops [] index p h a = h
  set-stops (q ∷ rest) zero p h a = (a, h.1)
  set-stops (q ∷ rest) (suc index) p h a = (h.0, set-stops rest index p h.1 a)

  -- A pipeline starts where none is active.
  pub set-starts :
      (ps : List (Pipeline S T)) (index : ℕ) (p : Pipeline S T)
      → OnlyActive ps none
      → p.active ≡ true
      → OnlyActive (set ps index p) (some index)
  set-starts [] index p h a = h
  set-starts (q ∷ rest) zero p h a = (a, h.1)
  set-starts (q ∷ rest) (suc index) p h a = (h.0, set-starts rest index p h.1 a)

  pub set-stays_idle :
      (ps : List (Pipeline S T)) (index : ℕ) (p : Pipeline S T)
      → OnlyActive ps none
      → p.active ≡ false
      → OnlyActive (set ps index p) none
  set-stays_idle [] index p h a = h
  set-stays_idle (q ∷ rest) zero p h a = (a, h.1)
  set-stays_idle (q ∷ rest) (suc index) p h a = (h.0, set-stays_idle rest index p h.1 a)

  pub set-stays_active :
      (ps : List (Pipeline S T)) (index : ℕ) (p : Pipeline S T)
      → OnlyActive ps (some index)
      → p.active ≡ true
      → OnlyActive (set ps index p) (some index)
  set-stays_active [] index p h a = h
  set-stays_active (q ∷ rest) zero p h a = (a, h.1)
  set-stays_active (q ∷ rest) (suc index) p h a = (h.0, set-stays_active rest index p h.1 a)

  pub none-get_elem? :
      (ps : List (Pipeline S T)) (index : ℕ)
      → OnlyActive ps (some index)
      → get_elem? ps index ≡ none
      → OnlyActive ps none
  none-get_elem? [] index h e = h
  none-get_elem? (q ∷ rest) zero h e = cc
  none-get_elem? (q ∷ rest) (suc index) h e = (h.0, none-get_elem? rest index h.1 e)
