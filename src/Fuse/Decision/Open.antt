-- ===== src/Fuse/Decision/Open.antt =====
-- The plan of an `open` (Fuse/Decision.antt): its steps fit its decision.
use coding_agent_sandbox.Common.{
  ℕ, ◌≤◌, ◌≡◌, ◌≢◌, refl, Bool, true, false, Option, some, List, [], ◌∷◌, arith, member, not, ◌&&◌,
  Bool-cases, inl, inr,
}
use coding_agent_sandbox.Common.Dict.{is_some}
use coding_agent_sandbox.Proto.{entry_type_eq}
use coding_agent_sandbox.Fuse.Policy.{AccessMode, passthrough, fuse_only, copy_on_write}
use coding_agent_sandbox.Fuse.State.{OpenState}
use coding_agent_sandbox.Fuse.Decision.{
  OpenDecision, OpenObject, OpenTransitionStep, step_eq, reject_whiteout, ensure_object,
  error_missing_object_path, decide_open, extract_open_transitions, compute_open_behavior,
  is_whiteout_entry, entry_object, open_by_mode, open_fuse_only, open_cow_read, open_cow_write,
}
use mathlib.Core.List.{get_last?}

-- The order in which an open takes its steps.
abbrev rank : OpenTransitionStep → ℕ
rank reject_whiteout = 10
rank OpenTransitionStep.open_real = 20
rank error_missing_object_path = 20
rank ensure_object = 30
rank OpenTransitionStep.copy_up_from_real = 40
rank OpenTransitionStep.delete_whiteout = 50
rank OpenTransitionStep.open_object = 60

abbrev pub IsOrdered : ℕ → List OpenTransitionStep → Type 0
IsOrdered low [] = Unit
IsOrdered low (step ∷ steps) = (low ≤ rank step) × IsOrdered (rank step) steps

-- The steps are what the decision says, each flag of an object plan being one step.
abbrev pub Fits : OpenDecision → List OpenTransitionStep → Type 0
Fits OpenDecision.not_found steps = steps ≡ reject_whiteout ∷ []
Fits OpenDecision.error steps = steps ≡ error_missing_object_path ∷ []
Fits OpenDecision.open_real steps = steps ≡ OpenTransitionStep.open_real ∷ []
Fits (OpenDecision.open_object o) steps =
    (get_last? steps ≡ some OpenTransitionStep.open_object)
    × (member ensure_object steps ≡ o.needs_ensure)
    × (member OpenTransitionStep.copy_up_from_real steps ≡ o.copy_up_from_real)
    × (member OpenTransitionStep.delete_whiteout steps ≡ o.delete_whiteout)
    × ((o.copy_up_from_real && not o.needs_ensure) ≡ false)

abbrev Good : OpenDecision × List OpenTransitionStep → Type 0
Good (decision, steps) = IsOrdered 0 steps × Fits decision steps

open_fuse_only-Good : (object_id : Option ℕ) (has : Bool) → Good (open_fuse_only object_id has)
unfolding open_fuse_only member step_eq
open_fuse_only-Good object_id has = ground arith

open_cow_read-Good : (object_id : Option ℕ) (has : Bool) → Good (open_cow_read object_id has)
unfolding open_cow_read member step_eq
open_cow_read-Good object_id has = ground arith

open_cow_write-Good :
    (s : OpenState) (object_id : Option ℕ) (has : Bool) → Good (open_cow_write s object_id has)
unfolding open_cow_write member step_eq
open_cow_write-Good s object_id has = ground arith

open_by_mode_write :
    (s : OpenState) (object_id : Option ℕ) (has : Bool)
    → s.need_write ≡ true
    → open_by_mode copy_on_write s object_id has ≡ open_cow_write s object_id has
unfolding open_by_mode
open_by_mode_write s object_id has h = rw h

open_by_mode_read :
    (s : OpenState) (object_id : Option ℕ) (has : Bool)
    → s.need_write ≡ false
    → open_by_mode copy_on_write s object_id has ≡ open_cow_read object_id has
unfolding open_by_mode
open_by_mode_read s object_id has h = rw h

compute_hidden :
    (s : OpenState)
    → is_whiteout_entry s.fuse_entry ≡ true
    → compute_open_behavior s ≡ (OpenDecision.not_found, reject_whiteout ∷ [])
unfolding compute_open_behavior
compute_hidden s h = ground arith

compute_seen :
    (s : OpenState)
    → is_whiteout_entry s.fuse_entry ≡ false
    → compute_open_behavior s
      ≡ open_by_mode s.access_mode s (entry_object s.fuse_entry) (is_some s.object_path)
unfolding compute_open_behavior
compute_seen s h = ground arith

open_by_mode-Good :
    (mode : AccessMode) (s : OpenState) (object_id : Option ℕ) (has : Bool)
    → Good (open_by_mode mode s object_id has)
open_by_mode-Good passthrough s object_id has = unfold open_by_mode in (omega arith, refl)
open_by_mode-Good fuse_only s object_id has =
    unfold open_by_mode in open_fuse_only-Good object_id has
open_by_mode-Good copy_on_write s object_id has = elim (Bool-cases s.need_write) [
  | inl write ↦ rw (open_by_mode_write s object_id has write) (open_cow_write-Good s object_id has)
  | inr read ↦ rw (open_by_mode_read s object_id has read) (open_cow_read-Good object_id has)
]

compute_open_behavior-Good : (s : OpenState) → Good (compute_open_behavior s)
compute_open_behavior-Good s = elim (Bool-cases (is_whiteout_entry s.fuse_entry)) [
  | inl hidden ↦ rw (compute_hidden s hidden) (omega arith, refl)
  | inr seen ↦
      rw (compute_seen s seen)
        (open_by_mode-Good s.access_mode s (entry_object s.fuse_entry) (is_some s.object_path))
]

-- In every state, the steps of an open stand in their order, each kind at most where the order
-- allows it, and are those of the decision: an object plan ends in opening the object, each of its
-- flags is the presence of one step, and a copy-up comes with an allocation.
pub open-Fits :
    (s : OpenState)
    → IsOrdered 0 (extract_open_transitions s) × Fits (decide_open s) (extract_open_transitions s)
unfolding decide_open extract_open_transitions
open-Fits s = compute_open_behavior-Good s

-- If the decision is to open an object that needs no allocation, the object is that of the entry,
-- there is one, and its path is known.
pub open-ready :
    (s : OpenState) (o : OpenObject)
    → decide_open s ≡ OpenDecision.open_object o
    → o.needs_ensure ≡ false
    → (is_some o.existing_object_id ≡ true)
      × (o.existing_object_id ≡ entry_object s.fuse_entry)
      × (is_some s.object_path ≡ true)
unfolding decide_open compute_open_behavior open_by_mode open_fuse_only open_cow_read open_cow_write
open-ready s o h ready = ground arith

-- Where the mode is not passthrough, an open for writing is never decided to open the real file.
pub open_write-isolated :
    (s : OpenState)
    → s.access_mode ≢ passthrough
    → s.need_write ≡ true
    → decide_open s ≢ OpenDecision.open_real
unfolding decide_open compute_open_behavior open_by_mode open_fuse_only open_cow_write
open_write-isolated s mode write e = ground arith

-- The decision opens the real file, or copies it.
abbrev pub uses_real : OpenDecision → Bool
uses_real OpenDecision.open_real = true
uses_real (OpenDecision.open_object o) = o.copy_up_from_real
uses_real _ = false

-- In mode fuse_only, no open, for reading or for writing, is decided to open or to copy the real
-- file.
pub open_fuse_only-isolated :
    (s : OpenState) → s.access_mode ≡ fuse_only → uses_real (decide_open s) ≡ false
unfolding decide_open compute_open_behavior open_by_mode open_fuse_only
open_fuse_only-isolated s mode = ground arith
