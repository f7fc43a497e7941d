-- ===== src/Memory/Store/Violations.antt =====
-- Which violation `Append` of memory/store.go finds in a batch, if any.
use dcb_event_store_pg_go.Base.{
  ℕ, suc, ◌+◌, ◌≡◌, refl, ◌↔◌, inl, inr, Bool, List, [], ◌∷◌, Option, none, some, arith,
  if◌then◌else◌, Option-cases, Bool-cases, Memᴰ, get_elem?, take,
}
use dcb_event_store_pg_go.EventStore.Condition.{
  AppendCondition, AppendCommand, AppendConditionError,
}
use dcb_event_store_pg_go.EventStore.Event.{SequencedEvent}
use dcb_event_store_pg_go.Memory.Matching.{any_match_after}
use dcb_event_store_pg_go.Memory.Matching.Meaning.{IsPast, Matches, any_match_after_iff}
use dcb_event_store_pg_go.Memory.Store.{violation}
use dcb_event_store_pg_go.Memory.Store.Append.{first_violation}

-- No stored event violates the condition.
abbrev pub Allowed : List SequencedEvent → Option AppendCondition → Type 0
Allowed existing none = Unit
Allowed existing (some c) = ¬ (
    (se : SequencedEvent) × Memᴰ se existing
    × IsPast c.after se
    × Matches c.fail_if_events_match se.event)

abbrev pub AllAllowed : List SequencedEvent → List AppendCommand → Type 0
AllAllowed existing [] = Unit
AllAllowed existing (cmd ∷ commands) = Allowed existing cmd.condition × AllAllowed existing commands

pub violation_iff :
    (existing : List SequencedEvent) (multi : Bool) (i : ℕ) (condition : Option AppendCondition)
    → (violation existing multi i condition ≡ none) ↔ Allowed existing condition
unfolding violation
violation_iff existing multi i none = (λ _. tt, λ _. refl)
violation_iff existing multi i (some c) =
    elim (Bool-cases (any_match_after existing c.fail_if_events_match c.after)) [
      | inl e ↦ (
        λ h. absurd (ground arith),
        λ no_match.
            absurd (no_match ((any_match_after_iff existing c.fail_if_events_match c.after).0 e)),
      )
      | inr e ↦ (
        λ h found. cc ((any_match_after_iff existing c.fail_if_events_match c.after).1 found),
        λ h. rw e,
      )
    ]

pub first_violation_iff :
    (existing : List SequencedEvent) (multi : Bool) (i : ℕ) (commands : List AppendCommand)
    → (first_violation existing multi i commands ≡ none) ↔ AllAllowed existing commands
first_violation_iff existing multi i [] = (λ _. tt, λ _. refl)
first_violation_iff existing multi i (cmd ∷ commands) =
    let (found, clear) = violation_iff existing multi i cmd.condition in
    let (found_rest, clear_rest) = first_violation_iff existing multi (suc i) commands in
    (
      λ h. (found (ground arith), found_rest (ground arith)),
      λ h. rw (clear h.0, first_violation) (clear_rest h.1),
    )

-- The violation that a batch fails with, when its commands are numbered from `i` on: the command is
-- the first that is not allowed.
abbrev pub FirstViolation :
    List SequencedEvent → Bool → ℕ → List AppendCommand → AppendConditionError → Type 0
FirstViolation existing multi i commands e =
    (k : ℕ) × (cmd : AppendCommand) × (get_elem? commands k ≡ some cmd)
    × (cmd.condition ≡ some e.append_condition)
    × (¬ Allowed existing cmd.condition)
    × AllAllowed existing (take k commands)
    × (e.command_index ≡ (if multi then some (i + k) else none))

pub violation_sound :
    (existing : List SequencedEvent) (multi : Bool) (i : ℕ) (condition : Option AppendCondition)
    {e : AppendConditionError}
    → violation existing multi i condition ≡ some e
    → (condition ≡ some e.append_condition) × (e.command_index ≡ (if multi then some i else none))
unfolding violation
violation_sound existing multi i none h = absurd (ground arith)
violation_sound existing multi i (some c) {e} h = ground arith

pub first_violation_sound :
    (existing : List SequencedEvent) (multi : Bool) (i : ℕ) (commands : List AppendCommand)
    {e : AppendConditionError}
    → first_violation existing multi i commands ≡ some e
    → FirstViolation existing multi i commands e
first_violation_sound existing multi i [] h = absurd (ground arith)
first_violation_sound existing multi i (cmd ∷ commands) {e} h =
    elim (Option-cases (violation existing multi i cmd.condition)) [
      | inl clear ↦
          let (k, c, at, cond, bad, before, index) =
            first_violation_sound existing multi (suc i) commands {e = e} (ground arith) in
          (
            suc k,
            c,
            at,
            cond,
            bad,
            ((violation_iff existing multi i cmd.condition).0 clear, before),
            ground arith,
          )
      | inr (e', hit) ↦
          let same : e' ≡ e = ground arith in
          let (cond, index) = violation_sound existing multi i cmd.condition {e = e} (cc) in
          (
            0,
            cmd,
            refl,
            cond,
            (λ allowed. cc ((violation_iff existing multi i cmd.condition).1 allowed)),
            tt,
            ground arith,
          )
    ]
