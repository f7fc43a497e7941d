-- ===== src/Postgres/Conditions/Agreement.antt =====
-- The check on the server finds the command that the memory store finds, on the same events.
use dcb_event_store_pg_go.Base.{
  ℕ, suc, ◌+◌, ◌<◌, ◌≤◌, ◌^◌, ◌≡◌, refl, sym, ap, ◌∙◌, ◌↔◌, ◌||◌, Bool, true, false, List, [], ◌∷◌,
  ◌++◌, Option, none, some, if◌then◌else◌, any, any_sound, any_complete, ℤ, pos, Memᴰ, arith,
  Bool-ext, inl, inr, length,
}
use mathlib.Core.Option
use mathlib.Core.Path.{subst}
use dcb_event_store_pg_go.EventStore.Condition.{AppendCommand, AppendCondition}
use dcb_event_store_pg_go.EventStore.Event.{SequencedEvent}
use dcb_event_store_pg_go.EventStore.Position.{SequencePosition}
use dcb_event_store_pg_go.EventStore.Query.{QueryItem, is_all}
use dcb_event_store_pg_go.Memory.Matching.{any_match_after}
use dcb_event_store_pg_go.Memory.Matching.Meaning.{Matches, IsPast, any_match_after_iff}
use dcb_event_store_pg_go.Memory.Order.{Above, lt_of_Above}
use dcb_event_store_pg_go.Postgres.Conditions.{
  StoredRow, row_hit, row_failed, least, check_function, append_check, query_check,
  check_conditions,
}
use dcb_event_store_pg_go.Postgres.Conditions.Rows.{
  row_of, table_of, PlainItems, mem_of_table, mem-table, mem_of_item_rows, mem-item_rows,
  row_hit_sound, row_hit_complete,
}
use dcb_event_store_pg_go.Postgres.Position.{position_to_int64_iff}
use dcb_event_store_pg_go.Postgres.Serialize.{
  ConditionRow, to_int32, after_int64, item_rows, condition_rows, conditions_from,
  serialize_conditions,
}
use dcb_event_store_pg_go.Postgres.Serialize.TagText.{StringToArray}

-- The short cut for one row and the procedure for several give the same answer.
pub append_check-check_function :
    (server : StringToArray) (table : List StoredRow) (hwm : ℤ) (conds : List ConditionRow)
    → append_check server table hwm conds ≡ check_function server table hwm conds
unfolding append_check check_function least
append_check-check_function server table hwm [] = refl
append_check-check_function server table hwm (c ∷ []) = refl
append_check-check_function server table hwm (c ∷ c' ∷ conds) = refl

-- A condition that can be sent: it is scoped to items, no tag holds the delimiter, and its position
-- fits int64.
abbrev pub AfterFits : Option SequencePosition → Type 0
AfterFits none = Unit
AfterFits (some p) = p.value < 2 ^ 63

abbrev pub Sendable : Option AppendCondition → Type 0
Sendable none = Unit
Sendable (some c) =
    (is_all c.fail_if_events_match ≡ false)
    × PlainItems c.fail_if_events_match.items
    × AfterFits c.after

abbrev pub AllSendable : List AppendCommand → Type 0
AllSendable [] = Unit
AllSendable (cmd ∷ commands) = Sendable cmd.condition × AllSendable commands

abbrev pub is_violated : List SequencedEvent → Option AppendCondition → Bool
is_violated existing none = false
is_violated existing (some c) = any_match_after existing c.fail_if_events_match c.after

-- The index, from `i` on, of the first command whose condition an event violates.
abbrev pub violated_index : List SequencedEvent → ℕ → List AppendCommand → Option ℕ
violated_index existing i [] = none
violated_index existing i (cmd ∷ commands) =
    if is_violated existing cmd.condition then some i else violated_index existing (suc i) commands

-- The number that `after_int64` sends.
abbrev pub after_of : Option SequencePosition → ℕ
after_of none = 0
after_of (some p) = p.value

pub after_int64_lem :
    (after : Option SequencePosition)
    → AfterFits after
    → after_int64 after ≡ some (pos (after_of after))
unfolding after_int64
after_int64_lem none h = refl
after_int64_lem (some p) h = (position_to_int64_iff p (omega arith)).0.1 h

pub IsPast-iff :
    (after : Option SequencePosition) (se : SequencedEvent)
    → 0 < se.position.value
    → IsPast after se ↔ (after_of after < se.position.value)
IsPast-iff none se h = (λ _. h, λ _. tt)
IsPast-iff (some p) se h = (λ q. q, λ q. q)

module _ (server : StringToArray) (existing : List SequencedEvent) (hwm : ℕ)
    (numbered_from_one : Above 0 existing)
    (below_hwm : (se : SequencedEvent) → Memᴰ se existing → se.position.value ≤ hwm) where
  abbrev failed : ConditionRow → Bool
  failed = row_failed server (table_of existing) (pos hwm)

  rows_fail :
      (idx : ℤ) (c : AppendCondition)
      → is_all c.fail_if_events_match ≡ false
      → PlainItems c.fail_if_events_match.items
      → any failed (item_rows idx (pos (after_of c.after)) c.fail_if_events_match.items)
        ≡ any_match_after existing c.fail_if_events_match c.after
  unfolding row_failed
  rows_fail idx c scoped plain = Bool-ext _ _ sound complete
    where
      items : List QueryItem
      items = c.fail_if_events_match.items

      sound :
          any failed (item_rows idx (pos (after_of c.after)) items) ≡ true
          → any_match_after existing c.fail_if_events_match c.after ≡ true
      sound h =
          let (row, m, f) = any_sound failed (item_rows idx (pos (after_of c.after)) items) h in
          let (item, t, n, k, p, e) = mem_of_item_rows idx (pos (after_of c.after)) items plain m in
          let (stored, a, hit) = any_sound (row_hit server (pos hwm) row) (table_of existing) f in
          let (se, b, q) = mem_of_table existing a in
          let (same_type, sub, lt, le) =
            row_hit_sound server idx (after_of c.after) hwm item t se p (
              subst (λ r. row_hit server (pos hwm) r (row_of se) ≡ true) e
                (subst (λ r. row_hit server (pos hwm) row r ≡ true) q hit)) in
          (any_match_after_iff existing c.fail_if_events_match c.after).1 (
            se,
            b,
            (IsPast-iff c.after se (lt_of_Above 0 existing numbered_from_one b)).1 lt,
            inr (item, n, (subst (λ x. Memᴰ x item.types) (sym same_type) k, sub)),
          )

      complete :
          any_match_after existing c.fail_if_events_match c.after ≡ true
          → any failed (item_rows idx (pos (after_of c.after)) items) ≡ true
      complete h = found ((any_match_after_iff existing c.fail_if_events_match c.after).0 h)
        where
          found :
              ((se : SequencedEvent) × Memᴰ se existing
                × IsPast c.after se
                × Matches c.fail_if_events_match se.event)
              → any failed (item_rows idx (pos (after_of c.after)) items) ≡ true
          found (se, b, past, inl a) = absurd (cc)
          found (se, b, past, inr (item, n, (k, sub))) =
              let (m, p) = mem-item_rows idx (pos (after_of c.after)) items plain n k in
              any_complete failed _ m (
                any_complete (row_hit server (pos hwm) _) (row_of se) (mem-table existing b) (
                  row_hit_complete server idx (after_of c.after) hwm item se.event.event_type se p (
                    refl,
                    sub,
                    (IsPast-iff c.after se (lt_of_Above 0 existing numbered_from_one b)).0 past,
                    below_hwm se b,
                  )))

  violated_index-le :
      (i : ℕ) (commands : List AppendCommand) {k : ℕ}
      → violated_index existing i commands ≡ some k
      → i ≤ k
  violated_index-le i [] h = absurd (ground arith)
  violated_index-le i (cmd ∷ commands) {k} h =
      ground (arith, violated_index-le (suc i) commands {k = k})

  -- Rows of one index in front of rows of later ones.
  check_function-append :
      (i : ℕ) (rows later : List ConditionRow) (later_index : Option ℕ)
      → ((c : ConditionRow) → Memᴰ c rows → c.cmd_idx ≡ pos i)
      → check_function server (table_of existing) (pos hwm) later ≡ Option.map pos later_index
      → ((k : ℕ) → later_index ≡ some k → i ≤ k)
      → check_function server (table_of existing) (pos hwm) (rows ++ later)
        ≡ Option.map pos (if any failed rows then some i else later_index)
  unfolding check_function row_failed row_hit
  check_function-append i [] later later_index same h low = h
  check_function-append i (c ∷ rows) later later_index same h low =
      let rest =
        check_function-append i rows later later_index (λ d m. same d (Memᴰ.tail m)) h low in
      rw (rest, same c (Memᴰ.head refl)) (by_tests (failed c) (any failed rows) later_index low)
    where
      by_tests :
          (now later_fails : Bool) (o : Option ℕ)
          → ((k : ℕ) → o ≡ some k → i ≤ k)
          → (if now
              then least server (pos i) (Option.map pos (if later_fails then some i else o))
              else Option.map pos (if later_fails then some i else o))
            ≡ Option.map pos (if now || later_fails then some i else o)
      by_tests false later_fails o low = refl
      by_tests true true o low = unfold least in ground arith
      by_tests true false none low = unfold least in refl
      by_tests true false (some k) low = unfold least in ground (arith, low k refl)

  to_int32_lem : (i : ℕ) → i < 2 ^ 31 → to_int32 i ≡ pos i
  unfolding to_int32
  to_int32_lem i h = ground arith

  condition_rows_lem :
      (i : ℕ) (condition : Option AppendCondition)
      → i < 2 ^ 31
      → Sendable condition
      → (rows : List ConditionRow) × (condition_rows i condition ≡ some rows)
        × ((c : ConditionRow) → Memᴰ c rows → c.cmd_idx ≡ pos i)
        × (any failed rows ≡ is_violated existing condition)
  unfolding condition_rows
  condition_rows_lem i none h s = ([], refl, (λ c m. elim m [ ]), refl)
  condition_rows_lem i (some c) h (scoped, plain, fits) = (
    item_rows (pos i) (pos (after_of c.after)) c.fail_if_events_match.items,
    rw (after_int64_lem c.after fits, condition_rows) (rw (to_int32_lem i h) refl),
    (λ d m.
        let (item, t, n, k, p, e) =
          mem_of_item_rows (pos i) (pos (after_of c.after)) c.fail_if_events_match.items plain m in
        ap (λ r. r.cmd_idx) e),
    rows_fail (pos i) c scoped plain,
  )

  conditions_lem :
      (i : ℕ) (commands : List AppendCommand)
      → i + length commands ≤ 2 ^ 31
      → AllSendable commands
      → (rows : List ConditionRow) × (conditions_from i commands ≡ some rows)
        × (check_function server (table_of existing) (pos hwm) rows
            ≡ Option.map pos (violated_index existing i commands))
  unfolding conditions_from
  conditions_lem i [] h s = ([], refl, unfold check_function in refl)
  conditions_lem i (cmd ∷ commands) h (s, rest) =
      let (rows, made, same, fails) = condition_rows_lem i cmd.condition (omega arith) s in
      let (later, made', checked) = conditions_lem (suc i) commands (omega arith) rest in
      (
        rows ++ later,
        rw (made, conditions_from) (rw (made', conditions_from) refl),
        check_function-append i rows later (violated_index existing (suc i) commands) same checked
              (λ k e. omega (arith, violated_index-le (suc i) commands {k = k} e))
            ∙ ap
                (λ b.
                  Option.map pos (if b then some i else violated_index existing (suc i) commands))
                fails,
      )

  pub check_conditions-violated_index :
      (commands : List AppendCommand)
      → length commands ≤ 2 ^ 31
      → AllSendable commands
      → check_conditions server (table_of existing) (pos hwm) commands
        ≡ some (Option.map pos (violated_index existing 0 commands))
  unfolding check_conditions serialize_conditions
  check_conditions-violated_index commands h s =
      let (rows, made, checked) = conditions_lem 0 commands (omega arith) s in
      rw (made, check_conditions) (ap some (queried rows ∙ checked))
    where
      queried :
          (rows : List ConditionRow)
          → query_check server (table_of existing) (pos hwm) rows
            ≡ check_function server (table_of existing) (pos hwm) rows
      queried [] = unfold check_function in refl
      queried (c ∷ rows) = refl
