-- ===== src/Postgres/Server/Refinement.antt =====
-- An append on the server, without another at the same time, against the memory store.
use dcb_event_store_pg_go.Base.{
  ℕ, ◌+◌, ◌<◌, ◌≤◌, ◌^◌, ◌≡◌, refl, sym, ap, ◌∙◌, inl, inr, Bool-cases, List, [], ◌∷◌, ◌++◌, none,
  some, ok, Memᴰ, length, suc, false, Option,
}
use dcb_event_store_pg_go.EventStore.Condition.{AppendCommand, AppendCondition}
use dcb_event_store_pg_go.EventStore.Event.{SequencedEvent}
use dcb_event_store_pg_go.EventStore.Position.{SequencePosition}
use dcb_event_store_pg_go.Memory.Matching.Meaning.{any_match_after_iff}
use dcb_event_store_pg_go.Memory.Matching.{any_match_after}
use dcb_event_store_pg_go.Memory.Order.{Above, Ascending}
use dcb_event_store_pg_go.Memory.Position.{last_position}
use dcb_event_store_pg_go.Memory.Store.{Store, append}
use dcb_event_store_pg_go.Memory.Store.Append.{batch_events, numbered}
use dcb_event_store_pg_go.Memory.Store.Contract.{IsValid, HasRoom, stored}
use dcb_event_store_pg_go.Memory.Store.Promises.{append_success_iff, append_atomic}
use dcb_event_store_pg_go.Memory.Store.Violations.{Allowed, AllAllowed}
use dcb_event_store_pg_go.Postgres.Append.{all_events_of}
use dcb_event_store_pg_go.Postgres.Conditions.Agreement.{
  AllSendable, is_violated, violated_index, check_conditions-violated_index,
}
use dcb_event_store_pg_go.Postgres.Serialize.TagText.{StringToArray}
use dcb_event_store_pg_go.Postgres.Server.{
  Route, Job, write, rows_of, committed, locks_of, Server, Reach, IsStart,
}
use dcb_event_store_pg_go.Postgres.Conditions.Rows.{table_of, mem-table, row_of}
use dcb_event_store_pg_go.Postgres.Append.{copy_rows}
use dcb_event_store_pg_go.Postgres.Server.Alone.{run_alone}
use dcb_event_store_pg_go.Postgres.Server.Rows.{
  PlainJob, rows_of-copy_rows, rows_from, rows_from-copy_rows, length-copy_rows, table_of-append,
}

all_events_of-batch_events :
    (commands : List AppendCommand) → all_events_of commands ≡ batch_events commands
unfolding all_events_of
all_events_of-batch_events [] = refl
all_events_of-batch_events (cmd ∷ commands) = rw (all_events_of-batch_events commands)

is_violated-Allowed :
    (existing : List SequencedEvent) (condition : Option AppendCondition)
    → Allowed existing condition
    → is_violated existing condition ≡ false
is_violated-Allowed existing none h = refl
is_violated-Allowed existing (some c) h =
    elim (Bool-cases (any_match_after existing c.fail_if_events_match c.after)) [
      | inl e ↦ absurd (h ((any_match_after_iff existing c.fail_if_events_match c.after).0 e))
      | inr e ↦ e
    ]

violated_index-AllAllowed :
    (existing : List SequencedEvent) (i : ℕ) (commands : List AppendCommand)
    → AllAllowed existing commands
    → violated_index existing i commands ≡ none
violated_index-AllAllowed existing i [] h = refl
violated_index-AllAllowed existing i (cmd ∷ commands) (h, rest) =
    rw (is_violated-Allowed existing cmd.condition h)
      (violated_index-AllAllowed existing (suc i) commands rest)

Above-zero :
    (events : List SequencedEvent)
    → Ascending events
    → ((se : SequencedEvent) → Memᴰ se events → 0 < se.position.value)
    → Above 0 events
Above-zero [] a h = tt
Above-zero (se ∷ events) a h = (h se (Memᴰ.head refl), a)

module _ (server : StringToArray) (jobs : ℕ → Job) (i : ℕ) (s : Server) (m : Store) (route : Route)
    (commands : List AppendCommand) where
  -- A batch of at most 2^31 commands that can be sent, whose events have no tag that is empty or
  -- has the delimiter if it goes by the stored function, and that a valid memory store with room
  -- accepts, is accepted by the server too, where the table has the rows of the memory store's
  -- events, the sequence stands at the last position, and no transaction is under way: the
  -- transaction can run to its commit; the table has then the rows of the memory store's events
  -- after its Append, and the sequence stands at the position that the memory store returned.
  pub commits_as_memory :
      (p : SequencePosition)
      → IsStart s
      → jobs i ≡ write route commands
      → PlainJob (write route commands)
      → IsValid m
      → HasRoom m commands
      → s.table ≡ table_of m.events
      → s.last_value ≡ (last_position m.events).value
      → length commands ≤ 2 ^ 31
      → AllSendable commands
      → (append none commands m).1 ≡ ok p
      → (t : Server) × Reach server jobs s t
        × (t.stage i ≡ committed (table_of (numbered s.last_value (all_events_of commands))))
        × (t.table ≡ table_of (append none commands m).0.events)
        × (t.last_value ≡ p.value)
  commits_as_memory p start job plain valid room same last short sendable accepted =
      let (validated, allowed, _, at) = (append_success_iff m commands valid room p).0 accepted in
      let bounds = λ (se : SequencedEvent) (n : Memᴰ se m.events).
        start.numbered (row_of se) (rw same (mem-table m.events n)) in
      let above : Above 0 m.events =
        Above-zero m.events valid.ascending (λ se n. (bounds se n).0) in
      let checked =
        check_conditions-violated_index server m.events s.last_value above (λ se n. (bounds se n).1)
          commands short sendable in
      let none_violated = violated_index-AllAllowed m.events 0 commands allowed in
      let clear = rw (none_violated, sym same) at checked in
      let r =
        run_alone server jobs i s route commands job (start.unused i)
          (λ j _. ap locks_of (start.unused j)) validated clear in
      (
        r.end,
        r.run,
        r.at ∙ ap committed stored_rows,
        r.table_is ∙ tables_equal,
        r.last_is ∙ new_events at,
      )
    where
      inserted : rows_of server route commands ≡ copy_rows (all_events_of commands)
      inserted = rows_of-copy_rows server route commands plain

      stored_rows :
          rows_from s.last_value (rows_of server route commands)
          ≡ table_of (numbered s.last_value (all_events_of commands))
      stored_rows =
          ap (rows_from s.last_value) inserted
          ∙ rows_from-copy_rows s.last_value (all_events_of commands)

      kept :
          (append none commands m).0
          ≡ stored m (numbered (last_position m.events).value (batch_events commands))
      kept = elim (append_atomic m commands valid room) [
        | inl (_, refused) ↦ absurd (refused p accepted)
        | inr (_, _, e) ↦ e
      ]

      tables_equal :
          s.table ++ rows_from s.last_value (rows_of server route commands)
          ≡ table_of (append none commands m).0.events
      tables_equal =
          ap (◌++◌ s.table) stored_rows
          ∙ rw (same, last, all_events_of-batch_events) refl
          ∙ sym (
              table_of-append m.events
                (numbered (last_position m.events).value (batch_events commands)))
          ∙ sym (ap (λ x. table_of x.events) kept)

      new_events :
          p.value ≡ (last_position m.events).value + length (batch_events commands)
          → s.last_value + length (rows_of server route commands) ≡ p.value
      new_events at =
          ap (λ n. s.last_value + n)
            (ap length inserted
              ∙ length-copy_rows (all_events_of commands)
              ∙ ap length (all_events_of-batch_events commands))
          ∙ ap (λ n. n + length (batch_events commands)) last
          ∙ sym at
