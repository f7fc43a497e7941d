-- ===== src/Postgres/Server/Locks.antt =====
-- The locks that transactions plan clash wherever one of them must wait for the other.
use dcb_event_store_pg_go.Base.{
  ◌≡◌, refl, ap, ◌⊎◌, inl, inr, Bool-cases, List, [], ◌∷◌, none, some, Option-cases, ℤ, le_ℤ, Memᴰ,
  arith,
}
use dcb_event_store_pg_go.Base.Memᴰ
use dcb_event_store_pg_go.EventStore.Condition.{
  AppendCommand, AppendCondition, validate_append_condition,
}
use dcb_event_store_pg_go.EventStore.Event.{Event}
use dcb_event_store_pg_go.EventStore.Query.{Query}
use dcb_event_store_pg_go.Memory.Matching.Meaning.{Matches}
use dcb_event_store_pg_go.Memory.Store.{validate_commands, scope_of}
use dcb_event_store_pg_go.Postgres.Append.{all_events_of, collect_keys}
use dcb_event_store_pg_go.Postgres.Append.Batches.{batches_exclude, barrier_meets_batch}
use dcb_event_store_pg_go.Postgres.LockKeys.{compute_reader_lock_keys}
use dcb_event_store_pg_go.Postgres.LockKeys.Coverage.{Meet}
use dcb_event_store_pg_go.Postgres.Server.{
  Mode, shared, exclusive, Lock, with_mode, insert_lock, by_key, Route, Job, write, barrier, plan,
  Clash,
}

mem-insert_lock_self : (l : Lock) (locks : List Lock) → Memᴰ l (insert_lock l locks)
unfolding insert_lock
mem-insert_lock_self l [] = Memᴰ.head refl
mem-insert_lock_self l (m ∷ locks) = elim (Bool-cases (le_ℤ l.key m.key)) [
  | inl e ↦ rw e (Memᴰ.head refl)
  | inr e ↦ rw e (Memᴰ.tail (mem-insert_lock_self l locks))
]

insert_lock_keeps :
    (l : Lock) {x : Lock} (locks : List Lock) → Memᴰ x locks → Memᴰ x (insert_lock l locks)
unfolding insert_lock
insert_lock_keeps l [] n = elim n [ ]
insert_lock_keeps l (m ∷ locks) n = elim (Bool-cases (le_ℤ l.key m.key)) [
  | inl e ↦ rw e (Memᴰ.tail n)
  | inr e ↦ rw e (elim n [
    | Memᴰ.head q ↦ Memᴰ.head q
    | Memᴰ.tail n' ↦ Memᴰ.tail (insert_lock_keeps l locks n')
  ])
]

pub mem-by_key : {x : Lock} (locks : List Lock) → Memᴰ x locks → Memᴰ x (by_key locks)
unfolding by_key
mem-by_key [] n = elim n [ ]
mem-by_key (l ∷ locks) (Memᴰ.head e) = Memᴰ.cast e (mem-insert_lock_self l (by_key locks))
mem-by_key (l ∷ locks) (Memᴰ.tail n) = insert_lock_keeps l (by_key locks) (mem-by_key locks n)

mem-with_mode :
    (mode : Mode) {k : ℤ} (keys : List ℤ)
    → Memᴰ k keys
    → Memᴰ (record { key = k; mode = mode }) (with_mode mode keys)
mem-with_mode mode [] n = elim n [ ]
mem-with_mode mode (j ∷ keys) (Memᴰ.head e) =
    Memᴰ.head (ap (λ k. record { key = k; mode = mode }) e)
mem-with_mode mode (j ∷ keys) (Memᴰ.tail n) = Memᴰ.tail (mem-with_mode mode keys n)

-- Two plans with locks that clash.
abbrev pub Contend : Job → Job → Type 0
Contend a b = (l m : Lock) × Memᴰ l (plan a) × Memᴰ m (plan b) × Clash l m

mem_of_all_events :
    (commands : List AppendCommand) {ev : Event}
    → Memᴰ ev (all_events_of commands)
    → (cmd : AppendCommand) × Memᴰ cmd commands × Memᴰ ev cmd.events
unfolding all_events_of
mem_of_all_events [] m = elim m [ ]
mem_of_all_events (cmd ∷ commands) {ev} m =
    which (Memᴰ.append_cases cmd.events m) (mem_of_all_events commands {ev = ev})
  where
    which :
        Memᴰ ev cmd.events ⊎ Memᴰ ev (all_events_of commands)
        → (Memᴰ ev (all_events_of commands)
            → (c : AppendCommand) × Memᴰ c commands × Memᴰ ev c.events)
        → (c : AppendCommand) × Memᴰ c (cmd ∷ commands) × Memᴰ ev c.events
    which (inl n) later = (cmd, Memᴰ.head refl, n)
    which (inr n) later = let (c, a, b) = later n in (c, Memᴰ.tail a, b)

valid_of_mem :
    (commands : List AppendCommand) {cmd : AppendCommand} {c : AppendCondition}
    → validate_commands commands ≡ none
    → Memᴰ cmd commands
    → cmd.condition ≡ some c
    → validate_append_condition c ≡ none
unfolding validate_commands scope_of
valid_of_mem [] v m e = elim m [ ]
valid_of_mem (x ∷ commands) {cmd} {c} v m e = elim (Option-cases (scope_of x.condition)) [
  | inl clear ↦ split clear (valid_of_mem commands {cmd = cmd} {c = c} (ground arith)) m
  | inr (err, bad) ↦ absurd (ground arith)
]
  where
    split :
        scope_of x.condition ≡ none
        → (Memᴰ cmd commands → cmd.condition ≡ some c → validate_append_condition c ≡ none)
        → Memᴰ cmd (x ∷ commands)
        → validate_append_condition c ≡ none
    split clear later (Memᴰ.head q) = rw (← q, e) at clear
    split clear later (Memᴰ.tail n) = later n e

-- An append whose condition an event of another append matches contends with it.
pub writers-Contend :
    (route other_route : Route) (commands other_commands : List AppendCommand) (cmd : AppendCommand)
    (c : AppendCondition) (ev : Event)
    → validate_commands commands ≡ none
    → Memᴰ cmd commands
    → cmd.condition ≡ some c
    → Memᴰ ev (all_events_of other_commands)
    → Matches c.fail_if_events_match ev
    → Contend (write route commands) (write other_route other_commands)
unfolding plan
writers-Contend route other_route commands other_commands cmd c ev v m e n h =
    let (other, a, b) = mem_of_all_events other_commands n in
    let (k, p, q) =
      batches_exclude commands other_commands cmd other c ev m e
        (valid_of_mem commands {cmd = cmd} {c = c} v m e) a b h in
    (
      record { key = k; mode = exclusive },
      record { key = k; mode = exclusive },
      mem-by_key _
          (Memᴰ.append_left _ (mem-with_mode exclusive (collect_keys commands [] []).leaf_x p)),
      mem-by_key _ (
          Memᴰ.append_left _
            (mem-with_mode exclusive (collect_keys other_commands [] []).leaf_x q)),
      (refl, inl refl),
    )

Meet-Contend :
    (query : Query) (route : Route) (commands : List AppendCommand)
    → Meet (compute_reader_lock_keys query) (collect_keys commands [] [])
    → Contend (barrier query) (write route commands)
unfolding plan
Meet-Contend query route commands (k, inl (p, q)) = (
  record { key = k; mode = shared },
  record { key = k; mode = exclusive },
  mem-by_key _
      (Memᴰ.append_left _ (mem-with_mode shared (compute_reader_lock_keys query).leaf_s p)),
  mem-by_key _
      (Memᴰ.append_left _ (mem-with_mode exclusive (collect_keys commands [] []).leaf_x q)),
  (refl, inr refl),
)
Meet-Contend query route commands (k, inr (p, q)) = (
  record { key = k; mode = exclusive },
  record { key = k; mode = shared },
  mem-by_key _ (
      Memᴰ.append_right (with_mode shared (compute_reader_lock_keys query).leaf_s)
        (mem-with_mode exclusive (compute_reader_lock_keys query).intent_x p)),
  mem-by_key _ (
      Memᴰ.append_right (with_mode exclusive (collect_keys commands [] []).leaf_x)
        (mem-with_mode shared (collect_keys commands [] []).intent_s q)),
  (refl, inl refl),
)

-- A barrier contends with every append of an event that matches its query.
pub barrier_contends :
    (query : Query) (route : Route) (commands : List AppendCommand) (ev : Event)
    → Memᴰ ev (all_events_of commands)
    → Matches query ev
    → Contend (barrier query) (write route commands)
barrier_contends query route commands ev n h =
    let (cmd, a, b) = mem_of_all_events commands n in
    Meet-Contend query route commands (barrier_meets_batch query commands cmd ev a b h)
