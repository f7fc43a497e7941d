-- ===== src/Postgres/Cursor/Complete.antt =====
-- A cursor read in batches gives all its rows.
use dcb_event_store_pg_go.Base.{
  ℕ, zero, suc, ◌+◌, ◌-◌, ◌<◌, ◌≤◌, ◌≡◌, refl, sym, ap, ◌∙◌, Bool, true, false, List, [], ◌∷◌, ◌++◌,
  append-nil, append_assoc, none, some, if◌then◌else◌, ltb, length, take, drop, get_elem?, arith,
  Bool-cases, inl, inr, ◌⊎◌,
}
use native.Mathlib.Numerals.{add-one}
use dcb_event_store_pg_go.EventStore.Event.{SequencedEvent}
use dcb_event_store_pg_go.EventStore.Iterator.{drain, collect}
use dcb_event_store_pg_go.EventStore.Iterator.Loops.{drain_step, drain_stop}
use dcb_event_store_pg_go.Memory.Iterator.{drop_step, drop_all}
use dcb_event_store_pg_go.Postgres.Cursor.{
  read_batch_size, Connection, CursorIterator, cursor_next, cursor_event, cursor_close,
  cursor_iterator, cursor_start,
}

some_batch : (n : ℕ) × (read_batch_size ≡ suc n)
unfolding read_batch_size
some_batch = (4999, refl)

positive : (n : ℕ) → ltb 0 (suc n) ≡ true
positive n = ground arith

module _ {A : Type 0} where
  take-drop : (n : ℕ) (xs : List A) → take n xs ++ drop n xs ≡ xs
  take-drop zero xs = refl
  take-drop (suc n) [] = refl
  take-drop (suc n) (x ∷ xs) = cc (take-drop n xs)

  -- A batch that is not full is the last one.
  short_batch : (n : ℕ) (xs : List A) → length (take n xs) < n → take n xs ≡ xs
  short_batch zero xs h = absurd (omega arith)
  short_batch (suc n) [] h = refl
  short_batch (suc n) (x ∷ xs) h = cc (short_batch n xs (omega arith))

-- `FETCH` of a cursor: the next rows, as many as asked for where there are as many, and the cursor
-- moves behind them.
pub record Fetches {D E : Type 0} (server : Connection D E) (rows : D → List SequencedEvent)
    : Type 0 where
  pub next_rows :
      (n : ℕ) (d : D)
      → (d' : D) × (server.fetch n d ≡ (d', inr (take n (rows d)))) × (rows d' ≡ drop n (rows d))

module _ {D E : Type 0} (server : Connection D E) (rows : D → List SequencedEvent)
    (fetches : Fetches server rows) where
  -- A cursor that has not failed.
  abbrev at_index : D → List SequencedEvent → ℕ → Bool → CursorIterator D E
  at_index d buffer i exhausted = record {
    conn = d;
    buffer = buffer;
    idx = i;
    exhausted = exhausted;
    error = none;
    closed = false;
  }

  -- What is left to read of it.
  abbrev left_of : D → List SequencedEvent → ℕ → Bool → List SequencedEvent
  left_of d buffer i exhausted = drop i buffer ++ (if exhausted then [] else rows d)

  buffered :
      (d : D) (buffer : List SequencedEvent) (i : ℕ) (exhausted : Bool) (se : SequencedEvent)
      → i < length buffer
      → get_elem? buffer i ≡ some se
      → (cursor_next server (at_index d buffer i exhausted)
          ≡ (true, at_index d buffer (i + 1) exhausted))
        × (cursor_event server (at_index d buffer (i + 1) exhausted) ≡ some se)
  unfolding cursor_next cursor_event
  buffered d buffer i exhausted se h at = (ground arith, rw (back i) (ground arith))
    where
      back : (i : ℕ) → i + 1 - 1 ≡ i
      back i = omega arith

  ended :
      (d : D) (buffer : List SequencedEvent) (i : ℕ)
      → length buffer ≤ i
      → cursor_next server (at_index d buffer i true) ≡ (false, at_index d buffer i true)
  unfolding cursor_next
  ended d buffer i h = ground arith

  fetched :
      (d d' : D) (buffer batch : List SequencedEvent) (i : ℕ)
      → length buffer ≤ i
      → server.fetch read_batch_size d ≡ (d', inr batch)
      → cursor_next server (at_index d buffer i false)
        ≡ (ltb 0 (length batch), at_index d' batch 1 (ltb (length batch) read_batch_size))
  unfolding cursor_next
  fetched d d' buffer batch i h e = ground arith

  -- What is left behind the first row of a batch.
  left_behind :
      (d d' : D) (x : SequencedEvent) (xs : List SequencedEvent)
      → rows d ≡ x ∷ xs
      → rows d' ≡ drop read_batch_size (rows d)
      → (batch : List SequencedEvent) × (take read_batch_size (rows d) ≡ x ∷ batch)
        × (left_of d' (x ∷ batch) 1 (ltb (suc (length batch)) read_batch_size) ≡ xs)
  left_behind d d' x xs e moved =
      let (n, size) = some_batch in
      (
        take n xs,
        rw (size, e) refl,
        by_size n size (Bool-cases (ltb (suc (length (take n xs))) (suc n))),
      )
    where
      by_size :
          (n : ℕ)
          → read_batch_size ≡ suc n
          → (ltb (suc (length (take n xs))) (suc n) ≡ true)
            ⊎ (ltb (suc (length (take n xs))) (suc n) ≡ false)
          → left_of d' (x ∷ take n xs) 1 (ltb (suc (length (take n xs))) read_batch_size) ≡ xs
      by_size n size (inl last) = rw (size, last, append-nil) (short_batch n xs (ground arith))
      by_size n size (inr full) = rw (size, full, moved, size, e) (take-drop n xs)

  first_event :
      (d : D) (se : SequencedEvent) (batch : List SequencedEvent) (exhausted : Bool)
      → cursor_event server (at_index d (se ∷ batch) 1 exhausted) ≡ some se
  unfolding cursor_event
  first_event d se batch exhausted = refl

  -- The loop ends in a cursor that has not failed and is open, with all that was left behind `out`.
  abbrev Drains :
      ℕ → D → List SequencedEvent → ℕ → Bool → List SequencedEvent → List SequencedEvent → Type 0
  Drains f d buffer i exhausted out left =
      (e : D) × (rest : List SequencedEvent) × (j : ℕ) × (x : Bool) × (drain
          (cursor_iterator server) f (at_index d buffer i exhausted) out
        ≡ some (at_index e rest j x, out ++ left))

  abbrev AllDrain : ℕ → Type 0
  AllDrain f =
      (d : D) (buffer : List SequencedEvent) (i : ℕ) (exhausted : Bool)
      (left out : List SequencedEvent)
      → left_of d buffer i exhausted ≡ left
      → length left < f
      → Drains f d buffer i exhausted out left

  module _ (f : ℕ) (below : AllDrain f) (d : D) (buffer : List SequencedEvent) (i : ℕ)
      (left out : List SequencedEvent) (h : length left < suc f) where
    in_buffer :
        (exhausted : Bool)
        → ltb i (length buffer) ≡ true
        → left_of d buffer i exhausted ≡ left
        → Drains (suc f) d buffer i exhausted out left
    in_buffer exhausted more e =
        let (se, at, rest) = drop_step buffer i (ground arith) in
        let (stepped, read_) = buffered d buffer i exhausted se (ground arith) at in
        let split : left ≡ se ∷ left_of d buffer (i + 1) exhausted =
          rw add-one (sym e ∙ ap (λ xs. xs ++ (if exhausted then [] else rows d)) rest) in
        let grown : length (se ∷ left_of d buffer (i + 1) exhausted) < suc f = rw split at h in
        let (d', b, j, x, done) =
          below d buffer (i + 1) exhausted (left_of d buffer (i + 1) exhausted) (out ++ se ∷ [])
            refl (omega (arith, grown)) in
        (
          d',
          b,
          j,
          x,
          drain_step (cursor_iterator server) f _ _ se out stepped read_
              ∙ done
              ∙ ap (λ xs. some (at_index d' b j x, xs))
                  (append_assoc out (se ∷ []) (left_of d buffer (i + 1) exhausted)
                    ∙ ap (◌++◌ out) (sym split)),
        )

    from_server :
        (all : List SequencedEvent) (d' : D)
        → rows d ≡ all
        → left ≡ all
        → server.fetch read_batch_size d ≡ (d', inr (take read_batch_size (rows d)))
        → rows d' ≡ drop read_batch_size (rows d)
        → length buffer ≤ i
        → Drains (suc f) d buffer i false out left
    from_server [] d' none_left same got moved past =
        let (n, size) = some_batch in
        (
          d',
          [],
          1,
          ltb 0 read_batch_size,
          drain_stop (cursor_iterator server) f _ _ out (
                fetched d d' buffer [] i past
                  (got ∙ ap (λ xs. (d', inr xs)) (rw (size, none_left) refl)))
              ∙ rw (same, append-nil) refl,
        )
    from_server (se ∷ all) d' some_left same got moved past =
        let (batch, taken, rest) = left_behind d d' se all some_left moved in
        let grown : length (se ∷ all) < suc f = rw same at h in
        let last : Bool = ltb (suc (length batch)) read_batch_size in
        let (d'', b, j, x, done) =
          below d' (se ∷ batch) 1 last all (out ++ se ∷ []) rest (omega (arith, grown)) in
        let stepped : cursor_next server (at_index d buffer i false)
            ≡ (true, at_index d' (se ∷ batch) 1 last) =
          fetched d d' buffer (se ∷ batch) i past (got ∙ ap (λ xs. (d', inr xs)) taken)
          ∙ ap (λ b. (b, at_index d' (se ∷ batch) 1 last)) (positive (length batch)) in
        (
          d'',
          b,
          j,
          x,
          drain_step (cursor_iterator server) f _ _ se out stepped (first_event d' se batch last)
              ∙ done
              ∙ ap (λ xs. some (at_index d'' b j x, xs))
                  (append_assoc out (se ∷ []) all ∙ ap (◌++◌ out) (sym same)),
        )

    behind_buffer :
        (exhausted : Bool)
        → ltb i (length buffer) ≡ false
        → left_of d buffer i exhausted ≡ left
        → Drains (suc f) d buffer i exhausted out left
    behind_buffer true stop e = (
      d,
      buffer,
      i,
      true,
      drain_stop (cursor_iterator server) f _ _ out (ended d buffer i (ground arith))
          ∙ rw (← e, drop_all buffer i (ground arith), append-nil) refl,
    )
    behind_buffer false stop e =
        let (d', got, moved) = fetches.next_rows read_batch_size d in
        from_server (rows d) d' refl (sym e ∙ rw (drop_all buffer i (ground arith)) refl) got moved
          (ground arith)

  cursor-drain : (f : ℕ) → AllDrain f
  cursor-drain zero d buffer i exhausted left out e h = absurd (omega arith)
  cursor-drain (suc f) d buffer i exhausted left out e h =
      elim (Bool-cases (ltb i (length buffer))) [
        | inl more ↦ in_buffer f (cursor-drain f) d buffer i left out h exhausted more e
        | inr stop ↦ behind_buffer f (cursor-drain f) d buffer i left out h exhausted stop e
      ]

  -- `Collect` of a cursor gives all rows that the server's cursor has, in order, however they fall
  -- into batches, with no error, and leaves the iterator closed; one more call of `Next` than there
  -- are rows ends it.
  pub collect-cursor_start :
      (d : D) (f : ℕ)
      → length (rows d) < f
      → (it : CursorIterator D E) × (collect (cursor_iterator server) f (cursor_start d)
          ≡ some (rows d, none, it))
        × (it.closed ≡ true)
  unfolding collect cursor_close
  collect-cursor_start d f h =
      let (e, rest, j, x, done) = cursor-drain f d [] 0 false (rows d) [] refl h in
      (cursor_close server (at_index e rest j x), rw done refl, refl)
