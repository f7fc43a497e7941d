-- ===== src/Postgres/Server/Deadlock.antt =====
-- Transactions that take their locks in the order of the keys never wait in a circle.
use dcb_event_store_pg_go.Base.{
  ℕ, ◌+◌, ◌<◌, ◌≡◌, ◌≢◌, refl, sym, inl, inr, Bool-cases, List, [], ◌∷◌, ◌++◌, ℤ, pos, negsuc,
  pos_part, neg_part, le_ℤ, leb, Memᴰ, arith, true, false,
}
use mathlib.Core.Path.{subst}
use dcb_event_store_pg_go.EventStore.Condition.{AppendCommand}
use dcb_event_store_pg_go.Postgres.Append.{add_keys, collect_keys}
use dcb_event_store_pg_go.Postgres.LockKeys.{compute_reader_lock_keys}
use dcb_event_store_pg_go.Postgres.LockKeys.Distinct.{
  DistinctKeys, add_key-DistinctKeys, compute_reader_lock_keys-Distinct,
}
use dcb_event_store_pg_go.Postgres.Serialize.TagText.{StringToArray}
use dcb_event_store_pg_go.Postgres.Server.{
  Mode, shared, exclusive, Lock, with_mode, insert_lock, by_key, Job, write, barrier, plan, locking,
  locks_of, Clash, Server, Reach, IsStart,
}
use dcb_event_store_pg_go.Postgres.Server.Exclusion.{Reach-Sound, Local-at}

-- `a < b`.
abbrev LtKey : ℤ → ℤ → Type 0
LtKey a b = pos_part a + neg_part b < pos_part b + neg_part a

lt_of_le_ne : (a b : ℤ) → le_ℤ a b ≡ true → a ≢ b → LtKey a b
lt_of_le_ne (pos a) (pos b) h ne = elim (Bool-cases (leb b a)) [
  | inl e ↦ absurd (ne (ground arith))
  | inr e ↦ ground arith
]
lt_of_le_ne (pos a) (negsuc b) h ne = absurd (ground arith)
lt_of_le_ne (negsuc a) (pos b) h ne = omega arith
lt_of_le_ne (negsuc a) (negsuc b) h ne = elim (Bool-cases (leb a b)) [
  | inl e ↦ absurd (ne (ground arith))
  | inr e ↦ ground arith
]

lt_of_not_le : (a b : ℤ) → le_ℤ a b ≡ false → LtKey b a
lt_of_not_le a b h = ground arith

-- The keys ascend strictly above a first one.
abbrev KeysAbove : ℤ → List Lock → Type 0
KeysAbove k [] = Unit
KeysAbove k (l ∷ locks) = LtKey k l.key × KeysAbove l.key locks

abbrev KeysAscend : List Lock → Type 0
KeysAscend [] = Unit
KeysAscend (l ∷ locks) = KeysAbove l.key locks

abbrev Lacks : ℤ → List Lock → Type 0
Lacks k [] = Unit
Lacks k (l ∷ locks) = (k ≢ l.key) × Lacks k locks

insert_lock-KeysAbove :
    (k : ℤ) (l : Lock) (locks : List Lock)
    → LtKey k l.key
    → Lacks l.key locks
    → KeysAbove k locks
    → KeysAbove k (insert_lock l locks)
unfolding insert_lock
insert_lock-KeysAbove k l [] lt no_key a = (lt, tt)
insert_lock-KeysAbove k l (m ∷ locks) lt (ne, no_key) (lt', a) =
    elim (Bool-cases (le_ℤ l.key m.key)) [
      | inl e ↦ rw e (lt, (lt_of_le_ne l.key m.key e ne, a))
      | inr e ↦
          rw e (lt', insert_lock-KeysAbove m.key l locks (lt_of_not_le l.key m.key e) no_key a)
    ]

insert_lock-KeysAscend :
    (l : Lock) (locks : List Lock)
    → Lacks l.key locks
    → KeysAscend locks
    → KeysAscend (insert_lock l locks)
unfolding insert_lock
insert_lock-KeysAscend l [] no_key a = tt
insert_lock-KeysAscend l (m ∷ locks) (ne, no_key) a = elim (Bool-cases (le_ℤ l.key m.key)) [
  | inl e ↦ rw e (lt_of_le_ne l.key m.key e ne, a)
  | inr e ↦ rw e (insert_lock-KeysAbove m.key l locks (lt_of_not_le l.key m.key e) no_key a)
]

insert_lock-Lacks :
    (k : ℤ) (l : Lock) (locks : List Lock)
    → k ≢ l.key
    → Lacks k locks
    → Lacks k (insert_lock l locks)
unfolding insert_lock
insert_lock-Lacks k l [] ne h = (ne, tt)
insert_lock-Lacks k l (m ∷ locks) ne (ne', h) = elim (Bool-cases (le_ℤ l.key m.key)) [
  | inl e ↦ rw e (ne, (ne', h))
  | inr e ↦ rw e (ne', insert_lock-Lacks k l locks ne h)
]

by_key-Lacks : (k : ℤ) (locks : List Lock) → Lacks k locks → Lacks k (by_key locks)
unfolding by_key
by_key-Lacks k [] h = tt
by_key-Lacks k (l ∷ locks) (ne, h) =
    insert_lock-Lacks k l (by_key locks) ne (by_key-Lacks k locks h)

abbrev Unrepeated : List Lock → Type 0
Unrepeated [] = Unit
Unrepeated (l ∷ locks) = Lacks l.key locks × Unrepeated locks

by_key-KeysAscend : (locks : List Lock) → Unrepeated locks → KeysAscend (by_key locks)
unfolding by_key
by_key-KeysAscend [] h = tt
by_key-KeysAscend (l ∷ locks) (no_key, h) =
    insert_lock-KeysAscend l (by_key locks) (by_key-Lacks l.key locks no_key)
      (by_key-KeysAscend locks h)

-- No key stands in both lists: the hashes of leaf and intent keys do not collide.
abbrev pub Disjoint : List ℤ → List ℤ → Type 0
Disjoint xs ys = (k : ℤ) → Memᴰ k xs → ¬ Memᴰ k ys

Lacks-with_mode :
    (mode : Mode) (k : ℤ) (keys : List ℤ) → ¬ Memᴰ k keys → Lacks k (with_mode mode keys)
Lacks-with_mode mode k [] h = tt
Lacks-with_mode mode k (j ∷ keys) h =
    ((λ e. h (Memᴰ.head e)), Lacks-with_mode mode k keys (λ m. h (Memᴰ.tail m)))

Lacks-append : (k : ℤ) (xs ys : List Lock) → Lacks k xs → Lacks k ys → Lacks k (xs ++ ys)
Lacks-append k [] ys a b = b
Lacks-append k (x ∷ xs) ys (ne, a) b = (ne, Lacks-append k xs ys a b)

Unrepeated-with_mode :
    (mode : Mode) (keys : List ℤ) → DistinctKeys keys → Unrepeated (with_mode mode keys)
Unrepeated-with_mode mode [] d = tt
Unrepeated-with_mode mode (k ∷ keys) (fresh_key, d) =
    (Lacks-with_mode mode k keys fresh_key, Unrepeated-with_mode mode keys d)

Unrepeated-both :
    (mode other : Mode) (xs ys : List ℤ)
    → DistinctKeys xs
    → DistinctKeys ys
    → Disjoint xs ys
    → Unrepeated (with_mode mode xs ++ with_mode other ys)
Unrepeated-both mode other [] ys dx dy h = Unrepeated-with_mode other ys dy
Unrepeated-both mode other (x ∷ xs) ys (fresh_key, dx) dy h = (
  Lacks-append x (with_mode mode xs) (with_mode other ys) (Lacks-with_mode mode x xs fresh_key)
      (Lacks-with_mode other x ys (h x (Memᴰ.head refl))),
  Unrepeated-both mode other xs ys dx dy (λ k m. h k (Memᴰ.tail m)),
)

add_keys-DistinctKeys : (keys set : List ℤ) → DistinctKeys set → DistinctKeys (add_keys keys set)
unfolding add_keys
add_keys-DistinctKeys [] set d = d
add_keys-DistinctKeys (k ∷ keys) set d = add_keys-DistinctKeys keys _ (add_key-DistinctKeys k set d)

collect_keys-DistinctKeys :
    (commands : List AppendCommand) (leaf intent : List ℤ)
    → DistinctKeys leaf
    → DistinctKeys intent
    → DistinctKeys (collect_keys commands leaf intent).leaf_x
      × DistinctKeys (collect_keys commands leaf intent).intent_s
unfolding collect_keys
collect_keys-DistinctKeys [] leaf intent a b = (a, b)
collect_keys-DistinctKeys (cmd ∷ commands) leaf intent a b =
    collect_keys-DistinctKeys commands _ _ (add_keys-DistinctKeys _ leaf a)
      (add_keys-DistinctKeys _ intent b)

-- The leaf and intent keys of a transaction do not collide.
abbrev pub NoCollision : Job → Type 0
NoCollision (write route commands) =
    Disjoint (collect_keys commands [] []).leaf_x (collect_keys commands [] []).intent_s
NoCollision (barrier query) =
    Disjoint (compute_reader_lock_keys query).leaf_s (compute_reader_lock_keys query).intent_x

plan-KeysAscend : (job : Job) → NoCollision job → KeysAscend (plan job)
unfolding plan
plan-KeysAscend (write route commands) h =
    let (a, b) = collect_keys-DistinctKeys commands [] [] tt tt in
    by_key-KeysAscend _ (Unrepeated-both exclusive shared _ _ a b h)
plan-KeysAscend (barrier query) h =
    let (a, b) = compute_reader_lock_keys-Distinct query in
    by_key-KeysAscend _ (Unrepeated-both shared exclusive _ _ a b h)

lt_trans_key : (a b c : ℤ) → LtKey a b → LtKey b c → LtKey a c
lt_trans_key a b c h k = omega arith

-- A key that is held lies below the one that is wanted next.
above_head :
    (k : ℤ) (held : List Lock) (l : Lock) (wanted : List Lock)
    → KeysAbove k (held ++ l ∷ wanted)
    → LtKey k l.key
above_head k [] l wanted (lt, _) = lt
above_head k (h ∷ held) l wanted (lt, a) =
    lt_trans_key k h.key l.key lt (above_head h.key held l wanted a)

held_below :
    (held : List Lock) (l : Lock) (wanted : List Lock) {m : Lock}
    → KeysAscend (held ++ l ∷ wanted)
    → Memᴰ m held
    → LtKey m.key l.key
held_below [] l wanted a p = elim p [ ]
held_below (h ∷ held) l wanted a (Memᴰ.head e) =
    subst (λ x. LtKey x.key l.key) (sym e) (above_head h.key held l wanted a)
held_below (h ∷ held) l wanted {m} a (Memᴰ.tail p) =
    held_below held l wanted {m = m} (rest held a) p
  where
    rest :
        (held : List Lock) → KeysAbove h.key (held ++ l ∷ wanted) → KeysAscend (held ++ l ∷ wanted)
    rest [] (_, a) = a
    rest (x ∷ held) (_, a) = a

-- `i` waits for `j`: it wants a lock that clashes with one that `j` holds.
pub record Waits (s : Server) (i j : ℕ) : Type 0 where
  pub held : List Lock
  pub wants : Lock
  pub wanted : List Lock
  pub at : s.stage i ≡ locking held (wants ∷ wanted)
  pub holds : Lock
  pub held_by : Memᴰ holds (locks_of (s.stage j))
  pub clash : Clash wants holds

-- A chain of transactions, each of which waits for the next.
pub data Chain (s : Server) : ℕ → ℕ → Type 0 where
  one : {i j : ℕ} → Waits s i j → Chain s i j
  more : {i j k : ℕ} → Waits s i j → Chain s j k → Chain s i k

module _ (server : StringToArray) (jobs : ℕ → Job) (no_collision : (i : ℕ) → NoCollision (jobs i))
    (s t : Server) (h : IsStart s) (r : Reach server jobs s t) where
  Waits-up : {i j k : ℕ} (w : Waits t i j) (w' : Waits t j k) → LtKey w.wants.key w'.wants.key
  Waits-up {i} {j} w w' =
      let (planned, _) = Local-at server jobs (Reach-Sound server jobs h r) j w'.at in
      let ascend : KeysAscend (w'.held ++ w'.wants ∷ w'.wanted) =
        subst KeysAscend (sym planned) (plan-KeysAscend (jobs j) (no_collision j)) in
      let mine : Memᴰ w.holds w'.held = rw w'.at at w.held_by in
      subst (λ k. LtKey k w'.wants.key) (sym w.clash.0)
        (held_below w'.held w'.wants w'.wanted ascend mine)

  Chain-up :
      {i j k : ℕ} (w : Waits t i j)
      → Chain t j k
      → {l : ℕ} (w' : Waits t k l) → LtKey w.wants.key w'.wants.key
  Chain-up w (one v) w' =
      lt_trans_key w.wants.key v.wants.key w'.wants.key (Waits-up w v) (Waits-up v w')
  Chain-up w (more v c) w' =
      lt_trans_key w.wants.key v.wants.key w'.wants.key (Waits-up w v) (Chain-up v c w')

  -- From a start with no transaction under way, where the leaf and intent keys of no transaction
  -- collide, there is no deadlock among appends and barriers: at no reachable moment does a
  -- transaction wait, over others or directly, for itself.
  pub no_deadlock : (i : ℕ) → ¬ Chain t i i
  no_deadlock i (one w) = omega (arith, Waits-up w w)
  no_deadlock i (more w c) = omega (arith, Chain-up w c w)
