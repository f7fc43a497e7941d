-- ===== src/EventStore/Tags/Sorting.antt =====
-- `sort.Strings` on distinct values: the result ascends strictly, has the same members, and is the
-- only such list.
use dcb_event_store_pg_go.Base.{
  ◌≡◌, refl, sym, ◌⊎◌, inl, inr, true, false, List, [], ◌∷◌, Bytes, lt_bytes, lt_bytes_irrefl,
  lt_bytes_trans, lt_bytes_total, Bool-cases, Memᴰ,
}
use dcb_event_store_pg_go.EventStore.Tags.{insert_sorted, sort_strings}
use dcb_event_store_pg_go.EventStore.Tags.Members.{Distinct, SameMembers}

-- Strictly ascending in the bytewise order.
abbrev pub Ascends : List Bytes → Type 0
Ascends [] = Unit
Ascends (v ∷ vs) = ((w : Bytes) → Memᴰ w vs → lt_bytes v w ≡ true) × Ascends vs

mem-insert_sorted :
    (v : Bytes) {u : Bytes} (ws : List Bytes) → Memᴰ u (v ∷ ws) → Memᴰ u (insert_sorted v ws)
unfolding insert_sorted
mem-insert_sorted v [] m = m
mem-insert_sorted v {u} (w ∷ ws) m = elim (Bool-cases (lt_bytes w v)) [
  | inl h ↦ rw h (place (mem-insert_sorted v {u = u} ws) m)
  | inr h ↦ rw h m
]
  where
    place :
        (Memᴰ u (v ∷ ws) → Memᴰ u (insert_sorted v ws))
        → Memᴰ u (v ∷ w ∷ ws)
        → Memᴰ u (w ∷ insert_sorted v ws)
    place below (Memᴰ.head e) = Memᴰ.tail (below (Memᴰ.head e))
    place below (Memᴰ.tail (Memᴰ.head e)) = Memᴰ.head e
    place below (Memᴰ.tail (Memᴰ.tail m')) = Memᴰ.tail (below (Memᴰ.tail m'))

mem_of_mem-insert_sorted :
    (v : Bytes) {u : Bytes} (ws : List Bytes) → Memᴰ u (insert_sorted v ws) → Memᴰ u (v ∷ ws)
unfolding insert_sorted
mem_of_mem-insert_sorted v [] m = m
mem_of_mem-insert_sorted v {u} (w ∷ ws) m = elim (Bool-cases (lt_bytes w v)) [
  | inl h ↦ place (mem_of_mem-insert_sorted v {u = u} ws) (rw h at m)
  | inr h ↦ rw h at m
]
  where
    lift : Memᴰ u (v ∷ ws) → Memᴰ u (v ∷ w ∷ ws)
    lift (Memᴰ.head e) = Memᴰ.head e
    lift (Memᴰ.tail m') = Memᴰ.tail (Memᴰ.tail m')

    place :
        (Memᴰ u (insert_sorted v ws) → Memᴰ u (v ∷ ws))
        → Memᴰ u (w ∷ insert_sorted v ws)
        → Memᴰ u (v ∷ w ∷ ws)
    place below (Memᴰ.head e) = Memᴰ.tail (Memᴰ.head e)
    place below (Memᴰ.tail m') = lift (below m')

insert_sorted-Ascends :
    (v : Bytes) (ws : List Bytes) → (¬ Memᴰ v ws) → Ascends ws → Ascends (insert_sorted v ws)
unfolding insert_sorted
insert_sorted-Ascends v [] fresh a = (λ w m. elim m [ ], tt)
insert_sorted-Ascends v (w ∷ ws) fresh (low, a) = elim (Bool-cases (lt_bytes w v)) [
  | inl h ↦ rw h (
    λ u m. above h (mem_of_mem-insert_sorted v ws m),
    insert_sorted-Ascends v ws (λ m. fresh (Memᴰ.tail m)) a,
  )
  | inr h ↦ rw h (λ u m. below (first h (lt_bytes_total v w)) m, (low, a))
]
  where
    above : lt_bytes w v ≡ true → {u : Bytes} → Memᴰ u (v ∷ ws) → lt_bytes w u ≡ true
    above h (Memᴰ.head e) = rw e h
    above h {u} (Memᴰ.tail m) = low u m

    first :
        lt_bytes w v ≡ false
        → (lt_bytes v w ≡ true) ⊎ (lt_bytes w v ≡ true) ⊎ (v ≡ w)
        → lt_bytes v w ≡ true
    first h (inl p) = p
    first h (inr (inl p)) = cc
    first h (inr (inr e)) = absurd (fresh (Memᴰ.head e))

    below : lt_bytes v w ≡ true → {u : Bytes} → Memᴰ u (w ∷ ws) → lt_bytes v u ≡ true
    below h (Memᴰ.head e) = rw e h
    below h {u} (Memᴰ.tail m) = lt_bytes_trans v w u h (low u m)

pub mem-sort_strings : (vs : List Bytes) → SameMembers (sort_strings vs) vs
unfolding sort_strings
mem-sort_strings [] u = (λ m. m, λ m. m)
mem-sort_strings (v ∷ vs) u =
    let (shrink, grow) = mem-sort_strings vs u in
    (
      λ m. keep shrink (mem_of_mem-insert_sorted v (sort_strings vs) m),
      λ m. mem-insert_sorted v (sort_strings vs) (keep grow m),
    )
  where
    keep : {xs ys : List Bytes} → (Memᴰ u xs → Memᴰ u ys) → Memᴰ u (v ∷ xs) → Memᴰ u (v ∷ ys)
    keep f (Memᴰ.head e) = Memᴰ.head e
    keep f (Memᴰ.tail m) = Memᴰ.tail (f m)

pub sort_strings-Ascends : (vs : List Bytes) → Distinct vs → Ascends (sort_strings vs)
unfolding sort_strings
sort_strings-Ascends [] d = tt
sort_strings-Ascends (v ∷ vs) (fresh, d) =
    insert_sorted-Ascends v (sort_strings vs) (λ m. fresh ((mem-sort_strings vs v).0 m))
      (sort_strings-Ascends vs d)

-- A strictly ascending list is determined by its members.
pub Ascends-unique : (vs ws : List Bytes) → Ascends vs → Ascends ws → SameMembers vs ws → vs ≡ ws
Ascends-unique [] [] a b same = refl
Ascends-unique [] (w ∷ ws) a b same = elim ((same w).1 (Memᴰ.head refl)) [ ]
Ascends-unique (v ∷ vs) [] a b same = elim ((same v).0 (Memᴰ.head refl)) [ ]
Ascends-unique (v ∷ vs) (w ∷ ws) (low, a) (low', b) same =
    let first : v ≡ w = heads ((same v).0 (Memᴰ.head refl)) ((same w).1 (Memᴰ.head refl)) in
    let rest : vs ≡ ws = Ascends-unique vs ws a b (λ u. (
      λ m. other (low u m) (sym first) ((same u).0 (Memᴰ.tail m)),
      λ m. other (low' u m) first ((same u).1 (Memᴰ.tail m)),
    )) in
    cc
  where
    heads : Memᴰ v (w ∷ ws) → Memᴰ w (v ∷ vs) → v ≡ w
    heads (Memᴰ.head e) m = e
    heads (Memᴰ.tail m) (Memᴰ.head e) = sym e
    heads (Memᴰ.tail m) (Memᴰ.tail m') =
        cc (lt_bytes_trans v w v (low w m') (low' v m), lt_bytes_irrefl v)

    other :
        {x y u : Bytes} {us : List Bytes}
        → lt_bytes x u ≡ true
        → y ≡ x
        → Memᴰ u (y ∷ us)
        → Memᴰ u us
    other {x} {u} below e (Memᴰ.head q) = cc (lt_bytes_irrefl u, below, e, q)
    other below e (Memᴰ.tail m) = m
