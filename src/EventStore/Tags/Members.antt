-- ===== src/EventStore/Tags/Members.antt =====
-- Membership in lists of byte strings: the Boolean search decides it, and distinct lists that are
-- included in one another and equally long have the same members.
use dcb_event_store_pg_go.Base.Memᴰ
use dcb_event_store_pg_go.Base.{
  suc, ◌≤◌, ◌≡◌, ◌≢◌, refl, sym, ◌↔◌, true, false, List, [], ◌∷◌, arith, Bytes, eq_bytes,
  eq_bytes_sound, eq_bytes_refl, any_sound, any_complete, length, Bool-cases, inl, inr, Memᴰ,
  if◌then◌else◌, ◌⊎◌,
}
use dcb_event_store_pg_go.EventStore.Tags.{contains}

-- No value stands twice.
abbrev pub Distinct : List Bytes → Type 0
Distinct [] = Unit
Distinct (v ∷ vs) = (¬ Memᴰ v vs) × Distinct vs

abbrev pub SameMembers : List Bytes → List Bytes → Type 0
SameMembers vs ws = (v : Bytes) → Memᴰ v vs ↔ Memᴰ v ws

pub mem_of_contains : (vs : List Bytes) (v : Bytes) → contains vs v ≡ true → Memᴰ v vs
mem_of_contains vs v h =
    let (w, m, e) = any_sound (eq_bytes v) vs h in Memᴰ.cast (eq_bytes_sound v w e) m

pub contains_of_mem : {vs : List Bytes} (v : Bytes) → Memᴰ v vs → contains vs v ≡ true
contains_of_mem v m = any_complete (eq_bytes v) v m (eq_bytes_refl v)

pub not-mem_of_contains : {vs : List Bytes} (v : Bytes) → contains vs v ≡ false → ¬ Memᴰ v vs
not-mem_of_contains v h = λ m. cc (contains_of_mem v m)

pub eq_bytes-cases : (v w : Bytes) → (v ≡ w) ⊎ (v ≢ w)
eq_bytes-cases v w = elim (Bool-cases (eq_bytes v w)) [
  | inl e ↦ inl (eq_bytes_sound v w e)
  | inr e ↦ inr (λ p. cc (eq_bytes_refl w))
]

-- The list without the first occurrence of a value.
remove : Bytes → List Bytes → List Bytes
remove v [] = []
remove v (w ∷ ws) = if eq_bytes v w then ws else w ∷ remove v ws

length-remove : (v : Bytes) (ws : List Bytes) → Memᴰ v ws → suc (length (remove v ws)) ≡ length ws
unfolding remove
length-remove v [] m = elim m [ ]
length-remove v (w ∷ ws) (Memᴰ.head e) = rw (e, eq_bytes_refl)
length-remove v (w ∷ ws) (Memᴰ.tail m) = ground (arith, length-remove v ws m)

mem-remove : (v : Bytes) {u : Bytes} (ws : List Bytes) → Memᴰ u ws → u ≢ v → Memᴰ u (remove v ws)
unfolding remove
mem-remove v [] m n = elim m [ ]
mem-remove v {u} (w ∷ ws) (Memᴰ.head e) n = elim (Bool-cases (eq_bytes v w)) [
  | inl h ↦ absurd (n (cc (eq_bytes_sound v w h)))
  | inr h ↦ rw h (Memᴰ.head e)
]
mem-remove v (w ∷ ws) (Memᴰ.tail m) n = elim (Bool-cases (eq_bytes v w)) [
  | inl h ↦ rw h m
  | inr h ↦ rw h (Memᴰ.tail (mem-remove v ws m n))
]

-- If the distinct values of `vs` are among `ws`, which is no longer, then `ws` has no others.
pub subset_of_length-le :
    (vs ws : List Bytes)
    → Distinct vs
    → ((v : Bytes) → Memᴰ v vs → Memᴰ v ws)
    → length ws ≤ length vs
    → (u : Bytes) → Memᴰ u ws
    → Memᴰ u vs
subset_of_length-le [] [] d sub le u m = m
subset_of_length-le [] (w ∷ ws) d sub le u m = absurd (omega arith)
subset_of_length-le (v ∷ vs) ws (fresh, d) sub le u m = elim (eq_bytes-cases u v) [
  | inl e ↦ Memᴰ.head e
  | inr n ↦ Memᴰ.tail (
      subset_of_length-le vs (remove v ws) d
        (λ x mx. mem-remove v ws (sub x (Memᴰ.tail mx)) (λ e. fresh (Memᴰ.cast (sym e) mx)))
        (omega (arith, length-remove v ws (sub v (Memᴰ.head refl)))) u (mem-remove v ws m n))
]

-- Distinct lists with the same members have the same length.
pub length-le_of_subset :
    (vs ws : List Bytes)
    → Distinct vs
    → ((v : Bytes) → Memᴰ v vs → Memᴰ v ws)
    → length vs ≤ length ws
length-le_of_subset [] ws d sub = omega arith
length-le_of_subset (v ∷ vs) ws (fresh, d) sub = omega (
  arith,
  length-remove v ws (sub v (Memᴰ.head refl)),
  length-le_of_subset vs (remove v ws) d
      (λ x mx. mem-remove v ws (sub x (Memᴰ.tail mx)) (λ e. fresh (Memᴰ.cast (sym e) mx))),
)
