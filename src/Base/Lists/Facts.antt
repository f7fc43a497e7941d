-- ===== src/Base/Lists/Facts.antt =====
-- The list functions of the models, and what a search or a filter finds.
use Prim.Native.Nat.{ℕ, zero, suc, ◌+◌, ◌≤◌}
use mathlib.Core.Bool.{Bool, true, false, ◌&&◌, ◌||◌}
use mathlib.Core.List.{List, [], ◌∷◌, ◌++◌}
use mathlib.Core.List.{Memᴰ}
use mathlib.Core.Logic.{inl, inr}
use mathlib.Core.Option.{Option, none, some}
use mathlib.Core.Path.{◌≡◌, refl}
use native.Mathlib.Omega.{arith}
use dcb_event_store_pg_go.Base.Tests.{if◌then◌else◌, Bool-cases}

module _ {ℓ} {A : Type ℓ} where
  abbrev pub length : List A → ℕ
  length [] = 0
  length (x ∷ xs) = suc (length xs)

  abbrev pub take : ℕ → List A → List A
  take zero xs = []
  take (suc n) [] = []
  take (suc n) (x ∷ xs) = x ∷ take n xs

  abbrev pub drop : ℕ → List A → List A
  drop zero xs = xs
  drop (suc n) [] = []
  drop (suc n) (x ∷ xs) = drop n xs

  abbrev pub get_elem? : List A → ℕ → Option A
  get_elem? [] i = none
  get_elem? (x ∷ xs) zero = some x
  get_elem? (x ∷ xs) (suc i) = get_elem? xs i

  abbrev pub any : (A → Bool) → List A → Bool
  any p [] = false
  any p (x ∷ xs) = p x || any p xs

  abbrev pub all : (A → Bool) → List A → Bool
  all p [] = true
  all p (x ∷ xs) = p x && all p xs

  -- The elements that pass a test, in order.
  abbrev pub select : (A → Bool) → List A → List A
  select p [] = []
  select p (x ∷ xs) = if p x then x ∷ select p xs else select p xs

module _ {ℓ} {A : Type ℓ} where
  pub length-append : (xs ys : List A) → length (xs ++ ys) ≡ length xs + length ys
  length-append [] ys = omega arith
  length-append (x ∷ xs) ys = omega (arith, length-append xs ys)

  pub length-take-le : (n : ℕ) (xs : List A) → length (take n xs) ≤ n
  length-take-le zero xs = omega arith
  length-take-le (suc n) [] = omega arith
  length-take-le (suc n) (x ∷ xs) = omega (arith, length-take-le n xs)

  take-nil : (n : ℕ) → take {A = A} n [] ≡ []
  take-nil zero = refl
  take-nil (suc n) = refl

  pub take_of_length-le : (k : ℕ) (ys : List A) → length ys ≤ k → take k ys ≡ ys
  take_of_length-le k [] short = take-nil k
  take_of_length-le zero (y ∷ ys) short = absurd (omega arith)
  take_of_length-le (suc k) (y ∷ ys) short = cc (take_of_length-le k ys (omega arith))

module _ {ℓ} {A : Type ℓ} (p : A → Bool) where
  pub any_sound : (xs : List A) → any p xs ≡ true → (x : A) × Memᴰ x xs × (p x ≡ true)
  any_sound [] h = absurd (ground arith)
  any_sound (x ∷ xs) h = elim (Bool-cases (p x)) [
    | inl yes_ ↦ (x, Memᴰ.head refl, yes_)
    | inr no_ ↦ let (y, m, e) = any_sound xs (ground arith) in (y, Memᴰ.tail m, e)
  ]

  pub any_complete : (x : A) {xs : List A} → Memᴰ x xs → p x ≡ true → any p xs ≡ true
  any_complete x (Memᴰ.head e) h = rw (← e, h)
  any_complete x (Memᴰ.tail m) h = ground (arith, any_complete x m h)

  pub all_sound : (xs : List A) → all p xs ≡ true → {x : A} → Memᴰ x xs → p x ≡ true
  all_sound [] h m = elim m [ ]
  all_sound (x ∷ xs) h (Memᴰ.head e) = rw e (ground arith)
  all_sound (x ∷ xs) h (Memᴰ.tail m) = all_sound xs (ground arith) m

  pub all_complete : (xs : List A) → ((x : A) → Memᴰ x xs → p x ≡ true) → all p xs ≡ true
  all_complete [] h = refl
  all_complete (x ∷ xs) h = rw (h x (Memᴰ.head refl)) (all_complete xs (λ y m. h y (Memᴰ.tail m)))

  pub all-append : (xs ys : List A) → all p (xs ++ ys) ≡ (all p xs && all p ys)
  all-append [] ys = refl
  all-append (x ∷ xs) ys = ground (arith, all-append xs ys)

  pub select-append : (xs ys : List A) → select p (xs ++ ys) ≡ select p xs ++ select p ys
  select-append [] ys = refl
  select-append (x ∷ xs) ys = ground (arith, select-append xs ys)

  pub mem-select : (xs : List A) {x : A} → Memᴰ x xs → p x ≡ true → Memᴰ x (select p xs)
  mem-select [] m h = elim m [ ]
  mem-select (y ∷ xs) {x} (Memᴰ.head e) h = let e' : p y ≡ true = rw (← e) h in rw e' (Memᴰ.head e)
  mem-select (y ∷ xs) {x} (Memᴰ.tail m) h = elim (Bool-cases (p y)) [
    | inl e ↦ rw e (Memᴰ.tail (mem-select xs m h))
    | inr e ↦ rw e (mem-select xs m h)
  ]

  pub mem_of_mem-select : (xs : List A) {x : A} → Memᴰ x (select p xs) → Memᴰ x xs × (p x ≡ true)
  mem_of_mem-select [] m = elim m [ ]
  mem_of_mem-select (y ∷ xs) {x} m = elim (Bool-cases (p y)) [
    | inl e ↦ kept e (mem_of_mem-select xs) (rw e at m)
    | inr e ↦ let (m', h) = mem_of_mem-select xs {x = x} (rw e at m) in (Memᴰ.tail m', h)
  ]
    where
      kept :
          p y ≡ true
          → (Memᴰ x (select p xs) → Memᴰ x xs × (p x ≡ true))
          → Memᴰ x (y ∷ select p xs)
          → Memᴰ x (y ∷ xs) × (p x ≡ true)
      kept e below (Memᴰ.head q) = (Memᴰ.head q, rw q e)
      kept e below (Memᴰ.tail m') = let (m'', h) = below m' in (Memᴰ.tail m'', h)

  pub select_none : (xs : List A) → any p xs ≡ false → select p xs ≡ []
  select_none [] h = refl
  select_none (x ∷ xs) h = ground (arith, select_none xs)
