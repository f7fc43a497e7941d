-- ===== src/EventStore/Tags/Space.antt =====
-- A separator byte of ASCII that is no space: text around it holds a space exactly if a side does.
use dcb_event_store_pg_go.Base.{
  ℕ, ◌<◌, ◌≡◌, ◌≢◌, refl, true, false, ◌||◌, [], ◌∷◌, ◌++◌, Bytes, arith,
}
use dcb_event_store_pg_go.EventStore.Tags.{starts_with_space, contains_space, is_valid_tag_token}

-- An ASCII byte that is no space.
abbrev pub IsPlain : ℕ → Type 0
IsPlain d = (13 < d) × (d ≢ 32) × (d < 128)

module _ (d : ℕ) (plain : IsPlain d) where
  starts_at_separator : (u : Bytes) → starts_with_space (d ∷ u) ≡ false
  unfolding starts_with_space
  starts_at_separator [] = ground arith
  starts_at_separator (b ∷ []) = ground arith
  starts_at_separator (b ∷ c ∷ u) = ground arith

  starts_before_separator :
      (a : ℕ) (s u : Bytes) → starts_with_space (a ∷ s ++ d ∷ u) ≡ starts_with_space (a ∷ s)
  unfolding starts_with_space
  starts_before_separator a [] [] = ground arith
  starts_before_separator a [] (c ∷ u) = ground arith
  starts_before_separator a (b ∷ []) u = ground arith
  starts_before_separator a (b ∷ c ∷ s) u = refl

  pub contains_space-separator :
      (s u : Bytes) → contains_space (s ++ d ∷ u) ≡ (contains_space s || contains_space u)
  unfolding contains_space
  contains_space-separator [] u = rw (starts_at_separator u)
  contains_space-separator (a ∷ s) u =
      ground (arith, starts_before_separator a s u, contains_space-separator s u)

  -- Two valid tokens around a separator make a valid token.
  pub valid-separator :
      (s u : Bytes)
      → is_valid_tag_token s ≡ true
      → is_valid_tag_token u ≡ true
      → is_valid_tag_token (s ++ d ∷ u) ≡ true
  unfolding is_valid_tag_token
  valid-separator [] u h k = absurd (ground arith)
  valid-separator (a ∷ s) [] h k = absurd (ground arith)
  valid-separator (a ∷ s) (b ∷ u) h k = ground (arith, contains_space-separator (a ∷ s) (b ∷ u))
