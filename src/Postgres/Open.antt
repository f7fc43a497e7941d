-- ===== src/Postgres/Open.antt =====
-- postgres/store.go: the options, the store and New.
pub mod Names
use dcb_event_store_pg_go.Base.{
  ℕ, zero, suc, Bool, true, false, ◌&&◌, ◌||◌, List, [], ◌∷◌, ◌++◌, Option, none, some, Bytes,
  codes, if◌then◌else◌, leb, ◌==◌, ℤ, pos, is_positive, Result, ok, err,
}

pub record Options : Type 0 where
  pub table_prefix : Bytes
  pub copy_threshold : ℤ

pub record PostgresStore : Type 0 where
  pub table_name : Bytes
  pub append_function_name : Bytes
  pub check_function_name : Bytes
  pub barrier_function_name : Bytes
  pub notify_channel : Bytes
  pub copy_threshold : ℤ

abbrev pub between : ℕ → ℕ → ℕ → Bool
between low high c = leb low c && leb c high

abbrev pub is_letter : ℕ → Bool
is_letter c = between b'a' b'z' c || between b'A' b'Z' c || (c == b'_')

-- One character of `(?i)[a-z_]`, and what follows it. Folding the case adds the long s, U+017F, and
-- the Kelvin sign, U+212A, each in its UTF-8 bytes.
unfoldable pub after_letter : Bytes → Option Bytes
after_letter [] = none
after_letter (c ∷ []) = if is_letter c then some [] else none
after_letter (c ∷ d ∷ []) =
    if is_letter c then some (d ∷ []) else if (c == 197) && (d == 191) then some [] else none
after_letter (c ∷ d ∷ e ∷ s) =
    if is_letter c
    then some (d ∷ e ∷ s)
    else if (c == 197) && (d == 191)
    then some (e ∷ s)
    else if (c == 226) && (d == 132) && (e == 170)
    then some s
    else none

-- One character of `(?i)[a-z0-9_]`.
unfoldable pub after_word : Bytes → Option Bytes
unfolding after_letter
after_word [] = none
after_word (c ∷ s) = if between b'0' b'9' c then some s else after_letter (c ∷ s)

-- `{0,62}$` of such characters.
unfoldable pub ends_within : ℕ → Bytes → Bool
ends_within n [] = true
ends_within zero (c ∷ s) = false
ends_within (suc n) (c ∷ s) = elim (after_word (c ∷ s)) [
  | none ↦ false
  | some rest ↦ ends_within n rest
]

unfoldable pub valid_identifier : Bytes → Bool
valid_identifier s = elim (after_letter s) [ none ↦ false | some rest ↦ ends_within 62 rest ]

abbrev pub default_copy_threshold : ℤ
default_copy_threshold = pos 10000

abbrev pub table_name_of : Bytes → Bytes
table_name_of [] = codes "events"
table_name_of (c ∷ prefix) = c ∷ prefix ++ codes "_events"

-- `New`; its error names the table.
unfoldable pub new : Options → Result Bytes PostgresStore
new opts =
    let name = table_name_of opts.table_prefix in
    if valid_identifier name
    then ok (record {
      table_name = name;
      append_function_name = name ++ codes "_append";
      check_function_name = name ++ codes "_check_conditions";
      barrier_function_name = name ++ codes "_barrier_hwm";
      notify_channel = name;
      copy_threshold =
          if is_positive opts.copy_threshold then opts.copy_threshold else default_copy_threshold;
    })
    else err name
