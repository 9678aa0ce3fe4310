-- ===== src/Wattsup/Tables.antt =====
-- What the command line does to the tables of wattsup/wattsup.c.
use uarch_configure.Common.{ℕ, ◌≡◌, ◌≢◌, arith, true, false, some, none, Option}
use uarch_configure.Common.{List, [], ◌∷◌, ◌++◌, length, All}
use uarch_configure.Common.Text.{Text, same_text}
use uarch_configure.Wattsup.Options.{
  WuOption, WuField, enable_field, set_option, enable_short_option, enable_long_option,
}

-- A field whose name is another one, letter case aside.
abbrev pub OtherName : Text → WuField → Type 0
OtherName name f = (n : Text) × (f.name ≡ some n) × (same_text n name ≡ false)

-- `enable_field` enables the first field of that name, letter case aside, and changes nothing else.
pub enable_field_first :
    (name n : Text) (before after : List WuField) (f : WuField)
    → All (OtherName name) before
    → f.name ≡ some n
    → same_text n name ≡ true
    → enable_field name (before ++ (f ∷ after))
      ≡ some (before ++ (record f { enable = true } ∷ after))
unfolding enable_field
enable_field_first name n [] after f h e m = ground arith
enable_field_first name n (g ∷ gs) after f h e m =
    let (k, hk, other) = h.0 in ground (arith, enable_field_first name n gs after f h.1 e m)

-- A name that no field has leads `enable_field` to the first entry without a name, where it faults.
pub enable_field_unknown :
    (name : Text) (before after : List WuField) (f : WuField)
    → All (OtherName name) before
    → f.name ≡ none
    → enable_field name (before ++ (f ∷ after)) ≡ none
unfolding enable_field
enable_field_unknown name [] after f h e = ground arith
enable_field_unknown name (g ∷ gs) after f h e =
    let (k, hk, other) = h.0 in ground (arith, enable_field_unknown name gs after f h.1 e)

-- A letter sets the first option that has it, and leaves the table as the long option with that
-- place does.
pub enable_short_option_first :
    (c : ℕ) (arg : Option Text) (before after : List WuOption) (o : WuOption)
    → All (λ p. p.shortopt ≢ c) before
    → o.shortopt ≡ c
    → (enable_short_option c arg (before ++ (o ∷ after)) ≡ before ++ (set_option arg o ∷ after))
      × (enable_short_option c arg (before ++ (o ∷ after))
          ≡ enable_long_option (length before) arg (before ++ (o ∷ after)))
unfolding enable_short_option enable_long_option
enable_short_option_first c arg [] after o h e = (ground arith, ground arith)
enable_short_option_first c arg (p ∷ ps) after o h e =
    let (same, agree) = enable_short_option_first c arg ps after o h.1 e in
    (ground arith, ground arith)
