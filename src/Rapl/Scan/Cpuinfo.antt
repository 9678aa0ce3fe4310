-- ===== src/Rapl/Scan/Cpuinfo.antt =====
-- The lines of /proc/cpuinfo on a machine whose processors are all of one Intel model, and what a scan that
-- goes through them line by line ends with.
use uarch_configure.Common.{ℕ, ◌≡◌, refl, ap, ◌∙◌, false, List, [], ◌∷◌, ◌++◌, append_assoc, All}
use uarch_configure.Common.Text.{Text, codes, print_int}
use uarch_configure.Rapl.Scan.{starts_with}

-- A line that none of the three tests takes.
abbrev pub IsOther : Text → Type 0
IsOther s =
    (starts_with (codes "vendor_i") s ≡ false)
    × (starts_with (codes "cpu family") s ≡ false)
    × (starts_with (codes "model") s ≡ false)

-- The lines of a processor: the name of the model, and the lines before and behind the ones that count.
pub record Processor : Type 0 where
  pub before : List Text
  pub name : Text
  pub after : List Text

abbrev pub model_line : ℕ → Text
model_line m = codes "model\t\t: " ++ print_int m

abbrev pub name_line : Text → Text
name_line name = codes "model name\t: " ++ name

-- The lines that count.
abbrev pub counted : ℕ → Text → List Text
counted m name =
    codes "vendor_id\t: GenuineIntel\n"
    ∷ codes "cpu family\t: 6\n"
    ∷ model_line m
    ∷ name_line name
    ∷ []

abbrev pub lines : ℕ → Processor → List Text
lines m p = p.before ++ (counted m p.name ++ p.after)

abbrev pub cpuinfo : ℕ → List Processor → List Text
cpuinfo m [] = []
cpuinfo m (p ∷ ps) = lines m p ++ cpuinfo m ps

abbrev pub HasOthers : Processor → Type 0
HasOthers p = All IsOther p.before × All IsOther p.after

-- A scan that skips the other lines.
pub scan-others :
    {C R : Type 0} (scan : List Text → C → R)
    (skip : (s : Text) (ss : List Text) (c : C) → IsOther s → scan (s ∷ ss) c ≡ scan ss c)
    (others ss : List Text) (c : C)
    → All IsOther others
    → scan (others ++ ss) c ≡ scan ss c
scan-others scan skip [] ss c h = refl
scan-others scan skip (s ∷ others) ss c h =
    skip s (others ++ ss) c h.0 ∙ scan-others scan skip others ss c h.1

-- It also finds `found` in the lines that count.
module _ (m : ℕ) {C R : Type 0} (scan : List Text → C → R) (found : C)
    (skip : (s : Text) (ss : List Text) (c : C) → IsOther s → scan (s ∷ ss) c ≡ scan ss c)
    (finds : (name : Text) (ss : List Text) (c : C)
      → scan (counted m name ++ ss) c ≡ scan ss found) where
  scan-processor :
      (p : Processor) (ss : List Text) (c : C)
      → HasOthers p
      → scan (lines m p ++ ss) c ≡ scan ss found
  scan-processor p ss c (before, after) =
      ap (λ l. scan l c) (append_assoc p.before (counted m p.name ++ p.after) ss)
      ∙ scan-others scan skip p.before _ c before
      ∙ finds p.name (p.after ++ ss) c
      ∙ scan-others scan skip p.after ss found after

  scan-all : (ps : List Processor) → All HasOthers ps → scan (cpuinfo m ps) found ≡ scan [] found
  scan-all [] h = refl
  scan-all (p ∷ ps) h = scan-processor p (cpuinfo m ps) found h.0 ∙ scan-all ps h.1

  pub scan-cpuinfo :
      (p : Processor) (ps : List Processor) (c : C)
      → All HasOthers (p ∷ ps)
      → scan (cpuinfo m (p ∷ ps)) c ≡ scan [] found
  scan-cpuinfo p ps c h = scan-processor p (cpuinfo m ps) c h.0 ∙ scan-all ps h.1
