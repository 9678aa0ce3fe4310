-- ===== src/Rapl/Sysfs/Lines.antt =====
-- What `rapl_sysfs` of rapl-read/rapl-read.c prints, domain by domain.
use mathlib.Core.Option
use uarch_configure.Common.{
  ℕ, zero, suc, ◌+◌, ◌<◌, ◌≡◌, refl, ap, ap₂, ◌∙◌, arith, ◌-◌, Option, none, some, List, [], ◌∷◌,
  ◌++◌,
}
use uarch_configure.Common.Text.{Text}
use uarch_configure.Rapl.Sysfs.{
  Powercap, num_rapl_domains, each, package_names, add_package, all_names, gather_package, gather,
  Line, package_lines, all_lines, rapl_sysfs,
}

-- The line of one domain, where it has a name.
abbrev pub line_of : ℕ → Option Text → Option ℕ → Option ℕ → List Line
line_of j none b a = []
line_of j (some n) b a = record { package_number = j; domain = n; before = b; after = a } ∷ []

-- The lines of a package: one for each domain with a name, in order.
abbrev pub lines_of : ℕ → ℕ → ℕ → (ℕ → Option Text) → (ℕ → Option ℕ) → (ℕ → Option ℕ) → List Line
lines_of j i zero name before after = []
lines_of j i (suc n) name before after =
    line_of j (name i) (before i) (after i) ++ lines_of j (i + 1) n name before after

-- And of the packages.
abbrev pub listing :
    ℕ → ℕ → (ℕ → ℕ → Option Text) → (ℕ → ℕ → Option ℕ) → (ℕ → ℕ → Option ℕ) → List Line
listing j zero name before after = []
listing j (suc n) name before after =
    lines_of j 0 num_rapl_domains (name j) (before j) (after j)
    ++ listing (j + 1) n name before after

package_lines-step :
    (j i : ℕ) (o : Option Text) (names : List (Option Text)) (before after : ℕ → Option ℕ)
    → package_lines j
        (o ∷ names)
        (gather_package before i (o ∷ names))
        (gather_package after i (o ∷ names))
      ≡ line_of j o (before i) (after i)
        ++ package_lines j names
            (gather_package before (i + 1) names)
            (gather_package after (i + 1) names)
package_lines-step j i none names before after = refl
package_lines-step j i (some t) names before after = refl

package_lines-each :
    (j i n : ℕ) (name : ℕ → Option Text) (before after : ℕ → Option ℕ)
    → package_lines j
        (each i n name)
        (gather_package before i (each i n name))
        (gather_package after i (each i n name))
      ≡ lines_of j i n name before after
package_lines-each j i zero name before after = refl
package_lines-each j i (suc n) name before after =
    package_lines-step j i (name i) (each (i + 1) n name) before after
    ∙ ap (λ l. line_of j (name i) (before i) (after i) ++ l)
        (package_lines-each j (i + 1) n name before after)

-- Every package has a name.
abbrev pub Named : ℕ → ℕ → (ℕ → ℕ → Option Text) → Type 0
Named j zero name = Unit {0}
Named j (suc n) name = ((t : Text) × (name j 0 ≡ some t)) × Named (j + 1) n name

package_names-some :
    (t : Text) (o : Option Text) (domains : List (Option Text))
    → o ≡ some t
    → package_names o domains ≡ some (o ∷ domains)
package_names-some t o domains e = rw e refl

all_names-some :
    (n j : ℕ) (name : ℕ → ℕ → Option Text)
    → Named j n name
    → all_names n j name ≡ some (each j n (λ k. each 0 num_rapl_domains (name k)))
unfolding all_names
all_names-some zero j name h = refl
all_names-some (suc n) j name ((t, e), h) =
    ap₂ add_package (package_names-some t (name j 0) (each 1 (num_rapl_domains - 1) (name j)) e)
      (all_names-some n (j + 1) name h)

all_lines-each :
    (n j : ℕ) (name : ℕ → ℕ → Option Text) (before after : ℕ → ℕ → Option ℕ)
    → let names = each j n (λ k. each 0 num_rapl_domains (name k)) in
      all_lines j names (gather before j names) (gather after j names)
      ≡ listing j n name before after
all_lines-each zero j name before after = refl
all_lines-each (suc n) j name before after =
    ap₂ (λ a b. a ++ b) (package_lines-each j 0 num_rapl_domains (name j) (before j) (after j))
      (all_lines-each n (j + 1) name before after)

-- Where every package has a name, `rapl_sysfs` succeeds, and it prints one line for each domain with a
-- name, in the order of the packages and of their domains, with the energies of that domain.
pub rapl_sysfs-listing :
    (n : ℕ) (p : Powercap) (later : ℕ → ℕ → Option ℕ)
    → Named 0 n p.name
    → rapl_sysfs n p later ≡ some (listing 0 n p.name p.energy later)
unfolding rapl_sysfs
rapl_sysfs-listing n p later h =
    ap (Option.map (λ names. all_lines 0 names (gather p.energy 0 names) (gather later 0 names)))
      (all_names-some n 0 p.name h)
    ∙ ap some (all_lines-each n 0 p.name p.energy later)

add_package-none {ℓ} : {A : Type ℓ} (o : Option A) → add_package o none ≡ none
add_package-none none = refl
add_package-none (some a) = refl

all_names-unnamed :
    (n j k : ℕ) (name : ℕ → ℕ → Option Text)
    → k < n
    → name (j + k) 0 ≡ none
    → all_names n j name ≡ none
unfolding all_names
all_names-unnamed zero j k name h e = absurd (omega arith)
all_names-unnamed (suc n) j zero name h e =
    ap
      (λ o.
        add_package (package_names o (each 1 (num_rapl_domains - 1) (name j)))
          (all_names n (j + 1) name))
      (ap (λ t. name t 0) (omega arith) ∙ e)
all_names-unnamed (suc n) j (suc k) name h e =
    ap (add_package (package_names (name j 0) (each 1 (num_rapl_domains - 1) (name j))))
      (all_names-unnamed n (j + 1) k name (omega arith) (ap (λ t. name t 0) (omega arith) ∙ e))
    ∙ add_package-none _

-- A package without a name makes it fail, whatever else is there.
pub rapl_sysfs_unnamed :
    (n k : ℕ) (p : Powercap) (later : ℕ → ℕ → Option ℕ)
    → k < n
    → p.name k 0 ≡ none
    → rapl_sysfs n p later ≡ none
unfolding rapl_sysfs
rapl_sysfs_unnamed n k p later h e =
    ap (Option.map (λ names. all_lines 0 names (gather p.energy 0 names) (gather later 0 names)))
      (all_names-unnamed n 0 k p.name h (ap (λ t. p.name t 0) (omega arith) ∙ e))
