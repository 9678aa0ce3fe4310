-- ===== src/RaspPi/Revision.antt =====
-- What rpi_version of rasp-pi-serial/rpirtscts.c finds, and the bases of each board.
use uarch_configure.Common.{
  ℕ, ◌^◌, ◌<◌, ◌≡◌, refl, ◌∙◌, lt→ltb, eq→==, none, some, List, [], ◌∷◌, ◌++◌,
}
use uarch_configure.Common.Text.{Text, codes}
use uarch_configure.RaspPi.Board.{
  mismatch, number, scan_number, scan_key, find_revision, rpi_version,
}

-- None of the words starts like the key.
abbrev pub Differ : Text → List Text → Type 0
Differ key [] = Unit {0}
Differ key (w ∷ ws) = (scan_key key w ≡ mismatch) × Differ key ws

find_revision-after :
    (key : Text) (ws : List Text) (w : Text) (rest : List Text)
    → Differ key ws
    → find_revision key (ws ++ (w ∷ rest)) ≡ find_revision key (w ∷ rest)
unfolding find_revision
find_revision-after key [] w rest d = refl
find_revision-after key (v ∷ ws) w rest (d, ds) =
    rw (d, find_revision) (find_revision-after key ws w rest ds)

find_revision-none : (key : Text) (ws : List Text) → Differ key ws → find_revision key ws ≡ none
unfolding find_revision
find_revision-none key [] d = refl
find_revision-none key (v ∷ ws) (d, ds) = rw (d, find_revision) (find_revision-none key ws ds)

scan_key-lem : (key s : Text) → scan_key key (key ++ s) ≡ scan_number s
unfolding scan_key
scan_key-lem [] s = refl
scan_key-lem (k ∷ key) s = rw (eq→== k k refl) (scan_key-lem key s)

find_revision-number :
    (key w : Text) (rest : List Text) (n : ℕ)
    → scan_key key w ≡ number n
    → n < 2 ^ 31
    → find_revision key (w ∷ rest) ≡ some n
unfolding find_revision
find_revision-number key w rest n e l = rw (e, find_revision, lt→ltb n (2 ^ 31) l) refl

-- The first word that does not differ, where it goes on with a number.
find_revision-word :
    (key : Text) (ws : List Text) (s : Text) (rest : List Text) (n : ℕ)
    → Differ key ws
    → scan_number s ≡ number n
    → n < 2 ^ 31
    → find_revision key (ws ++ ((key ++ s) ∷ rest)) ≡ some n
find_revision-word key ws s rest n d e l =
    find_revision-after key ws (key ++ s) rest d
    ∙ find_revision-number key (key ++ s) rest n (scan_key-lem key s ∙ e) l

rpi_version-found :
    (ws : List Text) (n : ℕ)
    → find_revision (codes "bcm2708.boardrev=") ws ≡ some n
    → rpi_version ws ≡ n
unfolding rpi_version
rpi_version-found ws n e = rw (e, rpi_version) refl

rpi_version-other :
    (ws : List Text) (n : ℕ)
    → find_revision (codes "bcm2708.boardrev=") ws ≡ none
    → find_revision (codes "bcm2709.boardrev=") ws ≡ some n
    → rpi_version ws ≡ n
unfolding rpi_version
rpi_version-other ws n e f = rw (e, f, rpi_version) refl

-- Where the words before "bcm2708.boardrev=" with a number below 2 ^ 31 are no start of that key, this
-- number is the result, whatever follows.
pub rpi_version-first :
    (ws : List Text) (s : Text) (rest : List Text) (n : ℕ)
    → Differ (codes "bcm2708.boardrev=") ws
    → scan_number s ≡ number n
    → n < 2 ^ 31
    → rpi_version (ws ++ ((codes "bcm2708.boardrev=" ++ s) ∷ rest)) ≡ n
rpi_version-first ws s rest n d e l =
    rpi_version-found _ n (find_revision-word (codes "bcm2708.boardrev=") ws s rest n d e l)

-- Where no word has the first key, the first "bcm2709.boardrev=" with a number below 2 ^ 31 gives the
-- result.
pub rpi_version-second :
    (ws : List Text) (s : Text) (rest : List Text) (n : ℕ)
    → Differ (codes "bcm2708.boardrev=") (ws ++ ((codes "bcm2709.boardrev=" ++ s) ∷ rest))
    → Differ (codes "bcm2709.boardrev=") ws
    → scan_number s ≡ number n
    → n < 2 ^ 31
    → rpi_version (ws ++ ((codes "bcm2709.boardrev=" ++ s) ∷ rest)) ≡ n
rpi_version-second ws s rest n none_first d e l =
    rpi_version-other _ n (find_revision-none (codes "bcm2708.boardrev=") _ none_first)
      (find_revision-word (codes "bcm2709.boardrev=") ws s rest n d e l)
