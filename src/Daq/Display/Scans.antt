-- ===== src/Daq/Display/Scans.antt =====
-- Which samples `displayAndWriteData` shows, and under which channels.
use uarch_configure.Common.{
  ℕ, zero, suc, ◌+◌, ◌≤◌, ◌<◌, ◌≡◌, refl, ap, ◌∙◌, subst, arith, some, List, [], ◌∷◌, ◌++◌,
  append_assoc, length, length-append, length-snoc, get_elem?-middle, All,
}
use uarch_configure.Daq.Display.{rows, show_channels, display_loop, display_and_write_data}

abbrev pub flatten : List (List ℕ) → List ℕ
flatten [] = []
flatten (s ∷ ss) = s ++ flatten ss

-- The samples of a scan under their channels, which count from `chan`.
abbrev pub labelled : ℕ → List ℕ → List (ℕ × ℕ)
labelled chan [] = []
labelled chan (x ∷ xs) = (chan, x) ∷ labelled (chan + 1) xs

abbrev pub labelled_all : List (List ℕ) → List (List (ℕ × ℕ))
labelled_all [] = []
labelled_all (s ∷ ss) = labelled 0 s ∷ labelled_all ss

show_channels_lem :
    (xs pre rest : List ℕ) (chan : ℕ)
    → show_channels (length xs) chan (pre ++ (xs ++ rest)) (length pre) ≡ some (labelled chan xs)
unfolding show_channels
show_channels_lem [] pre rest chan = refl
show_channels_lem (x ∷ xs) pre rest chan = ground (
  arith,
  get_elem?-middle pre x (xs ++ rest),
  append_assoc pre (x ∷ []) (xs ++ rest),
  length-snoc pre x,
  show_channels_lem xs (pre ++ (x ∷ [])) rest (chan + 1),
)

display_loop_lem :
    (scans : List (List ℕ)) (pre rest : List ℕ) (fuel t n : ℕ)
    → All (λ s. length s ≡ n) scans
    → t ≤ length pre + length (flatten scans)
    → (0 < length scans → length pre + length (flatten scans) < t + n)
    → 0 < n
    → length scans < fuel
    → display_loop fuel (pre ++ (flatten scans ++ rest)) t n (length pre)
      ≡ rows (labelled_all scans)
unfolding display_loop
display_loop_lem scans pre rest zero t n h l u p f = absurd (omega arith)
display_loop_lem [] pre rest (suc fuel) t n h l u p f = ground arith
display_loop_lem (s ∷ ss) pre rest (suc fuel) t n h l u p f = ground (
  arith,
  h.0,
  u (omega arith),
  length-append s (flatten ss),
  length-append pre s,
  append_assoc s (flatten ss) rest,
  append_assoc pre s (flatten ss ++ rest),
  subst
      (λ k.
        show_channels k 0 (pre ++ (s ++ (flatten ss ++ rest))) (length pre) ≡ some (labelled 0 s))
      h.0 (show_channels_lem s pre (flatten ss ++ rest) 0),
  display_loop_lem ss (pre ++ s) rest fuel t n h.1
      (omega (arith, length-append s (flatten ss), length-append pre s))
      (λ _. omega (arith, u (omega arith), length-append s (flatten ss), length-append pre s)) p
      (omega arith),
)

length-flatten :
    (n : ℕ) (scans : List (List ℕ))
    → 0 < n
    → All (λ s. length s ≡ n) scans
    → length scans ≤ length (flatten scans)
length-flatten n [] p h = omega arith
length-flatten n (s ∷ ss) p h =
    omega (arith, h.0, length-append s (flatten ss), length-flatten n ss p h.1)

-- Every sample is shown under its channel where the samples asked for are whole scans. Where the
-- last scan is begun within them and ends behind them, it is shown to its end, with the samples
-- that stand there; in both cases the loop ends.
pub display_scans :
    (scans : List (List ℕ)) (rest : List ℕ) (transferred n : ℕ)
    → All (λ s. length s ≡ n) scans
    → 0 < n
    → 0 < length scans
    → transferred ≤ length (flatten scans)
    → length (flatten scans) < transferred + n
    → display_and_write_data (flatten scans ++ rest) transferred n ≡ rows (labelled_all scans)
unfolding display_and_write_data
display_scans [] rest t n h p some_scan l u = absurd (omega arith)
display_scans (s ∷ ss) rest t n h p some_scan l u =
    ap (λ fuel. display_loop fuel (flatten (s ∷ ss) ++ rest) t n 0) (plus_one t)
    ∙ display_loop_lem (s ∷ ss) [] rest (suc t) t n h (omega arith) (λ _. omega arith) p
        (omega (arith, h.0, length-append s (flatten ss), length-flatten n ss p h.1))
  where
    plus_one : (t : ℕ) → t + 1 ≡ suc t
    plus_one t = omega arith
