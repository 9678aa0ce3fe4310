-- ===== src/Daq/Recording/Ends.antt =====
-- When the loop of mc1208fs-plus/dump_binary.c ends.
use uarch_configure.Common.{
  ℕ, zero, suc, ◌+◌, ◌*◌, ◌<◌, ◌≡◌, ◌≢◌, refl, ap, subst, arith, ltb, Bool, Bool-cases, inl, inr,
  Option, none, some, List, [], length,
}
use uarch_configure.Common.Text.{Text}
use uarch_configure.Daq.Recording.{
  read_word, is_inf, ScanRead, behind_points, finished, whole, add_point, take_point, read_scan,
  Rows, unfinished, out_of_bounds, rows, add_scan, after_scan, dump_loop,
}
use uarch_configure.Daq.Recording.Bytes.{read_word-shorter}

-- A whole scan takes four bytes for each channel.
abbrev ShorterBy : ℕ → Text → ScanRead → Type 0
ShorterBy n s behind_points = Unit {0}
ShorterBy n s (finished vs rest) = Unit {0}
ShorterBy n s (whole vs rest) = length rest + n ≡ length s

add_point-ShorterBy :
    (n v : ℕ) (s rest : Text) (x : ScanRead)
    → length rest + 4 ≡ length s
    → ShorterBy n rest x
    → ShorterBy (4 + n) s (add_point v x)
add_point-ShorterBy n v s rest behind_points e h = tt
add_point-ShorterBy n v s rest (finished vs t) e h = tt
add_point-ShorterBy n v s rest (whole vs t) e h = omega (arith, e, h)

take_point-ShorterBy :
    (n : ℕ) (s : Text) (next : Text → ScanRead) (x : Option (ℕ × Text))
    → ((rest : Text) → ShorterBy n rest (next rest))
    → read_word 4 s ≡ x
    → ShorterBy (4 + n) s (take_point x next)
unfolding take_point
take_point-ShorterBy n s next none k e = tt
take_point-ShorterBy n s next (some (v, rest)) k e = elim (Bool-cases (is_inf v)) [
  | inl y ↦ rw (take_point, y) tt
  | inr n' ↦
      rw (take_point, n')
        (add_point-ShorterBy n v s rest (next rest) (read_word-shorter 4 s v rest e) (k rest))
]

read_scan-ShorterBy :
    (size left i : ℕ) (s : Text) → ShorterBy (left * 4) s (read_scan size left i s)
unfolding read_scan
read_scan-ShorterBy size zero i s = omega arith
read_scan-ShorterBy size (suc left) i s = elim (Bool-cases (ltb i size)) [
  | inl y ↦
      rw (y, read_scan)
        (subst
          (λ k.
            ShorterBy k s (take_point (read_word 4 s) (λ rest. read_scan size left (i + 1) rest)))
          (omega arith)
          (take_point-ShorterBy (left * 4) s (λ rest. read_scan size left (i + 1) rest)
            (read_word 4 s) (λ rest. read_scan-ShorterBy size left (i + 1) rest) refl))
  | inr n ↦ rw (n, read_scan) tt
]

add_scan-ends : (vs : List ℕ) (x : Rows) → x ≢ unfinished → add_scan vs x ≢ unfinished
add_scan-ends vs unfinished h = absurd (h refl)
add_scan-ends vs out_of_bounds h = λ e. absurd (ground (arith, e))
add_scan-ends vs (rows rs s) h = λ e. absurd (ground (arith, e))

after_scan-ends :
    (last : Bool) (n : ℕ) (s : Text) (next : Text → Rows) (x : ScanRead)
    → ShorterBy n s x
    → 0 < n
    → ((rest : Text) → length rest < length s → next rest ≢ unfinished)
    → after_scan last x next ≢ unfinished
unfolding after_scan
after_scan-ends last n s next behind_points e c k = λ f. absurd (ground (arith, f))
after_scan-ends last n s next (finished vs rest) e c k = λ f. absurd (ground (arith, f))
after_scan-ends last n s next (whole vs rest) e c k =
    add_scan-ends vs (next rest) (k rest (omega (arith, e, c)))

-- On any bytes, with one channel or more, the loop over the scans ends, and one round for each byte and one
-- more are enough.
pub dump_loop_ends :
    (last : Bool) (fuel size channels : ℕ) (s : Text)
    → 0 < channels
    → length s < fuel
    → dump_loop last fuel size channels s ≢ unfinished
unfolding dump_loop
dump_loop_ends last zero size channels s c h = absurd (omega arith)
dump_loop_ends last (suc fuel) size channels s c h =
    after_scan-ends last (channels * 4) s (λ rest. dump_loop last fuel size channels rest)
      (read_scan size channels 0 s) (read_scan-ShorterBy size channels 0 s) (omega arith)
      (λ rest l. dump_loop_ends last fuel size channels rest c (omega arith))

-- With none it never ends, whatever the file holds.
pub dump_loop_endless :
    (last : Bool) (fuel size : ℕ) (s : Text) → dump_loop last fuel size 0 s ≡ unfinished
unfolding dump_loop read_scan after_scan
dump_loop_endless last zero size s = refl
dump_loop_endless last (suc fuel) size s = ap (add_scan []) (dump_loop_endless last fuel size s)
