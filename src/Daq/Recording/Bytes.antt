-- ===== src/Daq/Recording/Bytes.antt =====
-- Words that are written and read back.
use uarch_configure.Common.{
  ℕ, zero, suc, ◌+◌, ◌/◌, ◌%◌, ◌^◌, ◌<◌, ◌≡◌, refl, ap, ◌∙◌, arith, Option, none, some, [], ◌∷◌,
  ◌++◌, length,
}
use native.Mathlib.Nat.{pow-suc}
use uarch_configure.Common.Text.{Text}
use uarch_configure.Daq.Recording.{word, read_word, low_byte}

pub read_word-word : (n v : ℕ) (s : Text) → v < 256 ^ n → read_word n (word n v ++ s) ≡ some (v, s)
unfolding word read_word
read_word-word zero v s h = ap (λ k. some (k, s)) (omega arith)
read_word-word (suc n) v s h =
    ap (low_byte (v % 256)) (read_word-word n (v / 256) s (omega (arith, pow-suc 256 n)))
    ∙ ap (λ k. some (k, s)) (omega arith)

pub length-word : (n v : ℕ) → length (word n v) ≡ n
unfolding word
length-word zero v = refl
length-word (suc n) v = ap suc (length-word n (v / 256))

low_byte-shorter :
    (n c : ℕ) (s : Text) (v : ℕ) (rest : Text) (x : Option (ℕ × Text))
    → ((w : ℕ) (rest' : Text) → read_word n s ≡ some (w, rest') → length rest' + n ≡ length s)
    → read_word n s ≡ x
    → low_byte c x ≡ some (v, rest)
    → length rest + suc n ≡ suc (length s)
low_byte-shorter n c s v rest none shorter e h = absurd (ground arith)
low_byte-shorter n c s v rest (some (w, rest')) shorter e h =
    let same : rest' ≡ rest = ground arith in omega (arith, shorter w rest' e, ap length same)

-- A word that is read leaves fewer bytes.
pub read_word-shorter :
    (n : ℕ) (s : Text) (v : ℕ) (rest : Text)
    → read_word n s ≡ some (v, rest)
    → length rest + n ≡ length s
unfolding read_word
read_word-shorter zero s v rest h = let e : s ≡ rest = ground arith in omega (arith, ap length e)
read_word-shorter (suc n) [] v rest h = absurd (ground arith)
read_word-shorter (suc n) (c ∷ s) v rest h =
    low_byte-shorter n c s v rest (read_word n s) (λ w rest'. read_word-shorter n s w rest') refl h
