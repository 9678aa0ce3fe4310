-- ===== src/Simple/Lines.antt =====
-- wu_read of wattsup/wattsup-simple.c puts a line together from the pieces that come in.
use uarch_configure.Common.{
  ℕ, zero, suc, ◌+◌, ◌-◌, ◌≤◌, ◌<◌, ◌≡◌, refl, sym, ap, ap₂, ◌∙◌, arith, le→ltb, Bool, true, false,
  List, [], ◌∷◌, ◌++◌, map, append_assoc, length, get_elem?, take, drop, replicate, length-append,
  take_short,
}
use uarch_configure.Common.Text.{Text}
use uarch_configure.Simple.Read.{
  Read, got, failed, string_size, buffer, write_at, filled, is_line_end, fill,
}

module _ {ℓ} {A : Type ℓ} where
  get_elem?-append_left :
      (xs ys : List A) (i : ℕ) → i < length xs → get_elem? (xs ++ ys) i ≡ get_elem? xs i
  get_elem?-append_left [] ys i h = absurd (omega arith)
  get_elem?-append_left (x ∷ xs) ys zero h = refl
  get_elem?-append_left (x ∷ xs) ys (suc i) h = get_elem?-append_left xs ys i (omega arith)

  take-append : (xs ys : List A) → take (length xs) (xs ++ ys) ≡ xs
  take-append [] ys = refl
  take-append (x ∷ xs) ys = ap (λ t. x ∷ t) (take-append xs ys)

  drop-append : (xs ys : List A) (n : ℕ) → drop (length xs + n) (xs ++ ys) ≡ drop n ys
  drop-append [] ys n = ap (λ k. drop k ys) (zero_plus n)
    where
      zero_plus : (n : ℕ) → 0 + n ≡ n
      zero_plus n = omega arith
  drop-append (x ∷ xs) ys n =
      ap (λ k. drop k (x ∷ (xs ++ ys))) (suc_plus (length xs)) ∙ drop-append xs ys n
    where
      suc_plus : (k : ℕ) → suc k + n ≡ suc (k + n)
      suc_plus k = omega arith

  drop-replicate : (k n : ℕ) (a : A) → drop k (replicate n a) ≡ replicate (n - k) a
  drop-replicate zero n a = ap (λ t. replicate t a) (minus_zero n)
    where
      minus_zero : (n : ℕ) → n ≡ n - 0
      minus_zero n = omega arith
  drop-replicate (suc k) zero a = ap (λ t. replicate t a) (zero_minus k)
    where
      zero_minus : (k : ℕ) → 0 ≡ 0 - suc k
      zero_minus k = omega arith
  drop-replicate (suc k) (suc n) a = drop-replicate k n a ∙ ap (λ t. replicate t a) (omega arith)

-- A piece that goes behind what is there.
pub write_at-buffer :
    (line piece : Text)
    → length line + length piece ≤ 256
    → write_at (buffer line) (length line) piece ≡ buffer (line ++ piece)
write_at-buffer line piece h =
    ap (λ t. t ++ (piece ++ drop (length line + length piece) (line ++ zeros)))
      (take-append line zeros)
    ∙ ap (λ t. line ++ (piece ++ t))
        (drop-append line zeros (length piece)
          ∙ drop-replicate (length piece) (string_size - length line) 0
          ∙ ap (λ n. replicate n 0) left)
    ∙ sym (append_assoc line piece _)
  where
    zeros : Text
    zeros = replicate (string_size - length line) 0

    left : string_size - length line - length piece ≡ string_size - length (line ++ piece)
    left = omega (arith, length-append line piece)

-- The last byte of a line with a first byte.
abbrev pub ends_line : Text → Bool
ends_line [] = false
ends_line (c ∷ line) = is_line_end (get_elem? (c ∷ line) (length line))

-- What is there does not end in a line end until the last of the pieces is added.
abbrev pub EndsLast : Text → List Text → Type 0
EndsLast line [] = ends_line line ≡ true
EndsLast line (piece ∷ pieces) = (ends_line line ≡ false) × EndsLast (line ++ piece) pieces

abbrev pub join : Text → List Text → Text
join line [] = line
join line (piece ∷ pieces) = join (line ++ piece) pieces

pub length-join : (line : Text) (pieces : List Text) → length line ≤ length (join line pieces)
length-join line [] = omega arith
length-join line (piece ∷ pieces) =
    omega (arith, length-append line piece, length-join (line ++ piece) pieces)

fill-end :
    (size last : ℕ) (string : Text) (later : List Read)
    → is_line_end (get_elem? string last) ≡ true
    → fill size (suc last) string later ≡ filled string later
unfolding fill
fill-end size last string [] e = rw e refl
fill-end size last string (failed ∷ later) e = rw e refl
fill-end size last string (got bytes ∷ later) e = rw e refl

pub fill-piece :
    (size last : ℕ) (string piece : Text) (later : List Read)
    → is_line_end (get_elem? string last) ≡ false
    → length piece ≤ size
    → suc last + length piece ≤ 256
    → fill size (suc last) string (got piece ∷ later)
      ≡ fill
          (string_size - length piece)
          (suc last + length piece)
          (write_at string (suc last) piece)
          later
unfolding fill
fill-piece size last string piece later e room fits =
    rw (e, take_short size piece room, le→ltb string_size (suc last + length piece) fits) refl

pub last-buffer :
    (c : ℕ) (line : Text)
    → is_line_end (get_elem? (buffer (c ∷ line)) (length line)) ≡ ends_line (c ∷ line)
last-buffer c line = ap is_line_end (get_elem?-append_left (c ∷ line) _ (length line) (omega arith))

-- Where the pieces make one line that fits the buffer, the loop ends with that line.
pub fill-join :
    (c : ℕ) (line : Text) (pieces : List Text) (later : List Read) (size : ℕ)
    → EndsLast (c ∷ line) pieces
    → length (join (c ∷ line) pieces) ≤ string_size
    → string_size ≤ size + length (c ∷ line)
    → fill size (length (c ∷ line)) (buffer (c ∷ line)) (map got pieces ++ later)
      ≡ filled (buffer (join (c ∷ line) pieces)) later
fill-join c line [] later size e fits room =
    fill-end size (length line) (buffer (c ∷ line)) later (last-buffer c line ∙ e)
fill-join c line (piece ∷ pieces) later size (open_end, e) fits room =
    fill-piece size (length line) (buffer (c ∷ line)) piece (map got pieces ++ later)
      (last-buffer c line ∙ open_end) (omega (arith, total)) (omega (arith, total))
    ∙ ap₂ (λ n s. fill (string_size - length piece) n s (map got pieces ++ later))
        (omega (arith, length-append line piece))
        (write_at-buffer (c ∷ line) piece (omega (arith, total)))
    ∙ fill-join c (line ++ piece) pieces later (string_size - length piece) e fits
        (omega (arith, length-append line piece, total))
  where
    total : length (c ∷ line) + length piece ≤ 256
    total = omega (arith, length-append line piece, length-join ((c ∷ line) ++ piece) pieces)
