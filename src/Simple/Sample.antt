-- ===== src/Simple/Sample.antt =====
-- What wu_read of wattsup/wattsup-simple.c prints for a line of the meter.
use uarch_configure.Common.{
  ℕ, zero, suc, ◌-◌, ◌≤◌, ◌<◌, ◌≡◌, ◌≢◌, refl, sym, ap, subst, ◌∙◌, arith, ◌==◌, ne→==, Bool-cases,
  inl, inr, true, false, some, List, [], ◌∷◌, ◌++◌, map, append_assoc, length, replicate, All,
  take_short,
}
use uarch_configure.Common.Digits.{cut_at-append}
use uarch_configure.Common.Text.{Text, cut_at}
use uarch_configure.Simple.Read.{
  Read, got, failed, string_size, buffer, first_read, filled, fill, watts, has_end, find_field,
  find_watts, copy_field,
}
use uarch_configure.Simple.Meter.{Meter, returns, count_missed, read_line, wu_read}
use uarch_configure.Simple.Lines.{EndsLast, join, length-join, fill-join}

-- The text before the first 0, which stands before the given one or is it.
cut_at_zero :
    (front rest : Text)
    → (parts : Text × Text) × (cut_at (λ c. c == 0) (front ++ (0 ∷ rest)) ≡ some parts)
unfolding cut_at
cut_at_zero [] rest = (([], rest), refl)
cut_at_zero (c ∷ front) rest = elim (Bool-cases (c == 0)) [
  | inl e ↦ (([], front ++ (0 ∷ rest)), rw e refl)
  | inr e ↦
      let ((before, after), found) = cut_at_zero front rest in
      ((c ∷ before, after), rw (e, found) refl)
]

has_end-zero : (front rest : Text) → has_end (front ++ (0 ∷ rest)) ≡ true
has_end-zero front rest = let (parts, found) = cut_at_zero front rest in rw (found, has_end) refl

-- Neither a comma nor the 0 that ends a string.
abbrev pub IsFieldByte : ℕ → Type 0
IsFieldByte c = (c ≢ 0) × (c ≢ b',')

find_field-skip :
    (commas : ℕ) (field rest : Text)
    → All IsFieldByte field
    → commas ≢ 3
    → find_field commas (field ++ rest) ≡ find_field commas rest
unfolding find_field
find_field-skip commas [] rest all h = refl
find_field-skip commas (c ∷ field) rest ((z, n), all) h =
    rw (ne→== c 0 z, ne→== c b',' n, ne→== commas 3 h) (find_field-skip commas field rest all h)

-- The fields of a line: three before the watts, whose first begins with the '#', and the rest.
abbrev pub line_text : Text → Text → Text → Text → Text → Text
line_text one two three w rest =
    one ++ (b',' ∷ (two ++ (b',' ∷ (three ++ (b',' ∷ (w ++ (b',' ∷ rest)))))))

copy_field-lem :
    (w rest : Text) → All (λ c. (c == b',') ≡ false) w → copy_field (w ++ (b',' ∷ rest)) ≡ watts w
copy_field-lem w rest d = rw (cut_at-append (λ c. c == b',') w rest b',' d refl, copy_field) refl

third_comma : (string : Text) → find_field 2 (b',' ∷ string) ≡ copy_field string
unfolding find_field
third_comma string = refl

find_field-line :
    (one two three w rest : Text)
    → All IsFieldByte one
    → All IsFieldByte two
    → All IsFieldByte three
    → All (λ c. (c == b',') ≡ false) w
    → find_field 0 (line_text one two three w rest) ≡ watts w
unfolding find_field
find_field-line one two three w rest a b c d =
    find_field-skip 0 one _ a (λ e. absurd (omega arith))
    ∙ find_field-skip 1 two _ b (λ e. absurd (omega arith))
    ∙ find_field-skip 2 three _ c (λ e. absurd (omega arith))
    ∙ third_comma (w ++ (b',' ∷ rest))
    ∙ copy_field-lem w rest d

line_text-append :
    (one two three w rest more : Text)
    → line_text one two three w rest ++ more ≡ line_text one two three w (rest ++ more)
line_text-append one two three w rest more = simp append_assoc refl

find_watts-end : (string : Text) → has_end string ≡ true → find_watts string ≡ find_field 0 string
unfolding find_watts
find_watts-end string e = rw e refl

find_watts-line :
    (one two three w rest : Text)
    → All IsFieldByte one
    → All IsFieldByte two
    → All IsFieldByte three
    → All (λ c. (c == b',') ≡ false) w
    → length (line_text one two three w rest) < string_size
    → find_watts (buffer (line_text one two three w rest)) ≡ watts w
find_watts-line one two three w rest a b c d short =
    find_watts-end (buffer line) (
      ap has_end (ap (λ n. line ++ replicate n 0) room)
      ∙ has_end-zero line (replicate (255 - length line) 0))
    ∙ ap (find_field 0)
        (line_text-append one two three w rest (replicate (string_size - length line) 0))
    ∙ find_field-line one two three w (rest ++ replicate (string_size - length line) 0) a b c d
  where
    line : Text
    line = line_text one two three w rest

    room : string_size - length line ≡ suc (255 - length line)
    room = omega arith

first_read-failures :
    (k : ℕ) (bytes : Text) (rs : List Read)
    → length bytes ≤ string_size
    → first_read (replicate k failed ++ (got bytes ∷ rs)) ≡ some (bytes, rs)
unfolding first_read
first_read-failures zero bytes rs h = rw (take_short string_size bytes h) refl
first_read-failures (suc k) bytes rs h = first_read-failures k bytes rs h

wu_read-bytes :
    (m : Meter) (head : Text) (rs : List Read)
    → first_read m.reads ≡ some (b'#' ∷ head, rs)
    → wu_read m ≡ read_line (b'#' ∷ head) m.times (record m { reads = rs })
unfolding wu_read
wu_read-bytes m head rs e = rw e refl

never_missed : (now missed : ℕ) → count_missed 0 now missed ≡ missed
unfolding count_missed
never_missed now missed = ground arith

read_line-watts :
    (bytes string w : Text) (now : ℕ) (times : List ℕ) (later : List Read) (m : Meter)
    → fill (string_size - length bytes) (length bytes) (buffer bytes) m.reads ≡ filled string later
    → find_watts string ≡ watts w
    → read_line bytes (now ∷ times) m
      ≡ returns 0
          (record m { reads = later; times = times; printed = m.printed ++ ((now, w) ∷ []) })
unfolding read_line
read_line-watts bytes string w now times later m e f =
    rw (e, f, never_missed now m.missed_samples) refl

-- Where, after any number of reads that fail, a line of the meter comes in one or more pieces, none of
-- which ends in a line end but the last, and the line is shorter than the buffer, `wu_read` ends, has
-- taken these reads and no more, and prints the time and the field between the third comma and the
-- fourth; no sample counts as missed.
pub wu_read-line :
    (m : Meter) (k now : ℕ) (times : List ℕ) (later : List Read) (head : Text) (pieces : List Text)
    (one two three w rest : Text)
    → m.reads ≡ replicate k failed ++ (got (b'#' ∷ head) ∷ (map got pieces ++ later))
    → m.times ≡ now ∷ times
    → join (b'#' ∷ head) pieces ≡ line_text one two three w rest
    → EndsLast (b'#' ∷ head) pieces
    → All IsFieldByte one
    → All IsFieldByte two
    → All IsFieldByte three
    → All (λ c. (c == b',') ≡ false) w
    → length (line_text one two three w rest) < string_size
    → wu_read m
      ≡ returns 0
          (record m { reads = later; times = times; printed = m.printed ++ ((now, w) ∷ []) })
wu_read-line m k now times later head pieces one two three w rest reads clock whole ends a b c d
      short =
    wu_read-bytes m head (map got pieces ++ later) (
      ap first_read reads
      ∙ first_read-failures k (b'#' ∷ head) (map got pieces ++ later)
          (omega (arith, fits, first_part)))
    ∙ ap (λ t. read_line (b'#' ∷ head) t (record m { reads = map got pieces ++ later })) clock
    ∙ read_line-watts (b'#' ∷ head) (buffer (join (b'#' ∷ head) pieces)) w now times later
        (record m { reads = map got pieces ++ later })
        (fill-join b'#' head pieces later (string_size - length (b'#' ∷ head)) ends
          (omega (arith, fits)) (omega (arith, fits, first_part)))
        (ap (λ t. find_watts (buffer t)) whole ∙ find_watts-line one two three w rest a b c d short)
  where
    fits : length (join (b'#' ∷ head) pieces) < string_size
    fits = subst (λ t. length t < string_size) (sym whole) short

    first_part : length (b'#' ∷ head) ≤ length (join (b'#' ∷ head) pieces)
    first_part = length-join (b'#' ∷ head) pieces
