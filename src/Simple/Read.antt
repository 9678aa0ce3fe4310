-- ===== src/Simple/Read.antt =====
-- How wu_read of wattsup/wattsup-simple.c fills its buffer of 256 bytes, and finds the watts in it.
use uarch_configure.Common.{
  ℕ, zero, suc, ◌+◌, ◌-◌, ◌==◌, ltb, if◌then◌else◌, Bool, true, false, Option, none, some, List, [],
  ◌∷◌, ◌++◌, length, get_elem?, take, drop, replicate,
}
use uarch_configure.Common.Text.{Text, cut_at}

-- What one `read` gives: at most as many bytes as were asked for, or -1.
pub data Read : Type 0 where
  got : Text → Read
  failed : Read

abbrev pub string_size : ℕ
string_size = 256

-- `string`, all of it: after `memset` and a first `read` of these bytes.
abbrev pub buffer : Text → Text
buffer bytes = bytes ++ replicate (string_size - length bytes) 0

-- The loop until a `read` does not fail; `none` where the script has no more.
unfoldable pub first_read : List Read → Option (Text × List Read)
first_read [] = none
first_read (failed ∷ rs) = first_read rs
first_read (got bytes ∷ rs) = some (take string_size bytes, rs)

-- `read` into the buffer from an offset on.
abbrev pub write_at : Text → ℕ → Text → Text
write_at string offset bytes = take offset string ++ (bytes ++ drop (offset + length bytes) string)

pub data Filled : Type 0 where
  filled : Text → List Read → Filled
  -- a byte outside the buffer is read or written
  overrun : Filled
  waiting : Filled

abbrev pub is_line_end : Option ℕ → Bool
is_line_end none = false
is_line_end (some c) = c == 10

-- The loop until `string[offset-1]` is a line end; `size` is `STRING_SIZE-ret`, and 257 after a `read`
-- that fails, which also moves the offset back.
unfoldable pub fill : ℕ → ℕ → Text → List Read → Filled
fill size zero string rs = overrun
fill size (suc last) string [] =
    if is_line_end (get_elem? string last) then filled string [] else waiting
fill size (suc last) string (failed ∷ rs) =
    let more = fill (string_size + 1) last string rs in
    if is_line_end (get_elem? string last) then filled string (failed ∷ rs) else more
fill size (suc last) string (got bytes ∷ rs) =
    let new = take size bytes in
    let more =
      fill (string_size - length new) (suc last + length new) (write_at string (suc last) new) rs in
    if is_line_end (get_elem? string last)
    then filled string (got bytes ∷ rs)
    else if ltb string_size (suc last + length new)
    then overrun
    else more

-- What `watts_string` holds in the end.
pub data Watts : Type 0 where
  watts : Text → Watts
  -- there is no third comma, and it was never written
  unset : Watts
  -- a byte behind the buffer is read
  outside : Watts

-- The copy up to the next comma, which does not look for the end of the string.
abbrev pub copy_field : Text → Watts
copy_field string = elim (cut_at (λ c. c == b',') string) [
  | some (w, rest) ↦ watts w
  | none ↦ outside
]

-- The loop over `i`, from the byte there on.
unfoldable pub find_field : ℕ → Text → Watts
unfolding cut_at
find_field commas [] = outside
find_field commas (c ∷ string) =
    let n = if c == b',' then suc commas else commas in
    let more = find_field n string in
    if c == 0 then unset else if n == 3 then copy_field string else more

-- `strlen` needs the 0 in the buffer.
abbrev pub has_end : Text → Bool
has_end string = elim (cut_at (λ c. c == 0) string) [ some parts ↦ true | none ↦ false ]

unfoldable pub find_watts : Text → Watts
unfolding find_field
find_watts string = if has_end string then find_field 0 string else outside
