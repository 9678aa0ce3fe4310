-- ===== src/Simple/Overrun.antt =====
-- Where wu_read of wattsup/wattsup-simple.c leaves its buffer.
use uarch_configure.Common.{
  ℕ, suc, ◌+◌, ◌-◌, ◌≤◌, ◌<◌, ◌≡◌, refl, ap₂, ◌∙◌, arith, lt→ltb, false, List, ◌∷◌, ◌++◌, length,
  length-append, get_elem?, take_short,
}
use uarch_configure.Common.Text.{Text}
use uarch_configure.Simple.Read.{Read, got, string_size, buffer, overrun, fill, is_line_end}
use uarch_configure.Simple.Lines.{ends_line, fill-piece, last-buffer, write_at-buffer}

fill-overrun :
    (size last : ℕ) (string piece : Text) (later : List Read)
    → is_line_end (get_elem? string last) ≡ false
    → length piece ≤ size
    → 256 < suc last + length piece
    → fill size (suc last) string (got piece ∷ later) ≡ overrun
unfolding fill
fill-overrun size last string piece later e room long =
    rw (e, take_short size piece room, lt→ltb string_size (suc last + length piece) long) refl

-- After a second piece that ends no line, the next `read` asks for 256 bytes less that piece alone: a
-- third piece that the first leaves no room for is written behind the buffer.
pub fill_third_piece :
    (c : ℕ) (line second third : Text) (later : List Read)
    → ends_line (c ∷ line) ≡ false
    → ends_line ((c ∷ line) ++ second) ≡ false
    → length (c ∷ line) + length second ≤ string_size
    → length second + length third ≤ string_size
    → string_size < length (c ∷ line) + length second + length third
    → fill
        (string_size - length (c ∷ line))
        (length (c ∷ line))
        (buffer (c ∷ line))
        (got second ∷ got third ∷ later)
      ≡ overrun
fill_third_piece c line second third later e f fits asked long =
    fill-piece (string_size - length (c ∷ line)) (length line) (buffer (c ∷ line)) second
      (got third ∷ later) (last-buffer c line ∙ e) (omega arith) fits
    ∙ ap₂ (λ n s. fill (string_size - length second) n s (got third ∷ later))
        (omega (arith, length-append line second)) (write_at-buffer (c ∷ line) second fits)
    ∙ fill-overrun (string_size - length second) (length (line ++ second))
        (buffer (c ∷ (line ++ second))) third later (last-buffer c (line ++ second) ∙ f)
        (omega arith) (omega (arith, length-append line second))
