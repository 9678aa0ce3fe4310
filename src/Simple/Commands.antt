-- ===== src/Simple/Commands.antt =====
-- The commands of wattsup/wattsup-simple.c are those of wattsup/wattsup.c.
use uarch_configure.Common.{
  ℕ, ◌+◌, ◌≤◌, ◌<◌, ◌≡◌, refl, ap, ◌∙◌, arith, leb, false, [], ◌∷◌, ◌++◌, length,
}
use uarch_configure.Common.Text.{Text, codes, print_int, print_unsigned, digits_of}
use uarch_configure.Common.Digits.{length-print_int}
use uarch_configure.Wattsup.{wu_strlen}
use uarch_configure.Wattsup.Commands.{packet}
use uarch_configure.Wattsup.Format.{text, format_packet, format_fields, format_head}
use uarch_configure.Simple.Meter.{start_text, stop_text}

three_fields :
    (f : Text)
    → length f ≤ 11
    → format_fields 3 ((b'E' ∷ []) ∷ (b'1' ∷ []) ∷ f ∷ []) (codes "#L,W,3")
      ≡ text (codes "#L,W,3,E,1," ++ (f ++ (b';' ∷ [])))
unfolding format_fields
three_fields f h = rw (lt→leb wu_strlen (10 + length f + 4) (omega arith)) refl
  where
    lt→leb : (a b : ℕ) → b < a → leb a b ≡ false
    lt→leb a b h = ground arith

start_head :
    (f : Text)
    → format_head (packet b'L' b'W' ((b'E' ∷ []) ∷ (b'1' ∷ []) ∷ f ∷ []) 3) ≡ codes "#L,W,3"
unfolding format_head print_int print_unsigned digits_of
start_head f = refl

-- For every interval, `wu_start_external_log` sends the text that `wu_write` makes of the packet with
-- the command L, the sub-command W, and E, 1 and the interval as its three fields.
pub format_packet-start_text :
    (interval : ℕ)
    → format_packet (packet b'L' b'W' ((b'E' ∷ []) ∷ (b'1' ∷ []) ∷ print_int interval ∷ []) 3)
      ≡ text (start_text interval)
unfolding format_packet start_text
format_packet-start_text interval =
    ap (λ t. format_fields 3 ((b'E' ∷ []) ∷ (b'1' ∷ []) ∷ print_int interval ∷ []) t)
      (start_head (print_int interval))
    ∙ three_fields (print_int interval) (length-print_int interval)

-- `wu_stop_external_log` sends the text of the packet with the command L, the sub-command R, and no
-- field.
format_packet-stop_text : format_packet (packet b'L' b'R' [] 0) ≡ text stop_text
unfolding format_packet format_fields format_head print_int print_unsigned digits_of
format_packet-stop_text = refl
