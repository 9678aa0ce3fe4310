-- ===== src/Wattsup/Format.antt =====
-- `wu_write` of wattsup/wattsup.c up to its `write`: the command text that a packet is sent as.
use uarch_configure.Common.{ℕ, zero, suc, ◌+◌, leb, if◌then◌else◌, List, [], ◌∷◌, ◌++◌, length}
use uarch_configure.Common.Text.{Text, print_int}
use uarch_configure.Wattsup.{Packet, wu_strlen}

pub data Formatted : Type 0 where
  text : Text → Formatted
  overflow : Formatted
  -- a `NULL` field, which `strlen` would follow
  null_field : Formatted

-- `sprintf(p->buf, "#%c,%c,%d", p->cmd, p->sub_cmd, p->count)`
unfoldable pub format_head : Packet → Text
format_head p = b'#' ∷ p.cmd ∷ b',' ∷ p.sub_cmd ∷ b',' ∷ print_int p.count

-- The loop over the fields; `sofar` is the text in `p->buf`, and its length is `p->len`.
unfoldable pub format_fields : ℕ → List Text → Text → Formatted
format_fields zero fs sofar = text (sofar ++ (b';' ∷ []))
format_fields (suc n) [] sofar = null_field
format_fields (suc n) (f ∷ fs) sofar =
    let rest = format_fields n fs (sofar ++ (b',' ∷ f)) in
    if leb wu_strlen (length sofar + length f + 4) then overflow else rest

unfoldable pub format_packet : Packet → Formatted
format_packet p = format_fields p.count p.field (format_head p)
