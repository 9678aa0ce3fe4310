-- ===== src/Wattsup/Fits.antt =====
-- When `wu_write` of wattsup/wattsup.c refuses a packet, and that what it builds fits `buf`.
use uarch_configure.Common.{
  ℕ, zero, suc, ◌+◌, ◌≤◌, ◌<◌, ◌≡◌, refl, ap, arith, ltb, ◌==◌, if◌then◌else◌,
}
use uarch_configure.Common.{
  List, [], ◌∷◌, ◌++◌, append_assoc, append-nil, length, length-append, ◌||◌,
}
use uarch_configure.Common.Text.{Text, print_int}
use uarch_configure.Common.Digits.{length-print_int}
use uarch_configure.Wattsup.{Packet, wu_strlen}
use uarch_configure.Wattsup.Format.{text, overflow, format_head, format_fields, format_packet}

-- The first `n` fields, a comma in front of each.
unfoldable pub fields_text : ℕ → List Text → Text
fields_text zero fs = []
fields_text (suc n) [] = []
fields_text (suc n) (f ∷ fs) = (b',' ∷ f) ++ fields_text n fs

-- What the loop decides, by the length of the whole text.
format_fields_lem :
    (n : ℕ) (fs : List Text) (sofar : Text)
    → suc n ≤ length fs
    → format_fields (suc n) fs sofar ≡ (
        if ltb (length sofar + length (fields_text (suc n) fs) + 3) wu_strlen
        then text (sofar ++ (fields_text (suc n) fs ++ (b';' ∷ [])))
        else overflow)
unfolding format_fields fields_text
format_fields_lem n [] sofar h = absurd (omega arith)
format_fields_lem zero (f ∷ fs) sofar h =
    rw append-nil (ground (arith, append_assoc sofar (b',' ∷ f) (b';' ∷ [])))
format_fields_lem (suc n) (f ∷ fs) sofar h = ground (
  arith,
  format_fields_lem n fs (sofar ++ (b',' ∷ f)) (omega arith),
  length-append sofar (b',' ∷ f),
  length-append f (fields_text (suc n) fs),
  append_assoc sofar (b',' ∷ f) (fields_text (suc n) fs ++ (b';' ∷ [])),
  append_assoc f (fields_text (suc n) fs) (b';' ∷ []),
)

-- The text that a packet stands for, whether it fits or not.
unfoldable pub packet_text : Packet → Text
unfolding format_head fields_text
packet_text p = format_head p ++ (fields_text p.count p.field ++ (b';' ∷ []))

-- A packet whose fields are all there is formatted exactly when it has no fields or its text, the
-- `;` included, is shorter than 254 bytes; the result then is that text, and else `overflow`.
pub format_packet_exact :
    (p : Packet)
    → p.count ≤ length p.field
    → format_packet p ≡ (
        if p.count == 0 || ltb (length (packet_text p)) 254 then text (packet_text p) else overflow)
unfolding format_packet packet_text format_head format_fields
format_packet_exact p h = exact p.count (format_head p) h
  where
    exact :
        (n : ℕ) (head : Text)
        → n ≤ length p.field
        → format_fields n p.field head ≡ (
            if n == 0 || ltb (length (head ++ (fields_text n p.field ++ (b';' ∷ [])))) 254
            then text (head ++ (fields_text n p.field ++ (b';' ∷ [])))
            else overflow)
    exact zero head k = refl
    exact (suc n) head k = ground (
      arith,
      format_fields_lem n p.field head k,
      length-append head (fields_text (suc n) p.field ++ (b';' ∷ [])),
      length-append (fields_text (suc n) p.field) (b';' ∷ []),
    )

short_without_fields : (p : Packet) → p.count ≡ 0 → length (packet_text p) < 20
unfolding packet_text
short_without_fields p e =
    rw (ap (λ n. fields_text n p.field) e)
      (omega (arith, length-append (print_int p.count) (b';' ∷ []), length-print_int p.count))

-- Whatever `wu_write` accepts leaves room in `buf` for the NUL behind it.
pub format_packet_fits :
    (p : Packet) (t : Text)
    → p.count ≤ length p.field
    → format_packet p ≡ text t
    → length t < wu_strlen
format_packet_fits p t h e = ground (arith, format_packet_exact p h, short_without_fields p)
