-- ===== src/Wattsup/Parse.antt =====
-- `parse_packet` of wattsup/wattsup.c. Instead of writing NULs over the delimiters the model splits
-- the text at them. A store outside of `buf` or `field` is the status `out_of_bounds`.
use uarch_configure.Common.{
  ℕ, zero, suc, ◌+◌, ◌-◌, ◌^◌, ltb, ◌==◌, if◌then◌else◌, Bool, true, false, ◌||◌,
}
use uarch_configure.Common.{none, some, List, [], ◌∷◌, ◌++◌, take}
use uarch_configure.Common.Text.{Text, c_string, cut_at, skip_space, first, atoi}
use uarch_configure.Wattsup.{Packet, wu_strlen, wu_num_fields}

pub data Status : Type 0 where
  parsed efault out_of_bounds : Status

-- A `char` as an `unsigned int`: `char` is signed.
abbrev pub char_to_uint : ℕ → ℕ
char_to_uint c = if ltb c 128 then c else c + (2 ^ 32 - 256)

abbrev pub is_comma : ℕ → Bool
is_comma c = c == b','

abbrev pub is_end : ℕ → Bool
is_end c = c == b',' || c == b';'

-- The loop over the parameters, `left` of which remain; `i` of them are stored in `fields`. The
-- last one may lack its delimiter.
unfoldable pub parse_fields : ℕ → ℕ → Text → List Text → Status × List Text
parse_fields zero i s fields = (parsed, fields)
parse_fields (suc left) i s fields = elim (cut_at is_end s) [
  | some (piece, rest) ↦ elim (ltb i wu_num_fields) [
    | true ↦ parse_fields left (i + 1) rest (fields ++ (skip_space piece ∷ []))
    | false ↦ (out_of_bounds, fields)
  ]
  | none ↦
      if ltb 0 left
      then (efault, fields)
      else if ltb i wu_num_fields
      then (parsed, fields ++ (skip_space s ∷ []))
      else (out_of_bounds, fields)
]

-- From the parameter count on.
unfoldable pub parse_count : Packet → Text → Status × Packet
parse_count p s = elim (cut_at is_comma s) [
  | none ↦ (efault, p)
  | some (number, rest) ↦
      let count = atoi number in
      let (status, fields) = parse_fields count 0 rest [] in
      (status, record p { count = count; field = fields })
]

unfoldable pub parse_sub_cmd : Packet → Text → Status × Packet
parse_sub_cmd p s = elim (cut_at is_comma s) [
  | none ↦ (efault, p)
  | some (_, rest) ↦ parse_count (record p { sub_cmd = char_to_uint (first s) }) rest
]

unfoldable pub parse_cmd : Packet → Text → Status × Packet
parse_cmd p s = elim (cut_at is_comma s) [
  | none ↦ (efault, p)
  | some (_, rest) ↦ parse_sub_cmd (record p { cmd = char_to_uint (first s) }) rest
]

unfoldable pub parse_packet : Packet → Status × Packet
parse_packet p =
    if ltb p.len wu_strlen
    then elim (cut_at (λ c. c == b'#') (c_string (take p.len p.buf))) [
      | none ↦ (efault, p)
      | some (_, rest) ↦ parse_cmd p rest
    ]
    else (out_of_bounds, p)
