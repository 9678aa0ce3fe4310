-- ===== src/Wattsup/Bounds.antt =====
-- What `parse_packet` of wattsup/wattsup.c leaves behind, and when it stores out of bounds.
use uarch_configure.Common.{ℕ, zero, suc, ◌+◌, ◌≤◌, ◌<◌, ◌≡◌, ◌≢◌, arith, Bool, false}
use uarch_configure.Common.{ltb, Bool-cases, Option-cases, ◌⊎◌, inl, inr}
use uarch_configure.Common.{◌==◌, take, List, [], ◌∷◌, ◌++◌, length, All}
use uarch_configure.Common.Text.{Text, is_space, c_string, cut_at, skip_space, first, atoi}
use uarch_configure.Wattsup.{Packet, wu_strlen, wu_num_fields}
use uarch_configure.Wattsup.Parse.{
  out_of_bounds, is_end, is_comma, char_to_uint, parse_fields, parse_count, parse_sub_cmd,
  parse_cmd, parse_packet,
}

-- Texts without the byte that a test looks for.
abbrev pub Lacks : (ℕ → Bool) → Text → Type 0
Lacks test = All (λ c. test c ≡ false)

-- A parameter as the parser stores it: no delimiter in it and no white space in front.
abbrev pub IsField : Text → Type 0
IsField f = Lacks is_end f × (is_space (first f) ≡ false)

parse_fields-ne-out_of_bounds :
    (left i : ℕ) (s : Text) (fields : List Text)
    → left + i ≤ wu_num_fields
    → (parse_fields left i s fields).0 ≢ out_of_bounds
unfolding parse_fields
parse_fields-ne-out_of_bounds zero i s fields h = λ e. cc
parse_fields-ne-out_of_bounds (suc left) i s fields h = elim (Option-cases (cut_at is_end s)) [
  | inl n ↦ ground arith
  | inr ((piece, rest), q) ↦ ground (
    arith,
    parse_fields-ne-out_of_bounds left (i + 1) rest (fields ++ (skip_space piece ∷ []))
        (omega arith),
  )
]

-- What the loop has stored when it succeeds.
record Stored (n : ℕ) (fields : List Text) : Type 0 where
  all : length fields ≡ n
  few : n ≤ wu_num_fields
  clean : All IsField fields

-- What `parse_packet` promises of the packet that it makes of the `len` bytes in `buf`.
pub record IsParsed (buf : Text) (len : ℕ) (p : Packet) : Type 0 where
  pub in_buf : len < wu_strlen
  pub counted : length p.field ≡ p.count
  pub few : p.count ≤ wu_num_fields
  pub clean : All IsField p.field
  pub kept : (p.buf ≡ buf) × (p.len ≡ len)

parse_count-bounds :
    (p : Packet) (s : Text)
    → (parse_count p s).0 ≡ out_of_bounds
    → wu_num_fields < (parse_count p s).1.count
unfolding parse_count
parse_count-bounds p s e = elim (Option-cases (cut_at is_comma s)) [
  | inl n ↦ absurd (ground arith)
  | inr ((number, rest), q) ↦ ground (arith, parse_fields-ne-out_of_bounds (atoi number) 0 rest [])
]

parse_cmd-bounds :
    (p : Packet) (s : Text)
    → (parse_cmd p s).0 ≡ out_of_bounds
    → wu_num_fields < (parse_cmd p s).1.count
unfolding parse_cmd parse_sub_cmd
parse_cmd-bounds p s e = elim (Option-cases (cut_at is_comma s)) [
  | inl n ↦ absurd (ground arith)
  | inr ((_, rest), q) ↦ elim (Option-cases (cut_at is_comma rest)) [
    | inl n ↦ absurd (ground arith)
    | inr ((_, more), r) ↦ ground (
      arith,
      parse_count-bounds
          (record p { cmd = char_to_uint (first s); sub_cmd = char_to_uint (first rest) }) more,
    )
  ]
]

-- `parse_packet` stores out of bounds only when it is given 256 bytes or more, or when the packet
-- says that it has more than eighteen parameters.
pub parse_packet_bounds :
    (p : Packet)
    → (parse_packet p).0 ≡ out_of_bounds
    → (wu_strlen ≤ p.len) ⊎ (wu_num_fields < (parse_packet p).1.count)
unfolding parse_packet
parse_packet_bounds p e = elim (Bool-cases (ltb p.len wu_strlen)) [
  | inr full ↦ inl (ground arith)
  | inl room ↦ elim (Option-cases (cut_at (λ c. c == b'#') (c_string (take p.len p.buf)))) [
    | inl n ↦ absurd (ground arith)
    | inr ((_, rest), q) ↦ inr (ground (arith, parse_cmd-bounds p rest))
  ]
]

-- 256 bytes or more always lead `parse_packet` to the NUL behind the end of `buf`.
pub parse_packet_full : (p : Packet) → wu_strlen ≤ p.len → parse_packet p ≡ (out_of_bounds, p)
unfolding parse_packet
parse_packet_full p h = ground arith
