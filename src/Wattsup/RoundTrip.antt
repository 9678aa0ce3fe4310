-- ===== src/Wattsup/RoundTrip.antt =====
-- `parse_packet` against `wu_write` of wattsup/wattsup.c: what was sent is read back.
use uarch_configure.Common.{
  ℕ, zero, suc, ◌+◌, ◌≤◌, ◌<◌, ◌≡◌, ◌≢◌, refl, ap, ap₂, subst, sym, ◌∙◌, arith, false,
}
use uarch_configure.Common.{◌==◌}
use uarch_configure.Common.{some, List, [], ◌∷◌, ◌++◌, append_assoc, length, take, All}
use uarch_configure.Common.Text.{Text, is_space, cut_at, skip_space, first, print_int}
use uarch_configure.Common.Digits.{
  IsPlain, All-append, All-map, cut_at-append, c_string_clean, print_int-IsPlain, atoi-print_int,
}
use uarch_configure.Wattsup.{Packet, wu_strlen, wu_num_fields}
use uarch_configure.Wattsup.Format.{text, format_packet, format_head}
use uarch_configure.Wattsup.Parse.{
  parsed, is_comma, is_end, parse_fields, parse_count, parse_sub_cmd, parse_cmd, parse_packet,
}
use uarch_configure.Wattsup.Fits.{fields_text, packet_text, format_packet_exact, format_packet_fits}

-- A field without NULs and delimiters that does not begin with white space.
abbrev pub IsClean : Text → Type 0
IsClean f = All IsPlain f × (is_space (first f) ≡ false)

-- What the round trip asks of a packet.
pub record IsSendable (p : Packet) : Type 0 where
  pub cmd_plain : IsPlain p.cmd
  pub cmd_ascii : p.cmd < 128
  pub sub_plain : IsPlain p.sub_cmd
  pub sub_ascii : p.sub_cmd < 128
  pub counted : p.count ≡ length p.field
  pub nonempty : 1 ≤ length p.field
  pub few : length p.field ≤ wu_num_fields
  pub clean : All IsClean p.field

not_end : (s : Text) → All IsPlain s → All (λ c. is_end c ≡ false) s
not_end = All-map IsPlain _ (λ c h. ground arith)

not_comma : (s : Text) → All IsPlain s → All (λ c. is_comma c ≡ false) s
not_comma = All-map IsPlain _ (λ c h. ground arith)

not_nul : (s : Text) → All IsPlain s → All (λ c. c ≢ 0) s
not_nul = All-map IsPlain _ (λ c h. h.0)

skip_space_clean : (f : Text) → is_space (first f) ≡ false → skip_space f ≡ f
unfolding skip_space
skip_space_clean [] h = refl
skip_space_clean (c ∷ f) h = rw h

parse_fields_step :
    (left i : ℕ) (s : Text) (fields : List Text) {piece rest : Text}
    → cut_at is_end s ≡ some (piece, rest)
    → i < wu_num_fields
    → parse_fields (suc left) i s fields
      ≡ parse_fields left (i + 1) rest (fields ++ (skip_space piece ∷ []))
unfolding parse_fields
parse_fields_step left i s fields e h = ground arith

parse_fields-fields_text :
    (fs : List Text) (f : Text) (i : ℕ) (sofar : List Text)
    → IsClean f
    → All IsClean fs
    → i + length (f ∷ fs) ≤ wu_num_fields
    → parse_fields (length (f ∷ fs)) i (f ++ (fields_text (length fs) fs ++ (b';' ∷ []))) sofar
      ≡ (parsed, sofar ++ (f ∷ fs))
unfolding fields_text
parse_fields-fields_text [] f i sofar hf hs b =
    parse_fields_step 0 i _ sofar (cut_at-append is_end f [] b';' (not_end f hf.0) refl)
      (omega arith)
    ∙ unfold parse_fields in ap (λ g. (parsed, sofar ++ (g ∷ []))) (skip_space_clean f hf.1)
parse_fields-fields_text (g ∷ gs) f i sofar hf hs b =
    parse_fields_step (length (g ∷ gs)) i _ sofar
      (ap (λ t. cut_at is_end (f ++ (b',' ∷ t)))
          (append_assoc g (fields_text (length gs) gs) (b';' ∷ []))
        ∙ cut_at-append is_end f _ b',' (not_end f hf.0) refl)
      (omega arith)
    ∙ ap
        (λ t.
          parse_fields (length (g ∷ gs)) (i + 1) (g ++ (fields_text (length gs) gs ++ (b';' ∷ [])))
            (sofar ++ (t ∷ [])))
        (skip_space_clean f hf.1)
    ∙ parse_fields-fields_text gs g (i + 1) (sofar ++ (f ∷ [])) hs.0 hs.1 (omega arith)
    ∙ ap (λ t. (parsed, t)) (append_assoc sofar (f ∷ []) (g ∷ gs))

fields_text_plain :
    (n : ℕ) (fs : List Text) → All IsClean fs → All (λ c. c ≢ 0) (fields_text n fs ++ (b';' ∷ []))
unfolding fields_text
fields_text_plain zero fs h = (omega arith, tt)
fields_text_plain (suc n) [] h = (omega arith, tt)
fields_text_plain (suc n) (f ∷ fs) h =
    (omega arith, rw append_assoc (All-append _ f _ (not_nul f h.0.0) (fields_text_plain n fs h.1)))

take_all : (s : Text) → take (length s) s ≡ s
take_all [] = refl
take_all (c ∷ s) = ap (λ t. c ∷ t) (take_all s)

abbrev body : Text → List Text → Text
body f fs = f ++ (fields_text (length fs) fs ++ (b';' ∷ []))

abbrev sent : ℕ → ℕ → ℕ → Text → List Text → Text
sent cmd sub n f fs = b'#' ∷ cmd ∷ b',' ∷ sub ∷ b',' ∷ (print_int n ++ (b',' ∷ body f fs))

format_packet_text :
    (p : Packet) (t : Text)
    → p.count ≤ length p.field
    → format_packet p ≡ text t
    → t ≡ packet_text p
format_packet_text p t h e = ground (arith, format_packet_exact p h)

-- The stages of the parser on what stands behind the `#`.
module _ (cmd sub n : ℕ) (f : Text) (fs : List Text) (hc : IsPlain cmd × (cmd < 128))
    (hs : IsPlain sub × (sub < 128)) (hn : n ≡ length (f ∷ fs)) (hf : All IsClean (f ∷ fs))
    (few : length (f ∷ fs) ≤ wu_num_fields) where
  parse_count_sent :
      (q : Packet)
      → parse_count q (print_int n ++ (b',' ∷ (body f fs)))
        ≡ (parsed, record q { count = n; field = f ∷ fs })
  unfolding parse_count
  parse_count_sent q = ground (
    arith,
    cut_at-append is_comma (print_int n) (body f fs) b',' (not_comma _ (print_int-IsPlain n)) refl,
    atoi-print_int n (omega arith),
    parse_fields-fields_text fs f 0 [] hf.0 hf.1 (omega arith),
    ap (λ k. parse_fields k 0 (body f fs) []) hn,
  )

  parse_cmd_sent :
      (q : Packet)
      → parse_cmd q (cmd ∷ b',' ∷ sub ∷ b',' ∷ (print_int n ++ (b',' ∷ (body f fs))))
        ≡ (parsed, record q { cmd = cmd; sub_cmd = sub; count = n; field = f ∷ fs })
  unfolding parse_cmd parse_sub_cmd
  parse_cmd_sent q = ground (
    arith,
    cut_at-append is_comma (cmd ∷ []) (sub ∷ b',' ∷ (print_int n ++ (b',' ∷ (body f fs)))) b','
        (not_comma (cmd ∷ []) (hc.0, tt)) refl,
    cut_at-append is_comma (sub ∷ []) (print_int n ++ (b',' ∷ (body f fs))) b','
        (not_comma (sub ∷ []) (hs.0, tt)) refl,
    parse_count_sent (record q { cmd = cmd; sub_cmd = sub }),
  )

  sent_plain : All (λ c. c ≢ 0) (sent cmd sub n f fs)
  sent_plain = (omega arith, (hc.0.0, (omega arith, (hs.0.0, (omega arith, rest)))))
    where
      rest : All (λ c. c ≢ 0) (print_int n ++ (b',' ∷ (body f fs)))
      rest =
          All-append _ _ _ (not_nul _ (print_int-IsPlain n)) (
            omega arith,
            All-append _ f _ (not_nul f hf.0.0) (fields_text_plain (length fs) fs hf.1),
          )

  parse_packet_sent :
      (q : Packet)
      → q.buf ≡ (sent cmd sub n f fs)
      → q.len ≡ length (sent cmd sub n f fs)
      → length (sent cmd sub n f fs) < wu_strlen
      → parse_packet q ≡ (parsed, record q { cmd = cmd; sub_cmd = sub; count = n; field = f ∷ fs })
  unfolding parse_packet
  parse_packet_sent q hb hl fits = ground (
    arith,
    ap (λ k. take k q.buf) hl,
    ap (λ t. take (length (sent cmd sub n f fs)) t) hb,
    take_all (sent cmd sub n f fs),
    c_string_clean (sent cmd sub n f fs) sent_plain,
    cut_at-append (λ c. c == b'#') []
        (cmd ∷ b',' ∷ sub ∷ b',' ∷ (print_int n ++ (b',' ∷ (body f fs)))) b'#' tt refl,
    parse_cmd_sent q,
  )

packet_text_sent :
    (p : Packet) (f : Text) (fs : List Text)
    → p.field ≡ f ∷ fs
    → p.count ≡ length (f ∷ fs)
    → packet_text p ≡ sent p.cmd p.sub_cmd p.count f fs
unfolding packet_text format_head
packet_text_sent p f fs e c =
    ap (λ t. b'#' ∷ p.cmd ∷ b',' ∷ p.sub_cmd ∷ b',' ∷ (print_int p.count ++ t))
      (ap₂ (λ k l. fields_text k l ++ (b';' ∷ [])) c e
        ∙ unfold fields_text in
          ap (λ t. b',' ∷ t) (append_assoc f (fields_text (length fs) fs) (b';' ∷ [])))

-- The text that `wu_write` builds of a packet with one to eighteen clean fields, read into any
-- packet, parses, and gives that packet the command, the subcommand, the count and the fields.
pub parse_packet-format_packet :
    (p q : Packet) (t : Text)
    → IsSendable p
    → format_packet p ≡ text t
    → q.buf ≡ t
    → q.len ≡ length t
    → parse_packet q
      ≡ (parsed, record q { cmd = p.cmd; sub_cmd = p.sub_cmd; count = p.count; field = p.field })
parse_packet-format_packet p q t s e hb hl = go p.field refl
  where
    go :
        (fs : List Text)
        → p.field ≡ fs
        → parse_packet q ≡ (
          parsed,
          record q { cmd = p.cmd; sub_cmd = p.sub_cmd; count = p.count; field = p.field },
        )
    go [] ef = absurd (omega (arith, s.nonempty, ap length ef))
    go (f ∷ fs) ef =
        parse_packet_sent p.cmd p.sub_cmd p.count f fs (s.cmd_plain, s.cmd_ascii)
          (s.sub_plain, s.sub_ascii) counted (subst (All IsClean) ef s.clean)
          (omega (arith, s.few, ap length ef)) q (hb ∙ same) (hl ∙ ap length same)
          (omega (arith, format_packet_fits p t (omega arith) e, ap length same))
        ∙ ap (λ l. (parsed, record p { buf = q.buf; len = q.len; field = l })) (sym ef)
      where
        counted : p.count ≡ length (f ∷ fs)
        counted = s.counted ∙ ap length ef

        same : t ≡ sent p.cmd p.sub_cmd p.count f fs
        same = format_packet_text p t (omega arith) e ∙ packet_text_sent p f fs ef counted
