-- ===== src/Wattsup/Print/Columns.antt =====
-- The printed lines of wattsup/wattsup.c, read back column by column.
use uarch_configure.Common.{
  ℕ, zero, suc, ◌≡◌, refl, sym, ap, ap₂, subst, ◌∙◌, arith, ◌==◌, if◌then◌else◌, Bool, true, false,
  Option, none, some, List, [], ◌∷◌, ◌++◌, All, length, map, append-nil,
}
use uarch_configure.Common.Text.{Text}
use uarch_configure.Wattsup.{Packet}
use uarch_configure.Wattsup.Options.{WuField}
use uarch_configure.Wattsup.Print.{
  Printing, msg, then_print, Column, separator, print_columns, data_columns, print_time,
  print_packet_filter,
}

-- No `%`, and no `c`.
abbrev pub IsFree : ℕ → Text → Type 0
IsFree c t = All (λ d. ((d == b'%') ≡ false) × ((d == c) ≡ false)) t

msg-free : (c : ℕ) (t : Text) → IsFree c t → msg t ≡ some t
unfolding msg
msg-free c [] h = refl
msg-free c (d ∷ []) h = rw (h.0.0) refl
msg-free c (d ∷ e ∷ t) h = rw (h.0.0, msg-free c (e ∷ t) h.1) refl

-- The columns of a line with separators that begin with `c` and have `n` characters more.
abbrev push : ℕ → List Text → List Text
push d [] = (d ∷ []) ∷ []
push d (w ∷ ws) = (d ∷ w) ∷ ws

abbrev pub split : ℕ → ℕ → ℕ → Text → List Text
split c n skip [] = [] ∷ []
split c n (suc skip) (d ∷ s) = split c n skip s
split c n zero (d ∷ s) = if d == c then [] ∷ split c n n s else push d (split c n zero s)

split-skip : (c n : ℕ) (t s : Text) → split c n (length t) (t ++ s) ≡ split c n zero s
split-skip c n [] s = refl
split-skip c n (d ∷ t) s = split-skip c n t s

split-last : (c n : ℕ) (w : Text) → IsFree c w → split c n zero w ≡ w ∷ []
split-last c n [] h = refl
split-last c n (d ∷ w) h = rw (h.0.1, split-last c n w h.1) refl

split-first :
    (c n : ℕ) (w s : Text) → IsFree c w → split c n zero (w ++ (c ∷ s)) ≡ w ∷ split c n n s
split-first c n [] s h = let same : (c == c) ≡ true = ground arith in rw (same) refl
split-first c n (d ∷ w) s h = rw (h.0.1, split-first c n w s h.1) refl

-- The columns with separators between them: those behind the first, and all.
abbrev pub behind : Text → List Text → Text
behind sep [] = []
behind sep (w ∷ ws) = sep ++ (w ++ behind sep ws)

abbrev pub joined : Text → List Text → Text
joined sep [] = []
joined sep (w ∷ ws) = w ++ behind sep ws

split-joined :
    (c : ℕ) (r w : Text) (ws : List Text)
    → IsFree c w
    → All (IsFree c) ws
    → split c (length r) zero (joined (c ∷ r) (w ∷ ws)) ≡ w ∷ ws
split-joined c r w [] h hs =
    ap (split c (length r) zero) (append-nil w) ∙ split-last c (length r) w h
split-joined c r w (v ∷ ws) h hs =
    split-first c (length r) w (r ++ joined (c ∷ r) (v ∷ ws)) h
    ∙ ap (λ t. w ∷ t)
        (split-skip c (length r) r (joined (c ∷ r) (v ∷ ws)) ∙ split-joined c r v ws hs.0 hs.1)

abbrev texts : List Column → List Text
texts columns = map (λ k. k.1) columns

print_columns-behind :
    (o : Printing) (c : ℕ) (columns : List Column)
    → o.wu_label ≡ false
    → All (IsFree c) (texts columns)
    → print_columns o true columns ≡ some (behind (separator o) (texts columns))
unfolding print_columns then_print
print_columns-behind o c [] l h = refl
print_columns-behind o c ((label, t) ∷ columns) l h =
    rw (l, msg-free c t h.0, print_columns-behind o c columns l h.1) refl

print_columns-joined :
    (o : Printing) (c : ℕ) (columns : List Column)
    → o.wu_label ≡ false
    → All (IsFree c) (texts columns)
    → print_columns o false columns ≡ some (joined (separator o) (texts columns))
unfolding print_columns then_print
print_columns-joined o c [] l h = refl
print_columns-joined o c ((label, t) ∷ columns) l h =
    rw (l, msg-free c t h.0, print_columns-behind o c columns l h.1) refl

-- The fields of a record that are enabled.
abbrev pub enabled : List WuField → List Text → List Text
enabled [] fs = []
enabled (w ∷ ws) [] = []
enabled (w ∷ ws) (f ∷ fs) = if w.enable then f ∷ enabled ws fs else enabled ws fs

one_column :
    (tenths : Text → Text) (b : Bool) (l : Option Text) (f : Text) (columns : List Column)
    (rest : List Text)
    → texts columns ≡ map tenths rest
    → texts (if b then (l, tenths f) ∷ columns else columns)
      ≡ map tenths (if b then f ∷ rest else rest)
one_column tenths true l f columns rest e = ap (λ t. tenths f ∷ t) e
one_column tenths false l f columns rest e = e

data_columns-enabled :
    (tenths : Text → Text) (ws : List WuField) (labels : List (Option Text)) (fs : List Text)
    → texts (data_columns tenths ws labels fs) ≡ map tenths (enabled ws fs)
unfolding data_columns
data_columns-enabled tenths [] labels fs = refl
data_columns-enabled tenths (w ∷ ws) labels [] = refl
data_columns-enabled tenths (w ∷ ws) [] (f ∷ fs) =
    one_column tenths w.enable none f (data_columns tenths ws [] fs) (enabled ws fs)
      (data_columns-enabled tenths ws [] fs)
data_columns-enabled tenths (w ∷ ws) (l ∷ labels) (f ∷ fs) =
    one_column tenths w.enable l f (data_columns tenths ws labels fs) (enabled ws fs)
      (data_columns-enabled tenths ws labels fs)

-- Without labels, where the separator begins with `c` and no value that is printed holds a `c` or a `%`,
-- the line of a record is the time, the values and the end of the line; and the line that is split at
-- its separators gives back the values of the enabled fields, in the order of the fields.
pub print_packet_filter-split :
    (o : Printing) (tenths : Text → Text) (fields : List WuField) (labels : List (Option Text))
    (local gmt : Text) (p : Packet) (c : ℕ) (r f : Text) (fs : List Text)
    → o.wu_label ≡ false
    → separator o ≡ c ∷ r
    → enabled fields p.field ≡ f ∷ fs
    → All (IsFree c) (map tenths (f ∷ fs))
    → (line : Text) × (print_packet_filter o tenths fields labels local gmt p
        ≡ some (print_time o local gmt ++ (line ++ (10 ∷ []))))
      × (split c (length r) 0 line ≡ map tenths (f ∷ fs))
unfolding print_packet_filter then_print
print_packet_filter-split o tenths fields labels local gmt p c r f fs l sep chosen free =
    let columns = data_columns tenths fields labels p.field in
    let values : texts columns ≡ map tenths (f ∷ fs) =
      data_columns-enabled tenths fields labels p.field ∙ ap (map tenths) chosen in
    (
      joined (separator o) (texts columns),
      rw (print_columns-joined o c columns l (subst (All (IsFree c)) (sym values) free)) refl,
      ap₂ (λ s t. split c (length r) 0 (joined s t)) sep values
          ∙ split-joined c r (tenths f) (map tenths fs) free.0 free.1,
    )

-- A field with a `%` in front of anything but a second one is a format that asks for more.
pub msg_percent : (d : ℕ) (s : Text) → (d == b'%') ≡ false → msg (b'%' ∷ d ∷ s) ≡ none
unfolding msg
msg_percent d s h = rw (h) refl
