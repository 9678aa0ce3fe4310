-- ===== src/Daq/Recording/RoundTrip.antt =====
-- What mc1208fs-plus/daqflex.c records, read back by dump_binary.c.
use uarch_configure.Common.{
  ℕ, zero, suc, ◌+◌, ◌^◌, ◌<◌, ◌≤◌, ◌≡◌, refl, sym, ap, subst, ◌∙◌, arith, ltb, lt→ltb, Bool, true,
  false, Option, some, List, [], ◌∷◌, ◌++◌, append_assoc, append-nil, length, All,
}
use uarch_configure.Common.Text.{Text}
use uarch_configure.Daq.Recording.{
  word, read_word, Header, infinity, write_header, write_row, write_rows, write_recording,
  with_word, read_header, is_inf, finished, whole, add_point, take_point, read_scan, Rows, rows,
  add_scan, last_scan, after_scan, dump_loop, read_stop, dumped, finish_dump, after_header,
  dump_binary,
}
use uarch_configure.Daq.Recording.Bytes.{read_word-word}

-- The pattern of a finite number.
abbrev pub IsPoint : ℕ → Type 0
IsPoint v = (v < 2 ^ 32) × (is_inf v ≡ false)

read_scan-row :
    (size i : ℕ) (r : List ℕ) (s : Text)
    → i + length r ≤ size
    → All IsPoint r
    → read_scan size (length r) i (write_row r ++ s) ≡ whole r s
unfolding read_scan write_row take_point
read_scan-row size i [] s h p = refl
read_scan-row size i (v ∷ r) s h p =
    rw
      (
        read_scan,
        lt→ltb i size (omega arith),
        append_assoc (word 4 v) (write_row r) s,
        read_word-word 4 v (write_row r ++ s) (omega (arith, p.0.0)),
        take_point,
        p.0.1,
      )
      (ap (add_point v) (read_scan-row size (i + 1) r s (omega arith) p.1))

read_scan-end :
    (size left : ℕ) (s : Text)
    → 0 < size
    → read_scan size (suc left) 0 (word 4 infinity ++ s) ≡ finished [] s
unfolding read_scan take_point
read_scan-end size left s h = rw (lt→ltb 0 size h, read_word-word 4 infinity s (omega arith)) refl

-- The lines of `n` channels.
abbrev pub IsRow : ℕ → List ℕ → Type 0
IsRow n r = (length r ≡ n) × All IsPoint r

dump_loop-rows :
    (last : Bool) (size left : ℕ) (rs : List (List ℕ)) (s : Text)
    → suc left ≤ size
    → All (IsRow (suc left)) rs
    → dump_loop last (suc (length rs)) size (suc left) (write_rows rs ++ (word 4 infinity ++ s))
      ≡ rows (rs ++ last_scan last []) s
unfolding dump_loop write_rows after_scan
dump_loop-rows last size left [] s h p =
    ap (λ x. after_scan last x (λ rest. dump_loop last 0 size (suc left) rest))
      (read_scan-end size left s (omega arith))
dump_loop-rows last size left (r ∷ rs) s h p =
    let (len, points) = p.0 in
    let more = write_rows rs ++ (word 4 infinity ++ s) in
    let next : Text → Rows = λ rest. dump_loop last (suc (length rs)) size (suc left) rest in
    let first : read_scan size (suc left) 0 (write_row r ++ more) ≡ whole r more =
      subst (λ n. read_scan size n 0 (write_row r ++ more) ≡ whole r more) len
        (read_scan-row size 0 r more (omega (arith, len, h)) points) in
    ap (λ t. after_scan last (read_scan size (suc left) 0 t) next)
      (append_assoc (write_row r) (write_rows rs) (word 4 infinity ++ s))
    ∙ ap (λ x. after_scan last x next) first
    ∙ ap (add_scan r) (dump_loop-rows last size left rs s h p.1)

pub dump_loop-write :
    (last : Bool) (size n : ℕ) (rs : List (List ℕ)) (s : Text)
    → 0 < n
    → n ≤ size
    → All (IsRow n) rs
    → dump_loop last (suc (length rs)) size n (write_rows rs ++ (word 4 infinity ++ s))
      ≡ rows (rs ++ last_scan last []) s
dump_loop-write last size zero rs s pos le p = absurd (omega arith)
dump_loop-write last size (suc left) rs s pos le p = dump_loop-rows last size left rs s le p

-- The next word, of some that are written.
next_word {ℓ} :
    {A : Type ℓ} (n v : ℕ) (t s : Text) (next : ℕ → Text → Option A)
    → v < 256 ^ n
    → with_word (read_word n ((word n v ++ t) ++ s)) next ≡ next v (t ++ s)
unfolding with_word
next_word n v t s next h =
    ap (λ u. with_word (read_word n u) next) (append_assoc (word n v) t s)
    ∙ ap (λ x. with_word x next) (read_word-word n v (t ++ s) h)

pub record IsHeader (h : Header) : Type 0 where
  pub version_lt : h.version < 2 ^ 32
  pub start_sec_lt : h.start_sec < 2 ^ 64
  pub start_usec_lt : h.start_usec < 2 ^ 64
  pub rate_lt : h.rate < 2 ^ 32
  pub channels_pos : 0 < h.num_channels
  pub channels_le : h.num_channels ≤ 8

pub read_header-write_header :
    (h : Header) (s : Text) → IsHeader h → read_header (write_header h ++ s) ≡ some (h, s)
unfolding read_header write_header with_word
read_header-write_header h s w =
    let last = word 4 h.num_channels in
    let t4 = word 4 h.rate ++ last in
    let t3 = word 8 h.start_usec ++ t4 in
    let t2 = word 8 h.start_sec ++ t3 in
    next_word 4 h.version t2 s _ (omega (arith, w.version_lt))
    ∙ next_word 8 h.start_sec t3 s _ (omega (arith, w.start_sec_lt))
    ∙ next_word 8 h.start_usec t4 s _ (omega (arith, w.start_usec_lt))
    ∙ next_word 4 h.rate last s _ (omega (arith, w.rate_lt))
    ∙ ap (λ x. with_word x (λ n rest. some (record h { num_channels = n }, rest)))
        (read_word-word 4 h.num_channels s (omega (arith, w.channels_le)))

pub read_stop-write :
    (sec usec : ℕ)
    → sec < 2 ^ 64
    → usec < 2 ^ 64
    → read_stop (word 8 sec ++ word 8 usec) ≡ record { stop_sec = some sec; stop_usec = some usec }
unfolding read_stop
read_stop-write sec usec h l =
    rw
      (
        read_word-word 8 sec (word 8 usec) (omega arith),
        sym (append-nil (word 8 usec)),
        read_word-word 8 usec [] (omega arith),
      )
      refl

-- A recording of whole lines with 1 to 8 channels of finite numbers is read back by dump_binary.c: the
-- header, the lines in order, an empty line for the scan that breaks off, and the time of the end.
pub dump_binary-write_recording :
    (h : Header) (rs : List (List ℕ)) (sec usec : ℕ)
    → IsHeader h
    → All (IsRow h.num_channels) rs
    → sec < 2 ^ 64
    → usec < 2 ^ 64
    → dump_binary (suc (length rs)) (write_recording h rs (sec, usec))
      ≡ dumped h (rs ++ ([] ∷ [])) (record { stop_sec = some sec; stop_usec = some usec })
unfolding dump_binary write_recording after_header finish_dump
dump_binary-write_recording h rs sec usec w p a b =
    let stop = word 8 sec ++ word 8 usec in
    let body = write_rows rs ++ (word 4 infinity ++ stop) in
    let few : ltb h.num_channels (2 ^ 31) ≡ true =
      lt→ltb h.num_channels (2 ^ 31) (omega (arith, w.channels_le)) in
    rw
      (
        read_header-write_header h body w,
        few,
        dump_loop-write true 8 h.num_channels rs stop w.channels_pos w.channels_le p,
        read_stop-write sec usec a b,
      )
      refl
