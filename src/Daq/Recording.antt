-- ===== src/Daq/Recording.antt =====
-- The binary recordings of mc1208fs-plus: the bytes that daqflex.c writes, and how dump_binary.c reads
-- them. A `float` is its pattern of 32 bits, in the order of bytes of the machine.
pub mod Bytes
pub mod Ends
pub mod RoundTrip
pub mod Session
pub mod Debounced
pub mod Traced
pub mod Watts
use uarch_configure.Common.{
  ℕ, zero, suc, ◌+◌, ◌*◌, ◌/◌, ◌%◌, ◌^◌, ◌==◌, ltb, ◌||◌, if◌then◌else◌, Bool, true, false, Option,
  none, some, List, [], ◌∷◌, ◌++◌,
}
use uarch_configure.Common.Text.{Text}

-- `fwrite(&v, n, 1, output)`
unfoldable pub word : ℕ → ℕ → Text
word zero v = []
word (suc n) v = v % 256 ∷ word n (v / 256)

-- `read(fd, &v, n)`: the value and what stands behind it, `none` where fewer than `n` bytes are left.
abbrev pub low_byte : ℕ → Option (ℕ × Text) → Option (ℕ × Text)
low_byte c none = none
low_byte c (some (v, rest)) = some (c + 256 * v, rest)

unfoldable pub read_word : ℕ → Text → Option (ℕ × Text)
read_word zero s = some (0, s)
read_word (suc n) [] = none
read_word (suc n) (c ∷ s) = low_byte c (read_word n s)

pub record Header : Type 0 where
  pub version : ℕ
  pub start_sec : ℕ
  pub start_usec : ℕ
  pub rate : ℕ
  pub num_channels : ℕ

-- The time at the end, `none` for a value that was not read whole.
pub record Stop : Type 0 where
  pub stop_sec : Option ℕ
  pub stop_usec : Option ℕ

-- `1.0/0.0`
abbrev pub infinity : ℕ
infinity = 0x7f800000

unfoldable pub write_header : Header → Text
write_header h =
    word 4 h.version
    ++ (word 8 h.start_sec ++ (word 8 h.start_usec ++ (word 4 h.rate ++ word 4 h.num_channels)))

-- The values of the lines that `displayAndWriteData` writes, one behind the other.
unfoldable pub write_row : List ℕ → Text
write_row [] = []
write_row (v ∷ vs) = word 4 v ++ write_row vs

unfoldable pub write_rows : List (List ℕ) → Text
write_rows [] = []
write_rows (r ∷ rs) = write_row r ++ write_rows rs

-- What `main` of daqflex.c writes with -b.
unfoldable pub write_recording : Header → List (List ℕ) → (ℕ × ℕ) → Text
write_recording h rs (sec, usec) =
    write_header h ++ (write_rows rs ++ (word 4 infinity ++ (word 8 sec ++ word 8 usec)))

-- A value that is read, and what is done with it and the bytes behind.
unfoldable pub with_word {ℓ} : {A : Type ℓ} → Option (ℕ × Text) → (ℕ → Text → Option A) → Option A
with_word none next = none
with_word (some (v, rest)) next = next v rest

unfoldable pub read_header : Text → Option (Header × Text)
unfolding with_word
read_header s = with_word (read_word 4 s) λ version s1. with_word (read_word 8 s1) λ start_sec s2.
    with_word (read_word 8 s2) λ start_usec s3. with_word (read_word 4 s3) λ rate s4.
      with_word (read_word 4 s4) λ num_channels s5. some (
        record {
          version = version;
          start_sec = start_sec;
          start_usec = start_usec;
          rate = rate;
          num_channels = num_channels;
        },
        s5,
      )

abbrev pub is_inf : ℕ → Bool
is_inf v = v == 0x7f800000 || v == 0xff800000

-- The inner loop: a store behind `points`; the loop that breaks off with `done`; or a whole scan. With the
-- values, and what stands behind them.
pub data ScanRead : Type 0 where
  behind_points : ScanRead
  finished whole : List ℕ → Text → ScanRead

abbrev pub add_point : ℕ → ScanRead → ScanRead
add_point v behind_points = behind_points
add_point v (finished vs s) = finished (v ∷ vs) s
add_point v (whole vs s) = whole (v ∷ vs) s

unfoldable pub take_point : Option (ℕ × Text) → (Text → ScanRead) → ScanRead
take_point none next = finished [] []
take_point (some (v, rest)) next = if is_inf v then finished [] rest else add_point v (next rest)

-- `left` channels from `i` on, into an array of `size` elements.
unfoldable pub read_scan : ℕ → ℕ → ℕ → Text → ScanRead
read_scan size zero i s = whole [] s
read_scan size (suc left) i s =
    let point = take_point (read_word 4 s) (λ rest. read_scan size left (i + 1) rest) in
    if ltb i size then point else behind_points

-- The rows that are printed, and what stands behind them.
pub data Rows : Type 0 where
  unfinished out_of_bounds : Rows
  rows : List (List ℕ) → Text → Rows

abbrev pub add_scan : List ℕ → Rows → Rows
add_scan r unfinished = unfinished
add_scan r out_of_bounds = out_of_bounds
add_scan r (rows rs s) = rows (r ∷ rs) s

-- Each program ends at the scan that breaks off: dump_binary.c (`with_last`) ends its line too, and
-- dump_watts.c, dump_watts_ddr3.c, dump_watts_ddr4.c and debounce_serial.c leave it out.
abbrev pub last_scan : Bool → List ℕ → List (List ℕ)
last_scan true vs = vs ∷ []
last_scan false vs = []

unfoldable pub after_scan : Bool → ScanRead → (Text → Rows) → Rows
after_scan with_last behind_points next = out_of_bounds
after_scan with_last (finished vs s) next = rows (last_scan with_last vs) s
after_scan with_last (whole vs s) next = add_scan vs (next s)

unfoldable pub dump_loop : Bool → ℕ → ℕ → ℕ → Text → Rows
dump_loop with_last zero size channels s = unfinished
dump_loop with_last (suc fuel) size channels s =
    after_scan with_last (read_scan size channels 0 s)
      (λ rest. dump_loop with_last fuel size channels rest)

abbrev pub value_of : Option (ℕ × Text) → Option ℕ
value_of none = none
value_of (some (v, rest)) = some v

abbrev pub behind : Option (ℕ × Text) → Text
behind none = []
behind (some (v, rest)) = rest

unfoldable pub read_stop : Text → Stop
read_stop s = record {
  stop_sec = value_of (read_word 8 s);
  stop_usec = value_of (read_word 8 (behind (read_word 8 s)));
}

-- `channels` is an `int`: the loop over them has no round where it is negative.
abbrev pub rounds : ℕ → ℕ
rounds channels = if ltb channels (2 ^ 31) then channels else 0

-- `cut_short`: a value of the header is used that was not read whole.
pub data Dump : Type 0 where
  cut_short endless overrun : Dump
  dumped : Header → List (List ℕ) → Stop → Dump

unfoldable pub finish_dump : Header → Rows → Dump
finish_dump h unfinished = endless
finish_dump h out_of_bounds = overrun
finish_dump h (rows rs s) = dumped h rs (read_stop s)

unfoldable pub after_header {ℓ} :
    {A : Type ℓ} → A → Option (Header × Text) → (Header → Text → A) → A
after_header short none next = short
after_header short (some (h, rest)) next = next h rest

-- `main` of dump_binary.c, on the bytes of the file; `points` has 8 elements.
unfoldable pub dump_binary : ℕ → Text → Dump
dump_binary fuel s =
    after_header cut_short (read_header s)
      λ h rest. finish_dump h (dump_loop true fuel 8 (rounds h.num_channels) rest)
