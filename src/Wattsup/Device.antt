-- ===== src/Wattsup/Device.antt =====
-- The serial device of wattsup/wattsup.c as the program meets it, and `wu_write` and `wu_read`.
-- The device is a script: what each coming `select` and `read`, and each coming `write`, gives.
use uarch_configure.Common.{ℕ, List, [], ◌∷◌, ◌++◌, length, take}
use uarch_configure.Common.Text.{Text}
use uarch_configure.Wattsup.{Packet, Code, success, eoverflow, efault, etime, io_error, wu_strlen}
use uarch_configure.Wattsup.Format.{text, overflow, null_field, format_packet}
use uarch_configure.Wattsup.Parse.{Status, parsed, out_of_bounds, parse_packet}

-- `received` holds what `read` returned, of which at most `wu_strlen` bytes are asked for.
pub data ReadEvent : Type 0 where
  select_failed timed_out read_failed : ReadEvent
  received : Text → ReadEvent

pub data WriteEvent : Type 0 where
  wrote : ℕ → WriteEvent
  write_failed : WriteEvent

-- `sent` are the bytes that each `write` took, `printed` the packets that were printed.
pub record Device : Type 0 where
  pub reads : List ReadEvent
  pub writes : List WriteEvent
  pub sent : List Text
  pub printed : List Packet

-- `fault`: the program leaves what C defines. `waiting`: the script has no more events.
-- `exhausted`: the fuel of a loop ran out, which is no behaviour of the program.
pub data Outcome {ℓ} (A : Type ℓ) : Type ℓ where
  returns : A → Device → Outcome A
  fault waiting exhausted : Outcome A

abbrev pub M {ℓ} : Type ℓ → Type ℓ
M A = Device → Outcome A

infixl 5 ◌>>=◌ ◌>>◌
abbrev pub ◌>>=◌ {ℓ κ} : {A : Type ℓ} {B : Type κ} → M A → (A → M B) → M B
◌>>=◌ m f d = elim (m d) [
  | returns a d' ↦ f a d'
  | fault ↦ fault
  | waiting ↦ waiting
  | exhausted ↦ exhausted
]

abbrev pub ◌>>◌ {ℓ κ} : {A : Type ℓ} {B : Type κ} → M A → M B → M B
m >> k = m >>= λ _. k

abbrev pub return {ℓ} : {A : Type ℓ} → A → M A
return a d = returns a d

-- `print_packet` and `print_packet_filter`: the text itself is left aside.
abbrev pub print_packet : Packet → M (Unit {0})
print_packet p d = returns tt (record d { printed = d.printed ++ (p ∷ []) })

-- `write(fd, p->buf, p->len)` and what `wu_write` makes of its result: a short write counts as
-- success.
unfoldable pub write_text : Packet → Text → List WriteEvent → M (Code × Packet)
write_text p t [] d = waiting
write_text p t (wrote n ∷ rest) d =
    returns (success, record p { buf = t; len = length t })
      (record d { writes = rest; sent = d.sent ++ (take n t ∷ []) })
write_text p t (write_failed ∷ rest) d =
    returns (io_error, record p { buf = t; len = length t }) (record d { writes = rest })

unfoldable pub wu_write : Packet → M (Code × Packet)
unfolding write_text
wu_write p d = elim (format_packet p) [
  | null_field ↦ fault
  | overflow ↦ returns (eoverflow, p) d
  | text t ↦ write_text p t d.writes d
]

-- The bytes of one `read`, parsed.
abbrev pub filled : Packet → Text → Packet
filled p bytes = record p { buf = take wu_strlen bytes; len = length (take wu_strlen bytes) }

abbrev pub after_parse : Status × Packet → M (Code × Packet)
after_parse (parsed, p) = return (success, p)
after_parse (Status.efault, p) = return (efault, p)
after_parse (out_of_bounds, p) = λ d. fault

unfoldable pub read_event : Packet → ReadEvent → M (Code × Packet)
read_event p select_failed = return (io_error, p)
read_event p timed_out = return (etime, p)
read_event p read_failed = return (io_error, p)
read_event p (received bytes) = after_parse (parse_packet (filled p bytes))

unfoldable pub read_from : Packet → List ReadEvent → M (Code × Packet)
read_from p [] d = waiting
read_from p (e ∷ rest) d = read_event p e (record d { reads = rest })

unfoldable pub wu_read : Packet → M (Code × Packet)
unfolding read_from
wu_read p d = read_from p d.reads d
