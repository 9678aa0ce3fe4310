-- ===== src/Daq/Messages.antt =====
-- sendMessage and flushInputData of mc1208fs-plus/mccdevice.c, and the messages that main of daqflex.c
-- sets the device up with. What the transfers of libusb give is a script.
pub mod Sent
use uarch_configure.Common.{
  ℕ, zero, suc, ◌+◌, ◌-◌, ◌==◌, ltb, if◌then◌else◌, Bool, true, false, Option, none, some, List, [],
  ◌∷◌, ◌++◌, take, replicate,
}
use uarch_configure.Common.Text.{Text, codes, print_int}

-- What comes of a message: the control transfer fails, or the answer does not come, or it comes.
pub data Reply : Type 0 where
  send_failed no_answer : Reply
  answer : Text → Reply

-- `sent` are the 64 bytes of each transfer that was made.
pub record Link : Type 0 where
  pub replies : List Reply
  pub sent : List (List ℕ)

abbrev pub max_message_length : ℕ
max_message_length = 64

-- `data[i] = (i < length) ? message[i] : 0`
abbrev pub padded : ℕ → Text → List ℕ
padded zero message = []
padded (suc n) [] = 0 ∷ padded n []
padded (suc n) (c ∷ message) = c ∷ padded n message

-- `sendMessage`: the answer, `none` for `NULL`; the script has no more replies where it is empty, which
-- counts as a transfer that fails.
unfoldable pub send_message : Text → Link → Option Text × Link
send_message message l = elim l.replies [
  | [] ↦ (none, l)
  | reply ∷ rest ↦ elim reply [
    | send_failed ↦ (none, record l { replies = rest })
    | no_answer ↦
        (none, record { replies = rest; sent = l.sent ++ (padded max_message_length message ∷ []) })
    | answer t ↦ (
      some t,
      record { replies = rest; sent = l.sent ++ (padded max_message_length message ∷ []) },
    )
  ]
]

-- Messages in a row, whose answers are not looked at.
unfoldable pub send_all : List Text → Link → Link
send_all [] l = l
send_all (m ∷ ms) l = send_all ms (send_message m l).1

unfoldable pub slope_message : ℕ → Text
slope_message channel = codes "?AI{" ++ (print_int channel ++ codes "}:SLOPE")

unfoldable pub offset_message : ℕ → Text
offset_message channel = codes "?AI{" ++ (print_int channel ++ codes "}:OFFSET")

-- `fillCalConstants` from a channel on, for the rounds that are left; `none` where `calSlope` is written
-- behind its 16 elements.
unfoldable pub fill_cal_constants : ℕ → ℕ → Link → Option Link
fill_cal_constants zero channel l = some l
fill_cal_constants (suc rounds) channel l =
    let more =
      fill_cal_constants rounds (suc channel)
        (send_all (slope_message channel ∷ offset_message channel ∷ []) l) in
    if ltb channel 16 then more else none

-- The messages before the constants are asked for.
unfoldable pub setup_messages : Bool → ℕ → ℕ → List Text
setup_messages single_ended high_channel rate =
    codes "AISCAN:STOP"
    ∷ codes "?AI:RES"
    ∷ codes "AISCAN:XFRMODE=BLOCKIO"
    ∷ (if single_ended then codes "AI:CHMODE=SE" else codes "AI:CHMODE=DIFF")
    ∷ (if single_ended then codes "AISCAN:RANGE=BIP10V" else codes "AISCAN:RANGE=BIP5V")
    ∷ (codes "AISCAN:LOWCHAN=" ++ print_int 0)
    ∷ (codes "AISCAN:HIGHCHAN=" ++ print_int high_channel)
    ∷ (codes "AISCAN:RATE=" ++ print_int rate)
    ∷ codes "?AISCAN:RATE"
    ∷ codes "AISCAN:SAMPLES=0"
    ∷ []

-- From the flushed device to the start of the scan.
unfoldable pub configure : Bool → ℕ → ℕ → Link → Option Link
configure single_ended high_channel rate l =
    elim (fill_cal_constants (suc high_channel) 0
      (send_all (setup_messages single_ended high_channel rate) l)) [
        | none ↦ none
        | some m ↦ some (send_all (codes "AISCAN:START" ∷ []) m)
      ]

-- `flushInputData` over what the bulk transfers give, as status and number of bytes: what is left of the
-- script, `none` where it has no more.
unfoldable pub flush_input_data : List (ℕ × ℕ) → Option (List (ℕ × ℕ))
flush_input_data [] = none
flush_input_data ((status, bytes) ∷ rest) =
    let more = flush_input_data rest in
    if ltb 0 bytes then (if status == 0 then more else some rest) else some rest
