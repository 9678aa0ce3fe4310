-- ===== src/Wattsup/Reading.antt =====
-- How the reading loop of wattsup/wattsup.c ends: with the records that were asked for, or after
-- the third bad record in a row.
use uarch_configure.Common.{ℕ, zero, suc, ◌+◌, ◌≤◌, ◌≡◌, ◌≢◌, refl, arith, Bool, true}
use uarch_configure.Common.{
  ltb, ◌==◌, if◌then◌else◌, List, [], ◌∷◌, ◌++◌, append_assoc, length, All,
}
use uarch_configure.Common.Text.{Text}
use uarch_configure.Wattsup.{Packet, Code, success, etime}
use uarch_configure.Wattsup.Parse.{parsed, parse_packet}
use uarch_configure.Wattsup.Device.{
  ReadEvent, timed_out, received, Device, returns, ◌>>=◌, filled, read_event, wu_read,
}
use uarch_configure.Wattsup.Commands.{failed}
use uarch_configure.Wattsup.ReadData.{reset, read_data_loop, wu_read_data}

-- The bytes of one `read` make this packet, whatever the packet held before.
abbrev pub ReadsAs : Text → Packet → Type 0
ReadsAs bytes p = (q : Packet) → parse_packet (filled q bytes) ≡ (parsed, p)

abbrev pub events : List (Text × Packet) → List ReadEvent
events [] = []
events ((bytes, p) ∷ rs) = received bytes ∷ events rs

abbrev pub packets : List (Text × Packet) → List Packet
packets [] = []
packets ((bytes, p) ∷ rs) = p ∷ packets rs

wu_read_good :
    (q : Packet) (d : Device) {bytes : Text} {p : Packet} {rest : List ReadEvent}
    → ReadsAs bytes p
    → d.reads ≡ received bytes ∷ rest
    → wu_read q d ≡ returns (success, p) (record d { reads = rest })
unfolding wu_read read_event
wu_read_good q d h e = rw (e, wu_read) (rw (h q))

-- One round of the loop, by what `wu_read` gave.
round_good :
    (fuel : ℕ) (fin : Bool) (count : ℕ) (q : Packet) (retry i : ℕ) (d : Device) {p : Packet}
    {d' : Device}
    → wu_read q d ≡ returns (success, p) d'
    → count ≢ 0
    → read_data_loop (suc fuel) fin count q retry i d ≡ (
        if i + 1 == count
        then returns tt (record d' { printed = d'.printed ++ (p ∷ []) })
        else read_data_loop fuel fin count p 0
            (i + 1)
            (record d' { printed = d'.printed ++ (p ∷ []) }))
unfolding read_data_loop
round_good fuel fin count q retry i d e h = ground arith

read_loop_good :
    (rs : List (Text × Packet)) (fuel : ℕ) (fin : Bool) (count : ℕ) (q : Packet) (retry i : ℕ)
    (d : Device) (rest : List ReadEvent)
    → All (λ r. ReadsAs r.0 r.1) rs
    → 1 ≤ length rs
    → i + length rs ≡ count
    → length rs ≤ fuel
    → d.reads ≡ events rs ++ rest
    → read_data_loop fuel fin count q retry i d
      ≡ returns tt (record d { reads = rest; printed = d.printed ++ packets rs })
read_loop_good rs zero fin count q retry i d rest h one c f e = absurd (omega arith)
read_loop_good [] (suc fuel) fin count q retry i d rest h one c f e = absurd (omega arith)
read_loop_good ((bytes, p) ∷ []) (suc fuel) fin count q retry i d rest h one c f e =
    ground (arith, round_good fuel fin count q retry i d (wu_read_good q d h.0 e))
read_loop_good ((bytes, p) ∷ r ∷ rs) (suc fuel) fin count q retry i d rest h one c f e = ground (
  arith,
  round_good fuel fin count q retry i d (wu_read_good q d h.0 e),
  read_loop_good (r ∷ rs) fuel fin count p 0 (i + 1)
      (record d { reads = events (r ∷ rs) ++ rest; printed = d.printed ++ (p ∷ []) }) rest h.1
      (omega arith) (omega arith) (omega arith) refl,
  append_assoc d.printed (p ∷ []) (packets (r ∷ rs)),
)

-- Good records and a count of them: the loop prints exactly these, in order, sends nothing, and
-- returns with the rest of the input unread. One round for each record is enough.
pub wu_read_data_counts :
    (rs : List (Text × Packet)) (fuel : ℕ) (fin : Bool) (d : Device) (rest : List ReadEvent)
    → All (λ r. ReadsAs r.0 r.1) rs
    → 1 ≤ length rs
    → length rs ≤ fuel
    → d.reads ≡ events rs ++ rest
    → wu_read_data fuel fin (length rs) d
      ≡ returns tt (record d { reads = rest; printed = d.printed ++ packets rs })
unfolding wu_read_data
wu_read_data_counts rs fuel fin d rest h one f e =
    read_loop_good rs fuel fin (length rs) _ 0 0 d rest h one (omega arith) f e

-- An event that gives no record: whatever packet and device it meets, `wu_read` reports an error.
abbrev pub IsBad : ReadEvent → Type 0
IsBad e =
    (q : Packet) (d : Device)
    → (r : Code × Packet) × (failed r.0 ≡ true) × (read_event q e d ≡ returns r d)

pub timed_out-IsBad : IsBad timed_out
unfolding read_event
timed_out-IsBad q d = ((etime, q), refl, refl)

pub wu_read_bad :
    (q : Packet) (d : Device) {e : ReadEvent} {rest : List ReadEvent}
    → IsBad e
    → d.reads ≡ e ∷ rest
    → (r : Code × Packet) × (failed r.0 ≡ true)
      × (wu_read q d ≡ returns r (record d { reads = rest }))
unfolding wu_read
wu_read_bad q d {e} {rest} bad h =
    let (r, f, run) = bad q (record d { reads = rest }) in (r, f, ground arith)

pub round_bad :
    (fuel : ℕ) (fin : Bool) (count : ℕ) (q : Packet) (retry i : ℕ) (d : Device) {r : Code × Packet}
    {d' : Device}
    → wu_read q d ≡ returns r d'
    → failed r.0 ≡ true
    → read_data_loop (suc fuel) fin count q retry i d ≡ (
        if ltb (retry + 1) 2
        then read_data_loop fuel fin count r.1 (retry + 1) i d'
        else if retry + 1 == 2
        then (reset fin >>= λ _. read_data_loop fuel fin count r.1 (retry + 1) i) d'
        else returns tt d')
unfolding read_data_loop
round_bad fuel fin count q retry i d e h = ground arith
