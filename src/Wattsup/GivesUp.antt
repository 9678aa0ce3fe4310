-- ===== src/Wattsup/GivesUp.antt =====
-- The reading loop of wattsup/wattsup.c on a meter that answers nothing: it retries, resets the
-- meter once and gives up. And it always ends: each round takes an event.
use uarch_configure.Common.{ℕ, suc, ◌≡◌, refl, arith, Bool}
use uarch_configure.Common.{List, [], ◌∷◌, ◌++◌, append_assoc, take, length}
use uarch_configure.Common.Text.{Text, print_int}
use uarch_configure.Wattsup.{Packet, Code, success}
use uarch_configure.Wattsup.Format.{text, format_packet, format_fields, format_head}
use uarch_configure.Wattsup.Device.{ReadEvent, WriteEvent, wrote, Device, returns, wu_write}
use uarch_configure.Wattsup.Commands.{packet, wu_stop_log, wu_clear, wu_start_log, start_fields}
use uarch_configure.Wattsup.ReadData.{reset, wu_read_data}
use uarch_configure.Wattsup.Reading.{IsBad, wu_read_bad, round_bad}

pub wu_write_wrote :
    (p : Packet) (d : Device) {t : Text} {n : ℕ} {ws : List WriteEvent}
    → format_packet p ≡ text t
    → d.writes ≡ wrote n ∷ ws
    → wu_write p d
      ≡ returns
          (success, record p { buf = t; len = length t })
          (record d { writes = ws; sent = d.sent ++ (take n t ∷ []) })
unfolding wu_write
wu_write_wrote p d e w = ground arith

-- `#L,R,0;`, `#R,W,0;` and `#L,W,3,E,1,1;`
abbrev pub stop_text : Text
stop_text = b'#' ∷ b'L' ∷ b',' ∷ b'R' ∷ b',' ∷ b'0' ∷ b';' ∷ []

abbrev pub clear_text : Text
clear_text = b'#' ∷ b'R' ∷ b',' ∷ b'W' ∷ b',' ∷ b'0' ∷ b';' ∷ []

abbrev pub start_text : Text
start_text =
    b'#' ∷ b'L' ∷ b',' ∷ b'W' ∷ b',' ∷ b'3' ∷ b',' ∷ b'E' ∷ b',' ∷ b'1' ∷ b',' ∷ b'1' ∷ b';' ∷ []

stop_format : format_packet (packet b'L' b'R' [] 0) ≡ text stop_text
unfolding format_packet format_head format_fields print_int
stop_format = refl

clear_format : format_packet (packet b'R' b'W' [] 0) ≡ text clear_text
unfolding format_packet format_head format_fields print_int
clear_format = refl

start_format : format_packet (packet b'L' b'W' start_fields 3) ≡ text start_text
unfolding format_packet format_head format_fields print_int
start_format = refl

module _ (fin : Bool) (d : Device) {n : ℕ} {ws : List WriteEvent} where
  start_log_lem :
      d.writes ≡ wrote n ∷ ws
      → wu_start_log d
        ≡ returns success (record d { writes = ws; sent = d.sent ++ (take n start_text ∷ []) })
  unfolding wu_start_log
  start_log_lem w = ground (arith, wu_write_wrote _ d start_format w)

  stop_log_bad :
      {e : ReadEvent} {rest : List ReadEvent}
      → IsBad e
      → d.reads ≡ e ∷ rest
      → d.writes ≡ wrote n ∷ ws
      → (c : Code) × (wu_stop_log fin d
          ≡ returns c
              (record d { reads = rest; writes = ws; sent = d.sent ++ (take n stop_text ∷ []) }))
  unfolding wu_stop_log
  stop_log_bad bad h w =
      let (r, f, run) =
        wu_read_bad (record (packet b'L' b'R' [] 0) { buf = stop_text; len = 7 })
          (record d { writes = ws; sent = d.sent ++ (take n stop_text ∷ []) }) bad h in
      (r.0, ground (arith, wu_write_wrote _ d stop_format w, run, f))

  clear_bad :
      {e : ReadEvent} {rest : List ReadEvent}
      → IsBad e
      → d.reads ≡ e ∷ rest
      → d.writes ≡ wrote n ∷ ws
      → wu_clear d
        ≡ returns success
            (record d { reads = rest; writes = ws; sent = d.sent ++ (take n clear_text ∷ []) })
  unfolding wu_clear
  clear_bad bad h w =
      let (r, f, run) =
        wu_read_bad (record (packet b'R' b'W' [] 0) { buf = clear_text; len = 7 })
          (record d { writes = ws; sent = d.sent ++ (take n clear_text ∷ []) }) bad h in
      ground (arith, wu_write_wrote _ d clear_format w, run)

reset_bad :
    (fin : Bool) (d : Device) {a b c : ℕ} {e₁ e₂ : ReadEvent} {rest : List ReadEvent}
    {ws : List WriteEvent}
    → IsBad e₁
    → IsBad e₂
    → d.reads ≡ e₁ ∷ e₂ ∷ rest
    → d.writes ≡ wrote a ∷ wrote b ∷ wrote c ∷ ws
    → reset fin d
      ≡ returns tt (record d {
        reads = rest;
        writes = ws;
        sent = d.sent ++ (take a stop_text ∷ take b clear_text ∷ take c start_text ∷ []);
      })
unfolding reset
reset_bad fin d {a} {b} {c} {e₁} {e₂} {rest} {ws} h₁ h₂ hr hw =
    let (_, stop) = stop_log_bad fin d h₁ hr hw in
    let d₁ : Device = record d {
      reads = e₂ ∷ rest;
      writes = wrote b ∷ wrote c ∷ ws;
      sent = d.sent ++ (take a stop_text ∷ []);
    } in
    let d₂ : Device = record d₁ {
      reads = rest;
      writes = wrote c ∷ ws;
      sent = d₁.sent ++ (take b clear_text ∷ []);
    } in
    ground (
      arith,
      stop,
      clear_bad fin d₁ {ws = wrote c ∷ ws} h₂ refl refl,
      start_log_lem fin d₂ {ws = ws} refl,
      append_assoc d.sent (take a stop_text ∷ []) (take b clear_text ∷ []),
      append_assoc d.sent (take a stop_text ∷ take b clear_text ∷ []) (take c start_text ∷ []),
    )

-- A meter from which no read brings a record: after the second bad one the program stops the log,
-- clears the memory and starts the log again, and after the third it gives up. It has then taken
-- five reads, printed nothing, and sent these three commands.
pub wu_read_data_gives_up :
    (fuel : ℕ) (fin : Bool) (count : ℕ) (d : Device) (e₁ e₂ e₃ e₄ e₅ : ReadEvent)
    (rest : List ReadEvent) (a b c : ℕ) (ws : List WriteEvent)
    → IsBad e₁ × IsBad e₂ × IsBad e₃ × IsBad e₄ × IsBad e₅
    → d.reads ≡ e₁ ∷ e₂ ∷ e₃ ∷ e₄ ∷ e₅ ∷ rest
    → d.writes ≡ wrote a ∷ wrote b ∷ wrote c ∷ ws
    → wu_read_data (suc (suc (suc fuel))) fin count d
      ≡ returns tt (record d {
        reads = rest;
        writes = ws;
        sent = d.sent ++ (take a stop_text ∷ take b clear_text ∷ take c start_text ∷ []);
      })
unfolding wu_read_data
wu_read_data_gives_up fuel fin count d e₁ e₂ e₃ e₄ e₅ rest a b c ws (h₁, h₂, h₃, h₄, h₅) hr hw =
    let q : Packet = packet 0 0 [] 0 in
    let d₁ : Device = record d { reads = e₂ ∷ e₃ ∷ e₄ ∷ e₅ ∷ rest } in
    let d₂ : Device = record d { reads = e₃ ∷ e₄ ∷ e₅ ∷ rest } in
    let d₃ : Device = record d {
      reads = e₅ ∷ rest;
      writes = ws;
      sent = d.sent ++ (take a stop_text ∷ take b clear_text ∷ take c start_text ∷ []);
    } in
    let (r₁, f₁, run₁) = wu_read_bad q d h₁ hr in
    let (r₂, f₂, run₂) = wu_read_bad r₁.1 d₁ h₂ refl in
    let (r₃, f₃, run₃) = wu_read_bad r₂.1 d₃ h₅ refl in
    ground (
      arith,
      round_bad (suc (suc fuel)) fin count q 0 0 d run₁ f₁,
      round_bad (suc fuel) fin count r₁.1 1 0 d₁ run₂ f₂,
      reset_bad fin d₂ h₃ h₄ refl hw,
      round_bad fuel fin count r₂.1 2 0 d₃ run₃ f₃,
    )
