-- ===== src/RaspPi/Toggle.antt =====
-- rasp-pi-serial/toggle_rts.c and toggle_dtr.c, which take a line of a serial port down and up again,
-- and the change of the line that pulse_rts.c repeats.
use uarch_configure.Common.{
  ℕ, zero, suc, ◌-◌, ◌^◌, Bool, true, false, if◌then◌else◌, List, [], ◌∷◌, ◌++◌, bit_and, bit_or,
}

pub record Attr : Type 0 where
  pub c_cflag : ℕ
  pub c_oflag : ℕ
  pub c_rest : ℕ

-- The port: its settings, the modem lines, and each status that was written. `works n` says whether
-- call `n` of the system succeeds, and `calls` counts them.
pub record Port : Type 0 where
  pub works : ℕ → Bool
  pub calls : ℕ
  pub attr : Attr
  pub status : ℕ
  pub written : List ℕ

pub data Ret : Type 0 where
  success failure : Ret

abbrev pub M {ℓ} : Type ℓ → Type ℓ
M A = Port → A × Port

-- A call that succeeds with `change`, and what follows in both cases.
unfoldable pub call {ℓ} : {A : Type ℓ} → (Port → Port) → M A → M A → M A
call change next fail p =
    let q : Port = record p { calls = suc p.calls } in
    if p.works p.calls then next (change q) else fail q

abbrev pub finish : Ret → M Ret
finish r p = (r, p)

abbrev pub unchanged : Port → Port
unchanged p = p

abbrev pub tiocm_rts : ℕ
tiocm_rts = 4

abbrev pub tiocm_dtr : ℕ
tiocm_dtr = 2

-- `status |= line` or `status &= ~line`, on an `int`.
unfoldable pub new_status : ℕ → Bool → ℕ → ℕ
new_status line value status =
    if value then bit_or status line else bit_and status (2 ^ 32 - 1 - line)

abbrev pub write_status : ℕ → Port → Port
write_status s p = record p { status = s; written = p.written ++ (s ∷ []) }

-- TIOCMGET and TIOCMSET around the change.
unfoldable pub set_line : ℕ → Bool → M Ret
unfolding new_status
set_line line value =
    call unchanged
      (λ p.
        call (write_status (new_status line value p.status)) (finish success) (finish failure) p)
      (finish failure)

abbrev pub set_rts : Bool → M Ret
set_rts = set_line tiocm_rts

abbrev pub set_dtr : Bool → M Ret
set_dtr = set_line tiocm_dtr

abbrev pub set_attr : Attr → Port → Port
set_attr a p = record p { attr = a }

-- `CRTSCTS | CLOCAL`
unfoldable pub flow_attr : Attr → Attr
flow_attr old = record old { c_cflag = bit_or old.c_cflag 0x80000800; c_oflag = 0 }

-- From the changes of the line to the end: what `set` returns is not looked at, and neither is the
-- result of the last `tcsetattr`.
unfoldable pub down_up : (Bool → M Ret) → Attr → M Ret
down_up set old p =
    let (low, q) = set false p in
    let (high, r) = set true q in call (set_attr old) (finish success) (finish success) r

-- From `open` to `tcsetattr`, and then the changes.
unfoldable pub toggle : (Bool → M Ret) → M Ret
unfolding flow_attr down_up
toggle set =
    call unchanged
      (call unchanged
        (λ p.
          call unchanged (call (set_attr (flow_attr p.attr)) (down_up set p.attr) (finish failure))
            (finish failure) p)
        (finish failure))
      (finish failure)

unfoldable pub toggle_rts : M Ret
unfolding toggle
toggle_rts = toggle set_rts

unfoldable pub toggle_dtr : M Ret
unfolding toggle
toggle_dtr = toggle set_dtr

-- `n` rounds of the endless loop of pulse_rts.c.
unfoldable pub pulse : ℕ → Port → Port
pulse zero p = p
pulse (suc n) p = let (low, q) = set_rts false p in let (high, r) = set_rts true q in pulse n r
