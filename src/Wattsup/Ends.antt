-- ===== src/Wattsup/Ends.antt =====
-- The reading loop of wattsup/wattsup.c takes an event of the input in each round: on a finite
-- input it ends, or waits for more, and the fuel of the model never decides.
use uarch_configure.Common.{ℕ, zero, suc, ◌+◌, ◌≤◌, ◌<◌, ◌≢◌, arith, Bool, true, false}
use uarch_configure.Common.{
  ltb, ◌==◌, if◌then◌else◌, Bool-cases, List, [], ◌∷◌, length, inl, inr, not, ◌||◌, ◌&&◌, ◌++◌,
}
use uarch_configure.Wattsup.{Packet, Code, eoverflow}
use uarch_configure.Wattsup.Format.{Formatted, text, overflow, null_field, format_packet}
use uarch_configure.Wattsup.Parse.{Status, parsed, out_of_bounds, parse_packet}
use uarch_configure.Wattsup.Device.{
  ReadEvent, WriteEvent, wrote, write_failed, select_failed, timed_out, read_failed, received,
  Device, Outcome, returns, fault, waiting, exhausted, M, ◌>>=◌, ◌>>◌, return, print_packet, filled,
  read_from, after_parse, wu_read, wu_write, write_text, read_event,
}
use uarch_configure.Wattsup.Commands.{
  packet, failed, wu_stop_log, wu_clear, wu_start_log, start_fields,
}
use uarch_configure.Wattsup.ReadData.{reset, wu_max_retry, read_data_loop, wu_read_data}

-- The outcome is no want of fuel, and fewer than `n` read events are left.
abbrev pub Leaves {ℓ} : {A : Type ℓ} → ℕ → Outcome A → Type 0
Leaves n (returns a d) = length d.reads < n
Leaves n fault = Unit
Leaves n waiting = Unit
Leaves n exhausted = ⊥

pub Leaves-then {ℓ κ} :
    {A : Type ℓ} {B : Type κ} (n k : ℕ) (o : Outcome A) (f : A → M B)
    → Leaves n o
    → ((a : A) (d : Device) → length d.reads < n → Leaves k (f a d))
    → Leaves k
        (elim o [ returns a d ↦ f a d | fault ↦ fault | waiting ↦ waiting | exhausted ↦ exhausted ])
Leaves-then n k (returns a d) f h g = g a d h
Leaves-then n k fault f h g = tt
Leaves-then n k waiting f h g = tt
Leaves-then n k exhausted f h g = absurd h

after_parse-Leaves :
    (d : Device) (n : ℕ) (r : Status × Packet) → length d.reads < n → Leaves n (after_parse r d)
after_parse-Leaves d n (parsed, p) h = h
after_parse-Leaves d n (Status.efault, p) h = h
after_parse-Leaves d n (out_of_bounds, p) h = tt

read_event-Leaves :
    (q : Packet) (e : ReadEvent) (d : Device) → Leaves (suc (length d.reads)) (read_event q e d)
unfolding read_event
read_event-Leaves q select_failed d = omega arith
read_event-Leaves q timed_out d = omega arith
read_event-Leaves q read_failed d = omega arith
read_event-Leaves q (received b) d =
    after_parse-Leaves d (suc (length d.reads)) (parse_packet (filled q b)) (omega arith)

-- A read takes an event.
pub wu_read-Leaves : (q : Packet) (d : Device) → Leaves (length d.reads) (wu_read q d)
unfolding wu_read
wu_read-Leaves q d = go d.reads
  where
    go : (rs : List ReadEvent) → Leaves (length rs) (read_from q rs d)
    go [] = tt
    go (e ∷ rest) = read_event-Leaves q e (record d { reads = rest })

write_text-Leaves :
    (p : Packet) (t : List ℕ) (ws : List WriteEvent) (d : Device)
    → Leaves (suc (length d.reads)) (write_text p t ws d)
unfolding write_text
write_text-Leaves p t [] d = tt
write_text-Leaves p t (wrote n ∷ ws) d = omega arith
write_text-Leaves p t (write_failed ∷ ws) d = omega arith

pub wu_write-Leaves : (p : Packet) (d : Device) → Leaves (suc (length d.reads)) (wu_write p d)
unfolding wu_write
wu_write-Leaves p d = go (format_packet p)
  where
    go :
        (f : Formatted)
        → Leaves (suc (length d.reads)) (elim f [
          | null_field ↦ fault
          | overflow ↦ returns (eoverflow, p) d
          | text t ↦ write_text p t d.writes d
        ])
    go null_field = tt
    go overflow = omega arith
    go (text t) = write_text-Leaves p t d.writes d

-- What a command does after its write: whatever it reads, it takes no more than there is.
module _ (d : Device) where
  abbrev bound : ℕ
  bound = suc (length d.reads)

  log_read-Leaves :
      (r : Code × Packet) (fin : Bool) (d₁ : Device)
      → length d₁.reads < bound
      → Leaves bound (
          (do
            (ret', p') ← wu_read r.1
            if failed ret' || not fin then return ret' else do print_packet p'; return ret')
            d₁)
  log_read-Leaves r fin d₁ h =
      Leaves-then (length d₁.reads) _ (wu_read r.1 d₁) _ (wu_read-Leaves r.1 d₁)
        λ r' d₂ h'. after_read r' d₂ (failed r'.0 || not fin) (omega arith)
    where
      after_read :
          (r : Code × Packet) (d₂ : Device) (b : Bool)
          → length d₂.reads < bound
          → Leaves bound ((if b then return r.0 else do print_packet r.1; return r.0) d₂)
      after_read r d₂ true h = h
      after_read r d₂ false h = h

  pub stop_log-Leaves : (fin : Bool) → Leaves bound (wu_stop_log fin d)
  unfolding wu_stop_log
  stop_log-Leaves fin =
      Leaves-then bound _ (wu_write (packet b'L' b'R' [] 0) d) _ (wu_write-Leaves _ d)
        λ r d₁ h. after_write r d₁ h (failed r.0)
    where
      after_write :
          (r : Code × Packet) (d₁ : Device)
          → length d₁.reads < bound
          → (b : Bool)
          → Leaves bound (
              (if b then return r.0 else do
                (ret', p') ← wu_read r.1
                if failed ret' || not fin then return ret' else do print_packet p'; return ret')
                d₁)
      after_write r d₁ h true = h
      after_write r d₁ h false = log_read-Leaves r fin d₁ h

  pub clear-Leaves : Leaves bound (wu_clear d)
  unfolding wu_clear
  clear-Leaves =
      Leaves-then bound _ (wu_write (packet b'R' b'W' [] 0) d) _ (wu_write-Leaves _ d) λ r d₁ h.
        Leaves-then (length d₁.reads) _ (wu_read r.1 d₁) _ (wu_read-Leaves r.1 d₁)
          λ r' d₂ h'. omega arith

  pub start_log-Leaves : Leaves bound (wu_start_log d)
  unfolding wu_start_log
  start_log-Leaves =
      Leaves-then bound _ (wu_write (packet b'L' b'W' start_fields 3) d) _ (wu_write-Leaves _ d)
        λ r d₁ h. h

pub Leaves-le {ℓ} : {A : Type ℓ} (n k : ℕ) (o : Outcome A) → n ≤ k → Leaves n o → Leaves k o
Leaves-le n k (returns a d) h l = omega arith
Leaves-le n k fault h l = tt
Leaves-le n k waiting h l = tt
Leaves-le n k exhausted h l = absurd l

reset-Leaves : (fin : Bool) (d : Device) → Leaves (suc (length d.reads)) (reset fin d)
unfolding reset
reset-Leaves fin d = Leaves-then _ _ (wu_stop_log fin d) _ (stop_log-Leaves d fin) λ _ d₁ h₁.
    Leaves-then _ _ (wu_clear d₁) _ (clear-Leaves d₁)
      λ _ d₂ h₂. Leaves-then _ _ (wu_start_log d₂) _ (start_log-Leaves d₂) λ _ d₃ h₃. omega arith

pub loop-Leaves :
    (fuel : ℕ) (fin : Bool) (count : ℕ) (q : Packet) (retry i : ℕ) (d : Device)
    → length d.reads < fuel
    → Leaves (suc (length d.reads)) (read_data_loop fuel fin count q retry i d)
unfolding read_data_loop
loop-Leaves zero fin count q retry i d h = absurd (omega arith)
loop-Leaves (suc fuel) fin count q retry i d h =
    Leaves-then (length d.reads) _ (wu_read q d) _ (wu_read-Leaves q d) λ r d₁ h₁.
      elim (Bool-cases (failed r.0)) [
        | inr good ↦
            rw good
              (elim (Bool-cases (not (count == 0) && (if count == 0 then i else i + 1) == count)) [
                | inl stop ↦ rw stop (omega arith)
                | inr more ↦ rw more (
                    Leaves-le _ _ _ (omega arith) (
                      loop-Leaves fuel fin count r.1 0 (if count == 0 then i else i + 1)
                        (record d₁ { printed = d₁.printed ++ (r.1 ∷ []) }) (omega arith)))
              ])
        | inl bad ↦ rw bad (elim (Bool-cases (ltb (retry + 1) wu_max_retry)) [
          | inl again ↦ rw again (
              Leaves-le _ _ _ (omega arith)
                (loop-Leaves fuel fin count r.1 (retry + 1) i d₁ (omega arith)))
          | inr spent ↦ rw spent (elim (Bool-cases (retry + 1 == wu_max_retry)) [
            | inl last ↦ rw last (
                Leaves-then _ _ (reset fin d₁) _ (reset-Leaves fin d₁) λ _ d₂ h₂.
                  Leaves-le _ _ _ (omega arith)
                    (loop-Leaves fuel fin count r.1 (retry + 1) i d₂ (omega arith)))
            | inr over ↦ rw over (omega arith)
          ])
        ])
      ]

pub Leaves-ne-exhausted {ℓ} : {A : Type ℓ} (n : ℕ) (o : Outcome A) → Leaves n o → o ≢ exhausted
Leaves-ne-exhausted n (returns a d) h = λ e. cc
Leaves-ne-exhausted n fault h = λ e. cc
Leaves-ne-exhausted n waiting h = λ e. cc
Leaves-ne-exhausted n exhausted h = absurd h

-- With more fuel than there are events to read, `wu_read_data` does not run out of fuel: it
-- returns, waits for input, or faults.
pub wu_read_data_ends :
    (fuel : ℕ) (fin : Bool) (count : ℕ) (d : Device)
    → length d.reads < fuel
    → wu_read_data fuel fin count d ≢ exhausted
unfolding wu_read_data
wu_read_data_ends fuel fin count d h =
    Leaves-ne-exhausted _ _ (loop-Leaves fuel fin count (packet 0 0 [] 0) 0 0 d h)
