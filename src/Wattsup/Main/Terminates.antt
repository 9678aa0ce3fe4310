-- ===== src/Wattsup/Main/Terminates.antt =====
-- `main` of wattsup/wattsup.c ends on a finite input, or waits for more.
use uarch_configure.Common.{
  ℕ, suc, ◌<◌, ◌≢◌, ◌≡◌, refl, subst, sym, arith, Bool, true, false, Option, none, some, List, [],
  ◌∷◌, length, if◌then◌else◌,
}
use uarch_configure.Common.Text.{Text}
use uarch_configure.Common.Strtol.{strtol, strtoul}
use uarch_configure.Wattsup.{Packet, Code, success, einval}
use uarch_configure.Wattsup.Device.{
  Device, fault, exhausted, M, ◌>>=◌, return, print_packet, wu_read, wu_write,
}
use uarch_configure.Wattsup.Commands.{
  packet, failed, request, wu_show_cal, wu_show_header, wu_show_interval, wu_show_mode,
  wu_show_user, wu_clear, wu_start_log, wu_stop_log,
}
use uarch_configure.Wattsup.ReadData.{wu_read_data}
use uarch_configure.Wattsup.Ends.{
  Leaves, Leaves-then, Leaves-le, Leaves-ne-exhausted, wu_read-Leaves, wu_write-Leaves, loop-Leaves,
  stop_log-Leaves, clear-Leaves, start_log-Leaves,
}
use uarch_configure.Wattsup.Settings.{
  if_whole, wu_write_interval, wu_write_mode, wu_write_user, wu_store_interval, wu_store_mode,
  wu_store_user, with_parameter, next_parameter, skip_to_digit,
}
use uarch_configure.Wattsup.Options.{WuOption, wu_option_value}
use uarch_configure.Wattsup.Main.{
  Place, final, calibrate, header, interval, mode, user, show_all, no_data, set_only, is_set, index,
  wu_check_store, wu_check_show, count_option, or_close, store_interval, show_info, take_data,
  wu_main,
}

-- A step that takes no more read events than there are, and does not run out of fuel for up to
-- `n` of them.
Keeps {ℓ} : {A : Type ℓ} → ℕ → M A → Type 0
Keeps n m = (d : Device) → length d.reads < n → Leaves (suc (length d.reads)) (m d)

module _ (n : ℕ) where
  Keeps-then {ℓ κ} :
      {A : Type ℓ} {B : Type κ} (m : M A) (f : A → M B)
      → Keeps n m
      → ((a : A) → Keeps n (f a))
      → Keeps n (m >>= f)
  unfolding Keeps
  Keeps-then m f h g d l =
      Leaves-then (suc (length d.reads)) _ (m d) f (h d l)
        λ a d₁ h₁. Leaves-le _ _ (f a d₁) (omega arith) (g a d₁ (omega arith))

  return-Keeps {ℓ} : {A : Type ℓ} (a : A) → Keeps n (return a)
  unfolding Keeps
  return-Keeps a d l = omega arith

  if-Keeps {ℓ} :
      {A : Type ℓ} (b : Bool) (m k : M A) → Keeps n m → Keeps n k → Keeps n (if b then m else k)
  if-Keeps true m k h g = h
  if-Keeps false m k h g = g

  fault-Keeps {ℓ} : {A : Type ℓ} (m : M A) → ((d : Device) → m d ≡ fault) → Keeps n m
  unfolding Keeps
  fault-Keeps m h d l = subst (Leaves (suc (length d.reads))) (sym (h d)) tt

  write-Keeps : (p : Packet) → Keeps n (wu_write p)
  unfolding Keeps
  write-Keeps p d l = wu_write-Leaves p d

  read-Keeps : (p : Packet) → Keeps n (wu_read p)
  unfolding Keeps
  read-Keeps p d l = Leaves-le _ _ (wu_read p d) (omega arith) (wu_read-Leaves p d)

  print-Keeps : (p : Packet) → Keeps n (print_packet p)
  unfolding Keeps
  print-Keeps p d l = omega arith

  stop_log-Keeps : (fin : Bool) → Keeps n (wu_stop_log fin)
  unfolding Keeps
  stop_log-Keeps fin d l = stop_log-Leaves d fin

  clear-Keeps : Keeps n wu_clear
  unfolding Keeps
  clear-Keeps d l = clear-Leaves d

  start_log-Keeps : Keeps n wu_start_log
  unfolding Keeps
  start_log-Keeps d l = start_log-Leaves d

  read_data-Keeps : (fin : Bool) (c : ℕ) → Keeps n (wu_read_data n fin c)
  unfolding Keeps wu_read_data
  read_data-Keeps fin c d l = loop-Leaves n fin c (packet 0 0 [] 0) 0 0 d l

  request-Keeps : (cmd : ℕ) → Keeps n (request cmd)
  unfolding request
  request-Keeps cmd = Keeps-then _ _ (write-Keeps _) λ r.
      if-Keeps (failed r.0) _ _ (return-Keeps _) (
        Keeps-then _ _ (read-Keeps r.1) λ r'.
          if-Keeps (failed r'.0) _ _ (return-Keeps _)
            (Keeps-then _ _ (print-Keeps r'.1) λ _. return-Keeps success))

  show_mode-Keeps : Keeps n wu_show_mode
  unfolding wu_show_mode
  show_mode-Keeps = Keeps-then _ _ (write-Keeps _) λ r.
      if-Keeps (failed r.0) _ _ (return-Keeps _)
        (Keeps-then _ _ (read-Keeps r.1) λ r'. return-Keeps _)

  write_interval-Keeps : (s i : ℕ) → Keeps n (wu_write_interval s i)
  unfolding wu_write_interval
  write_interval-Keeps s i =
      Keeps-then _ _ (write-Keeps _)
        λ r. if-Keeps (failed r.0) _ _ (return-Keeps _) (return-Keeps _)

  if_whole-Keeps {ℓ} :
      {A : Type ℓ} (r : ℕ × Text) (k : ℕ → M A) (bad : M A)
      → ((m : ℕ) → Keeps n (k m))
      → Keeps n bad
      → Keeps n (if_whole r k bad)
  unfolding if_whole
  if_whole-Keeps (m, []) k bad h g = h m
  if_whole-Keeps (m, c ∷ rest) k bad h g = g

  store_interval-Keeps : (value : Option Text) → Keeps n (wu_store_interval value)
  unfolding wu_store_interval
  store_interval-Keeps none = fault-Keeps _ (λ d. refl)
  store_interval-Keeps (some s) =
      if_whole-Keeps (strtol s) _ _
        (λ m. Keeps-then _ _ (write_interval-Keeps 1 m) λ ret. return-Keeps _) (return-Keeps _)

  store_mode-Keeps : (value : Option Text) → Keeps n (wu_store_mode value)
  unfolding wu_store_mode wu_write_mode
  store_mode-Keeps none = fault-Keeps _ (λ d. refl)
  store_mode-Keeps (some s) =
      if_whole-Keeps (strtol s) _ _ (λ m. Keeps-then _ _ (write-Keeps _) λ r. return-Keeps _)
        (return-Keeps _)

  next_parameter-Keeps : (s : Text) → Keeps n (next_parameter s)
  unfolding next_parameter
  next_parameter-Keeps s = after (strtoul s)
    where
      searched :
          (m : ℕ) (o : Option Text)
          → Keeps {A = Option (ℕ × Text)} n
              (elim o [ none ↦ λ d. fault | some s' ↦ return (some (m, s')) ])
      searched m none = fault-Keeps _ (λ d. refl)
      searched m (some s') = return-Keeps (some (m, s'))

      after :
          (o : Option (ℕ × Text))
          → Keeps {A = Option (ℕ × Text)} n (elim o [
            | none ↦ return none
            | some (m, next) ↦ elim (skip_to_digit next) [
              | none ↦ λ d. fault
              | some s' ↦ return (some (m, s'))
            ]
          ])
      after none = return-Keeps none
      after (some (m, next)) = searched m (skip_to_digit next)

  with_parameter-Keeps :
      (s : Text) (k : ℕ → Text → M Code)
      → ((m : ℕ) (s' : Text) → Keeps n (k m s'))
      → Keeps n (with_parameter s k)
  unfolding with_parameter
  with_parameter-Keeps s k h = Keeps-then _ _ (next_parameter-Keeps s) after
    where
      after :
          (r : Option (ℕ × Text))
          → Keeps n (elim r [ none ↦ return einval | some (m, s') ↦ k m s' ])
      after none = return-Keeps einval
      after (some (m, s')) = h m s'

  store_user-Keeps : (value : Option Text) → Keeps n (wu_store_user value)
  unfolding wu_store_user wu_write_user
  store_user-Keeps none = return-Keeps einval
  store_user-Keeps (some buf) = with_parameter-Keeps buf _ λ a s₁. with_parameter-Keeps s₁ _ λ b s₂.
      with_parameter-Keeps s₂ _
        λ c s₃. with_parameter-Keeps s₃ _ λ e s₄. Keeps-then _ _ (write-Keeps _) λ r. return-Keeps _

  check-Keeps :
      (place : Place) (os : List WuOption) (m : M Code)
      → Keeps n m
      → Keeps n (wu_check_store place os m)
  unfolding wu_check_store
  check-Keeps place os m h = if-Keeps (is_set place os) _ _ h (return-Keeps success)

  check_show-Keeps :
      (place : Place) (os : List WuOption) (m : M Code)
      → Keeps n m
      → Keeps n (wu_check_show place os m)
  unfolding wu_check_show
  check_show-Keeps place os m h = if-Keeps (is_set place os) _ _ h (return-Keeps success)

  or_close-Keeps : (m k : M Code) → Keeps n m → Keeps n k → Keeps n (or_close m k)
  unfolding or_close
  or_close-Keeps m k h g = Keeps-then m _ h λ ret. if-Keeps (failed ret) _ _ (return-Keeps ret) g

  show_cal-Keeps : Keeps n wu_show_cal
  unfolding wu_show_cal
  show_cal-Keeps = request-Keeps b'F'

  show_header-Keeps : Keeps n wu_show_header
  unfolding wu_show_header
  show_header-Keeps = request-Keeps b'H'

  show_interval-Keeps : Keeps n wu_show_interval
  unfolding wu_show_interval
  show_interval-Keeps = request-Keeps b'S'

  show_user-Keeps : Keeps n wu_show_user
  unfolding wu_show_user
  show_user-Keeps = request-Keeps b'U'

  show_info-Keeps : (os : List WuOption) → Keeps n (show_info os)
  unfolding show_info
  show_info-Keeps os =
      if-Keeps (is_set show_all os) _ _
        (Keeps-then _ _ show_cal-Keeps λ _. Keeps-then _ _ show_header-Keeps λ _.
          Keeps-then _ _ show_interval-Keeps
            λ _. Keeps-then _ _ show_mode-Keeps λ _. show_user-Keeps)
        (Keeps-then _ _ (check_show-Keeps calibrate os _ show_cal-Keeps) λ _.
          Keeps-then _ _ (check_show-Keeps header os _ show_header-Keeps) λ _.
            if-Keeps (is_set set_only os) _ _ (return-Keeps success) (
              Keeps-then _ _ (check_show-Keeps interval os _ show_interval-Keeps) λ _.
                Keeps-then _ _ (check_show-Keeps mode os _ show_mode-Keeps)
                  λ _. check_show-Keeps user os _ show_user-Keeps))

  take_data-Keeps : (os : List WuOption) → Keeps n (take_data n os)
  unfolding take_data
  take_data-Keeps os = or_close-Keeps _ _ (return-Keeps _) (
      or_close-Keeps _ _ start_log-Keeps (
        Keeps-then _ _ (read_data-Keeps (is_set final os) (count_option os).1)
          λ _. Keeps-then _ _ (stop_log-Keeps (is_set final os)) λ _. return-Keeps success))

  main-Keeps : (os : List WuOption) → Keeps n (wu_main n os)
  unfolding wu_main store_interval
  main-Keeps os = Keeps-then _ _ clear-Keeps λ _.
      or_close-Keeps _ _
        (check-Keeps interval os _ (
          Keeps-then _ _ (store_interval-Keeps (wu_option_value (index interval) os))
            λ r. return-Keeps r.0))
        (or_close-Keeps _ _
          (check-Keeps mode os _ (store_mode-Keeps (wu_option_value (index mode) os)))
          (or_close-Keeps _ _
            (check-Keeps user os _ (store_user-Keeps (wu_option_value (index user) os)))
            (Keeps-then _ _ (show_info-Keeps os)
              λ _. if-Keeps (is_set no_data os) _ _ (return-Keeps success) (take_data-Keeps os))))

-- With more fuel than there are events to read, `main` does not run out of fuel, whatever options
-- are set: it returns, waits for input, or faults.
pub wu_main_ends :
    (fuel : ℕ) (os : List WuOption) (d : Device)
    → length d.reads < fuel
    → wu_main fuel os d ≢ exhausted
unfolding Keeps
wu_main_ends fuel os d h = Leaves-ne-exhausted _ _ (main-Keeps fuel os d h)
