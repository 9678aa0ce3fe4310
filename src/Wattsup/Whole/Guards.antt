-- ===== src/Wattsup/Whole/Guards.antt =====
-- When wattsup/wattsup.c comes to the meter, and that it ends there.
use uarch_configure.Common.{
  ℕ, ◌<◌, ◌≡◌, ◌≢◌, refl, sym, ap, ap₂, subst, ◌∙◌, arith, true, false, Bool-cases, inl, inr,
  Option, none, some, List, [], ◌∷◌, length,
}
use uarch_configure.Common.Text.{Text}
use uarch_configure.Wattsup.{Code, success}
use uarch_configure.Wattsup.Device.{Outcome, exhausted}
use uarch_configure.Wattsup.Commands.{failed}
use uarch_configure.Wattsup.Options.{
  WuOption, WuField, wu_options, wu_fields, parse_options, parse_arguments,
}
use uarch_configure.Wattsup.Main.{wu_main}
use uarch_configure.Wattsup.Main.Terminates.{wu_main_ends}
use uarch_configure.Wattsup.Open.{open_device}
use uarch_configure.Wattsup.Whole.{
  WuCall, WuRun, runs, setup_serial_device, file_of, open_and_run, with_arguments, shows_and_exits,
  with_options, wattsup,
}

not_failed : (ret : Code) → failed ret ≡ false → ret ≡ success
not_failed success h = refl
not_failed Code.eoverflow h = absurd (ground arith)
not_failed Code.efault h = absurd (ground arith)
not_failed Code.etime h = absurd (ground arith)
not_failed Code.einval h = absurd (ground arith)
not_failed Code.io_error h = absurd (ground arith)

with_options-runs :
    (ret : Code) (os : List WuOption) (next : List WuOption → WuRun) {fd : ℕ} {os' : List WuOption}
    {fs : List WuField} {r : Outcome Code}
    → with_options (ret, os) next ≡ runs fd os' fs r
    → (ret ≡ success) × (shows_and_exits os ≡ false) × (next os ≡ runs fd os' fs r)
with_options-runs ret os next h = elim (Bool-cases (failed ret)) [
  | inl y ↦ absurd (ground arith)
  | inr n ↦ elim (Bool-cases (shows_and_exits os)) [
    | inl y' ↦ absurd (ground arith)
    | inr n' ↦ (not_failed ret n, n', ground arith)
  ]
]

with_arguments-runs :
    (x : Option (Code × Option Text × List WuField)) (next : List WuField → WuRun) {fd : ℕ}
    {os : List WuOption} {fs : List WuField} {r : Outcome Code}
    → with_arguments x next ≡ runs fd os fs r
    → (device : Option Text) × (fs' : List WuField) × (x ≡ some (success, device, fs'))
      × (next fs' ≡ runs fd os fs r)
with_arguments-runs none next h = absurd (ground arith)
with_arguments-runs (some (ret, device, fs')) next h = elim (Bool-cases (failed ret)) [
  | inl y ↦ absurd (ground arith)
  | inr n ↦ (device, fs', ap (λ c. some (c, device, fs')) (not_failed ret n), ground arith)
]

abbrev pub opened_file : WuCall → ℕ
opened_file y = file_of (open_device y.system).dev_fd

-- What a run on the meter needs of the calls that open it and set it up.
abbrev pub IsOpen : WuCall → Type 0
IsOpen y =
    ((open_device y.system).returned_0 ≡ true) × (setup_serial_device y (opened_file y) ≡ true)

open_and_run-runs :
    (fuel : ℕ) (y : WuCall) (os os' : List WuOption) (fs fs' : List WuField) (fd : ℕ)
    (r : Outcome Code)
    → open_and_run fuel y os fs ≡ runs fd os' fs' r
    → IsOpen y
      × (opened_file y ≡ fd)
      × (os ≡ os')
      × (fs ≡ fs')
      × (wu_main fuel os (y.behind_file (opened_file y)) ≡ r)
unfolding open_and_run
open_and_run-runs fuel y os os' fs fs' fd r h =
    elim (Bool-cases (open_device y.system).returned_0) [
      | inl opened ↦ elim (Bool-cases (setup_serial_device y (opened_file y))) [
        | inl set ↦
            let same : runs (opened_file y) os fs (wu_main fuel os (y.behind_file (opened_file y)))
                ≡ runs fd os' fs' r =
              ground arith in
            ((opened, set), ground arith, ground arith, ground arith, ground arith)
        | inr n ↦ absurd (ground arith)
      ]
      | inr n ↦ absurd (ground arith)
    ]

arguments_needed :
    (args : List Text) (fs : List WuField) (device : Option Text) (fs' : List WuField)
    → parse_arguments args fs ≡ some (success, device, fs')
    → args ≢ []
unfolding parse_arguments
arguments_needed [] fs device fs' e h = absurd (ground arith)
arguments_needed (a ∷ args) fs device fs' e h = absurd (ground arith)

pub wattsup-guarded :
    (fuel : ℕ) (y : WuCall) (fd : ℕ) (os : List WuOption) (fs : List WuField) (r : Outcome Code)
    → wattsup fuel y ≡ runs fd os fs r
    → (parse_options y.getopts wu_options ≡ (success, os))
      × (shows_and_exits os ≡ false)
      × ((device : Option Text) × (parse_arguments y.arguments wu_fields
            ≡ some (success, device, fs)))
      × (y.arguments ≢ [])
      × IsOpen y
      × (opened_file y ≡ fd)
      × (wu_main fuel os (y.behind_file fd) ≡ r)
unfolding wattsup
wattsup-guarded fuel y fd os fs r h =
    let os0 = (parse_options y.getopts wu_options).1 in
    let (ok, no_help, more) =
      with_options-runs (parse_options y.getopts wu_options).0 os0
        (λ os. with_arguments (parse_arguments y.arguments wu_fields) (open_and_run fuel y os)) h in
    let (device, fs0, read, opened) =
      with_arguments-runs (parse_arguments y.arguments wu_fields) (open_and_run fuel y os0) more in
    let (line, file, options, fields, ran) = open_and_run-runs fuel y os0 os fs0 fs fd r opened in
    (
      ap₂ (λ a b. (a, b)) ok options,
      subst (λ os. shows_and_exits os ≡ false) options no_help,
      (device, read ∙ ap (λ fs. some (success, device, fs)) fields),
      arguments_needed y.arguments wu_fields device fs0 read,
      line,
      file,
      ap₂ (λ os fd. wu_main fuel os (y.behind_file fd)) (sym options) (sym file) ∙ ran,
    )

-- With more fuel than there are events to read on the meter, whatever file it is behind, the program does
-- not run out of fuel.
pub wattsup_ends :
    (fuel : ℕ) (y : WuCall) (fd : ℕ) (os : List WuOption) (fs : List WuField)
    → ((fd : ℕ) → length (y.behind_file fd).reads < fuel)
    → wattsup fuel y ≢ runs fd os fs exhausted
wattsup_ends fuel y fd os fs enough h =
    let (o, s, a, n, w, file, ran) = wattsup-guarded fuel y fd os fs exhausted h in
    wu_main_ends fuel os (y.behind_file fd) (enough fd) ran
