-- ===== src/Daq/Poll/Safe.antt =====
-- What holds of the circular buffer in every order of the two threads.
use uarch_configure.Common.{
  ℕ, ◌*◌, ◌/◌, ◌≤◌, ◌<◌, ◌≡◌, refl, arith, ltb, Bool, List, [], ◌∷◌, ◌⊎◌, inl, inr, Bool-cases,
  subst, sym, none, some,
}
use uarch_configure.Daq.Poll.{
  DataBuffer, Half, first_half, second_half, Acquisition, read_usb, transfer_range, ready_half,
  main_loop, num_samples, Step, transfers, displays, started, Reachable, begins, goes_on,
}

abbrev pub other : Half → Half
other first_half = second_half
other second_half = first_half

-- The halves displayed take turns, from the first half on, up to the last one read.
abbrev pub Alternates : Half → List Half → Type 0
Alternates last [] = last ≡ second_half
Alternates last (h ∷ hs) = (h ≡ last) × Alternates (other h) hs

IsGood : ℕ → Acquisition → Type 0
IsGood points a =
    (a.buffer.num_points ≡ points)
    × (a.buffer.curr_index < points)
    × Alternates a.last_half_read a.displayed

read_usb-lt :
    (t p : ℕ) (b : DataBuffer)
    → b.num_points ≡ p
    → b.curr_index < p
    → t ≤ num_samples b
    → (read_usb t b).curr_index < p
unfolding read_usb num_samples
read_usb-lt t p b e h l = ground arith

ready_half-other :
    (h : Half) (b : DataBuffer) → (ready_half h b ≡ none) ⊎ (ready_half h b ≡ some (other h))
unfolding ready_half
ready_half-other second_half b = elim (Bool-cases (ltb (b.num_points / 2) b.curr_index)) [
  | inl e ↦ inr (ground (arith, e))
  | inr e ↦ inl (ground (arith, e))
]
ready_half-other first_half b = elim (Bool-cases (ltb b.curr_index (b.num_points / 2))) [
  | inl e ↦ inr (ground (arith, e))
  | inr e ↦ inl (ground (arith, e))
]

other-other : (h : Half) → other (other h) ≡ h
other-other first_half = refl
other-other second_half = refl

-- What the main loop does: nothing, or display of the other half.
pub main_loop_cases :
    (a : Acquisition)
    → (main_loop a ≡ a)
      ⊎ (main_loop a ≡ record a {
        last_half_read = other a.last_half_read;
        displayed = other a.last_half_read ∷ a.displayed;
      })
unfolding main_loop
main_loop_cases a = elim (ready_half-other a.last_half_read a.buffer) [
  | inl e ↦ inl (ground (arith, e))
  | inr e ↦ inr (ground (arith, e))
]

main_loop-IsGood : (p : ℕ) (a : Acquisition) → IsGood p a → IsGood p (main_loop a)
unfolding IsGood
main_loop-IsGood p a (e, h, alt) = elim (main_loop_cases a) [
  | inl same ↦ subst (IsGood p) (sym same) (e, h, alt)
  | inr shown ↦
      subst (IsGood p) (sym shown) (
        e,
        h,
        (refl, subst (λ l. Alternates l a.displayed) (sym (other-other a.last_half_read)) alt),
      )
]

Step-IsGood : {full : Bool} (p : ℕ) {a b : Acquisition} → Step full a b → IsGood p a → IsGood p b
unfolding IsGood
Step-IsGood p (transfers {a} t l f) (e, h, alt) =
    (unfold read_usb in e, read_usb-lt t p a.buffer e h l, alt)
Step-IsGood p (displays {a}) g = main_loop-IsGood p a g

Reachable-IsGood : {full : Bool} {p : ℕ} {a : Acquisition} → 0 < p → Reachable full p a → IsGood p a
unfolding IsGood started
Reachable-IsGood pos begins = (refl, pos, refl)
Reachable-IsGood pos (goes_on r s) = Step-IsGood _ s (Reachable-IsGood pos r)

-- In every order of transfers and displays the index stays inside the first half of the array,
-- the next transfer stays inside the array, and the halves are displayed in turns.
pub acquisition_safe :
    {full : Bool} {points : ℕ} {a : Acquisition}
    → 0 < points
    → Reachable full points a
    → (a.buffer.num_points ≡ points)
      × (a.buffer.curr_index < points)
      × ((transfer_range (num_samples a.buffer) a.buffer).1 ≤ 4 * points)
      × Alternates a.last_half_read a.displayed
unfolding transfer_range num_samples IsGood
acquisition_safe pos r = let (e, h, alt) = Reachable-IsGood pos r in (e, h, omega arith, alt)
