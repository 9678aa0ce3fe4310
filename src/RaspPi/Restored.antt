-- ===== src/RaspPi/Restored.antt =====
-- What toggle_rts and toggle_dtr leave of the port: after a failure, and where all calls succeed.
use uarch_configure.Common.{
  ℕ, suc, ◌-◌, ◌^◌, ◌<◌, ◌≡◌, ◌≢◌, refl, sym, ap, ◌∙◌, arith, ◌==◌, if◌then◌else◌, Bool, true,
  false, [], ◌∷◌, ◌++◌, subst, ==→eq, passes_below, passes_below-at,
}
use uarch_configure.Common.Registers.{number}
use uarch_configure.Common.Bits.{bit, bit-bit_and, bit-bit_or, bit-complement, bit-le-one}
use uarch_configure.RaspPi.Toggle.{
  Attr, Port, Ret, success, failure, M, call, finish, set_attr, new_status, write_status, set_line,
  flow_attr, down_up, toggle, toggle_dtr, tiocm_dtr,
}

-- What holds after both outcomes of a call holds after the call.
call-either {ℓ κ} :
    {A : Type ℓ} (C : A × Port → Type κ) (change : Port → Port) (next fail : M A) (p : Port)
    → C (next (change (record p { calls = suc p.calls })))
    → C (fail (record p { calls = suc p.calls }))
    → C (call change next fail p)
unfolding call
call-either C change next fail p y n =
    elim (p.works p.calls)
      as (λ b. C (
        if b
        then next (change (record p { calls = suc p.calls }))
        else fail (record p { calls = suc p.calls }))) [ true ↦ y | false ↦ n ]

-- The settings, the status and what was written are those of `p`.
abbrev pub SameLines : Port → Port → Type 0
SameLines p q = (q.attr ≡ p.attr) × (q.status ≡ p.status) × (q.written ≡ p.written)

abbrev pub FailsSafe : Port → Ret × Port → Type 0
FailsSafe p (r, q) = r ≡ failure → SameLines p q

down_up-success : (set : Bool → M Ret) (old : Attr) (p : Port) → (down_up set old p).0 ≡ success
unfolding down_up
down_up-success set old p =
    call-either (λ r. r.0 ≡ success) _ _ _ ((set true (set false p).1).1) refl refl

success≢failure : success ≢ failure
success≢failure e = ground arith

-- Where the program ends with failure, the settings and the modem lines of the port are as before, and
-- nothing was written to the lines.
pub toggle-FailsSafe : (set : Bool → M Ret) (p : Port) → FailsSafe p (toggle set p)
unfolding toggle
toggle-FailsSafe set p =
    call-either (FailsSafe p) _ _ _ p
      (call-either (FailsSafe p) _ _ _ _
        (call-either (FailsSafe p) _ _ _ _
          (call-either (FailsSafe p) _ _ _ _
            (λ e. absurd (success≢failure (sym (down_up-success set _ _) ∙ e)))
            (λ e. (refl, refl, refl)))
          (λ e. (refl, refl, refl)))
        (λ e. (refl, refl, refl)))
      (λ e. (refl, refl, refl))

call-works {ℓ} :
    {A : Type ℓ} (change : Port → Port) (next fail : M A) (p : Port)
    → p.works p.calls ≡ true
    → call change next fail p ≡ next (change (record p { calls = suc p.calls }))
unfolding call
call-works change next fail p e = rw e refl

set_line-works :
    (line : ℕ) (value : Bool) (p : Port)
    → ((n : ℕ) → p.works n ≡ true)
    → set_line line value p ≡ (
      success,
      write_status (new_status line value p.status) (record p { calls = suc (suc p.calls) }),
    )
unfolding set_line
set_line-works line value p all =
    call-works _ _ _ p (all p.calls)
    ∙ call-works _ _ _ (record p { calls = suc p.calls }) (all (suc p.calls))

-- The two changes of the line, and the settings from before.
abbrev pub toggled : ℕ → Attr → Port → Port
toggled line old p =
    let low = new_status line false p.status in
    let high = new_status line true low in
    record p {
      calls = suc (suc (suc (suc (suc p.calls))));
      attr = old;
      status = high;
      written = (p.written ++ (low ∷ [])) ++ (high ∷ []);
    }

down_up-works :
    (line : ℕ) (old : Attr) (p : Port)
    → ((n : ℕ) → p.works n ≡ true)
    → down_up (set_line line) old p ≡ (success, toggled line old p)
unfolding down_up
down_up-works line old p all =
    let low = new_status line false p.status in
    let q = write_status low (record p { calls = suc (suc p.calls) }) in
    let r =
      write_status (new_status line true low)
        (record q { calls = suc (suc (suc (suc p.calls))) }) in
    ap (λ (x : Ret × Port). last (set_line line true x.1)) (set_line-works line false p all)
    ∙ ap last (set_line-works line true q all)
    ∙ call-works _ _ _ r (all (suc (suc (suc (suc p.calls)))))
  where
    last : Ret × Port → Ret × Port
    last x = call (set_attr old) (finish success) (finish success) x.1

-- Where every call succeeds, the program ends with success.
toggle-works :
    (line : ℕ) (p : Port)
    → ((n : ℕ) → p.works n ≡ true)
    → toggle (set_line line) p
      ≡ (success, toggled line p.attr (record p { calls = suc (suc (suc (suc p.calls))) }))
unfolding toggle
toggle-works line p all =
    call-works _ _ _ p (all p.calls)
    ∙ call-works _ _ _ (record p { calls = suc p.calls }) (all (suc p.calls))
    ∙ call-works _ _ _ (record p { calls = suc (suc p.calls) }) (all (suc (suc p.calls)))
    ∙ call-works _ _ _ (record p { calls = suc (suc (suc p.calls)) })
        (all (suc (suc (suc p.calls))))
    ∙ down_up-works line p.attr
        (record p { calls = suc (suc (suc (suc p.calls))); attr = flow_attr p.attr }) all

-- A change of line `j`, whose mask has that bit alone.
bit-new_status :
    (j line : ℕ) (value : Bool) (status k : ℕ)
    → line < 2 ^ 32
    → k < 32
    → bit line k ≡ (if k == j then 1 else 0)
    → bit (new_status line value status) k ≡ (if k == j then number value else bit status k)
unfolding new_status
bit-new_status j line true status k l h e =
    ground (arith, bit-bit_or status line k, bit-le-one status k)
bit-new_status j line false status k l h e = ground (
  arith,
  bit-bit_and status (2 ^ 32 - 1 - line) k,
  bit-complement 32 line k l h,
  bit-le-one status k,
)

one_bit :
    (j line : ℕ) (k : ℕ)
    → passes_below 32 (λ k. bit line k == (if k == j then 1 else 0)) ≡ true
    → k < 32
    → bit line k ≡ (if k == j then 1 else 0)
one_bit j line k table h = ==→eq _ _ (passes_below-at 32 _ table k h)

dtr_table : passes_below 32 (λ k. bit tiocm_dtr k == (if k == 1 then 1 else 0)) ≡ true
unfolding passes_below
dtr_table = refl

-- The lines were written twice, with line `j` clear and then set, and no other line changed.
abbrev pub Toggled : ℕ → ℕ → ℕ → Port → Ret × Port → Type 0
Toggled j line k p (r, q) =
    let low = new_status line false p.status in
    (r ≡ success)
    × (q.attr ≡ p.attr)
    × (q.written ≡ (p.written ++ (low ∷ [])) ++ (q.status ∷ []))
    × (bit low k ≡ (if k == j then 0 else bit p.status k))
    × (bit q.status k ≡ (if k == j then 1 else bit p.status k))

toggle-Toggled :
    (j line k : ℕ) (p : Port)
    → ((n : ℕ) → p.works n ≡ true)
    → line < 2 ^ 32
    → k < 32
    → bit line k ≡ (if k == j then 1 else 0)
    → Toggled j line k p (toggle (set_line line) p)
toggle-Toggled j line k p all l h e =
    subst (Toggled j line k p) (sym (toggle-works line p all))
      (refl, refl, refl, low, ground (arith, low, high))
  where
    low : bit (new_status line false p.status) k ≡ (if k == j then 0 else bit p.status k)
    low = bit-new_status j line false p.status k l h e

    high :
        bit (new_status line true (new_status line false p.status)) k
        ≡ (if k == j then 1 else bit (new_status line false p.status) k)
    high = bit-new_status j line true (new_status line false p.status) k l h e

-- The same of toggle_dtr, with the line DTR.
pub toggle_dtr-Toggled :
    (k : ℕ) (p : Port)
    → ((n : ℕ) → p.works n ≡ true)
    → k < 32
    → Toggled 1 tiocm_dtr k p (toggle_dtr p)
unfolding toggle_dtr
toggle_dtr-Toggled k p all h =
    toggle-Toggled 1 tiocm_dtr k p all (omega arith) h (one_bit 1 tiocm_dtr k dtr_table h)
