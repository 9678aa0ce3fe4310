-- ===== src/Wattsup/Sends.antt =====
-- What the setting commands of wattsup/wattsup.c send.
use uarch_configure.Common.{subst, sym, ℕ, ◌≤◌, ◌≡◌, refl, arith, Option, none, some, Option-cases}
use uarch_configure.Common.{
  List, [], ◌∷◌, ◌++◌, append_assoc, take, take_short, length, length-append, ◌⊎◌, inl, inr,
}
use uarch_configure.Common.Text.{Text, print_unsigned, print_int, digits_of}
use uarch_configure.Common.Digits.{length-digits_of}
use uarch_configure.Common.Strtol.{strtoul}
use uarch_configure.Wattsup.{Code, success, einval, Packet}
use uarch_configure.Wattsup.Format.{text, format_packet, format_head, format_fields}
use uarch_configure.Wattsup.Fits.{packet_text, fields_text, format_packet_exact}
use uarch_configure.Wattsup.Device.{M, WriteEvent, wrote, Device, Outcome, returns, fault}
use uarch_configure.Wattsup.Commands.{packet}
use uarch_configure.Wattsup.GivesUp.{wu_write_wrote}
use uarch_configure.Wattsup.Settings.{
  param_text, wu_write_interval, wu_write_user, skip_to_digit, next_parameter, with_parameter,
  wu_store_user,
}

param_text_lem : (n : ℕ) → param_text n ≡ print_unsigned n ++ (b'd' ∷ [])
unfolding param_text
param_text_lem n = take_short 15 _ (
    unfold print_unsigned in
    omega (arith, length-append (digits_of 10 n) (b'd' ∷ []), length-digits_of 10 n))

-- `#S,W,2,<seconds>d,<interval>d;`: both numbers end in the `d` of `%ud`.
abbrev pub interval_text : ℕ → ℕ → Text
interval_text seconds interval =
    b'#'
    ∷ b'S'
    ∷ b','
    ∷ b'W'
    ∷ b','
    ∷ b'2'
    ∷ b','
    ∷ (print_unsigned seconds ++ (b'd' ∷ b',' ∷ (print_unsigned interval ++ (b'd' ∷ b';' ∷ []))))

interval_packet_text :
    (seconds interval : ℕ)
    → packet_text (packet b'S' b'W' (param_text seconds ∷ param_text interval ∷ []) 2)
      ≡ interval_text seconds interval
unfolding packet_text format_head fields_text print_int
interval_packet_text seconds interval = simp (param_text_lem, append_assoc)

length-interval_text : (seconds interval : ℕ) → length (interval_text seconds interval) ≤ 40
unfolding print_unsigned
length-interval_text seconds interval = omega (
  arith,
  length-append (digits_of 10 seconds)
      (b'd' ∷ b',' ∷ (digits_of 10 interval ++ (b'd' ∷ b';' ∷ []))),
  length-append (digits_of 10 interval) (b'd' ∷ b';' ∷ []),
  length-digits_of 10 seconds,
  length-digits_of 10 interval,
)

interval_format :
    (seconds interval : ℕ)
    → format_packet (packet b'S' b'W' (param_text seconds ∷ param_text interval ∷ []) 2)
      ≡ text (interval_text seconds interval)
interval_format seconds interval = ground (
  arith,
  format_packet_exact p (omega arith),
  interval_packet_text seconds interval,
  length-interval_text seconds interval,
)
  where
    p : Packet
    p = packet b'S' b'W' (param_text seconds ∷ param_text interval ∷ []) 2

-- Setting the interval sends both numbers in decimal, each with a `d` behind it, and succeeds.
pub wu_write_interval_sends :
    (seconds interval n : ℕ) (ws : List WriteEvent) (d : Device)
    → d.writes ≡ wrote n ∷ ws
    → wu_write_interval seconds interval d
      ≡ returns success (record d {
        writes = ws;
        sent = d.sent ++ (take n (interval_text seconds interval) ∷ []);
      })
unfolding wu_write_interval
wu_write_interval_sends seconds interval n ws d h =
    ground (arith, wu_write_wrote _ d (interval_format seconds interval) h)

-- `#U,R,0;`
abbrev pub user_text : Text
user_text = b'#' ∷ b'U' ∷ b',' ∷ b'R' ∷ b',' ∷ b'0' ∷ b';' ∷ []

user_format : format_packet (packet b'U' b'R' [] 0) ≡ text user_text
unfolding format_packet format_head format_fields print_int
user_format = refl

-- What may come of storing the user parameters.
data Stores (d : Device) (n : ℕ) (ws : List WriteEvent) : Outcome Code → Type 0 where
  refused : Stores d n ws (returns einval d)
  overran : Stores d n ws fault
  asked :
      Stores d n ws
        (returns success (record d { writes = ws; sent = d.sent ++ (take n user_text ∷ []) }))

with_parameter-Stores :
    (s : Text) (k : ℕ → Text → M Code) (d : Device) (n : ℕ) (ws : List WriteEvent)
    → ((m : ℕ) (s' : Text) → Stores d n ws (k m s' d))
    → Stores d n ws (with_parameter s k d)
unfolding with_parameter next_parameter
with_parameter-Stores s k d n ws h = elim (Option-cases (strtoul s)) [
  | inl e ↦
      let run : with_parameter s k d ≡ returns einval d = ground arith in put (sym run) refused
  | inr ((m, next), e) ↦ elim (Option-cases (skip_to_digit next)) [
    | inl e' ↦ let run : with_parameter s k d ≡ fault = ground arith in put (sym run) overran
    | inr (s', e') ↦
        let run : with_parameter s k d ≡ k m s' d = ground arith in put (sym run) (h m s')
  ]
]
  where
    put : {o o' : Outcome Code} → o ≡ o' → Stores d n ws o → Stores d n ws o'
    put e = subst (Stores d n ws) e

wu_write_user-Stores :
    (a b c e n : ℕ) (ws : List WriteEvent) (d : Device)
    → d.writes ≡ wrote n ∷ ws
    → Stores d n ws (wu_write_user a b c e d)
wu_write_user-Stores a b c e n ws d h = subst (Stores d n ws) (sym run) asked
  where
    run :
        wu_write_user a b c e d
        ≡ returns success (record d { writes = ws; sent = d.sent ++ (take n user_text ∷ []) })
    run = unfold wu_write_user in ground (arith, wu_write_wrote _ d user_format h)

wu_store_user-Stores :
    (value : Option Text) (n : ℕ) (ws : List WriteEvent) (d : Device)
    → d.writes ≡ wrote n ∷ ws
    → Stores d n ws (wu_store_user value d)
unfolding wu_store_user
wu_store_user-Stores none n ws d h = refused
wu_store_user-Stores (some buf) n ws d h = with_parameter-Stores buf _ d n ws λ a s₁.
    with_parameter-Stores s₁ _ d n ws λ b s₂.
      with_parameter-Stores s₂ _ d n ws
        λ c s₃. with_parameter-Stores s₃ _ d n ws λ e s₄. wu_write_user-Stores a b c e n ws d h

-- Whatever value the option `user` has, storing it is refused, leaves the text behind its end, or
-- sends the request `#U,R,0;`, in which no parameter stands.
pub wu_store_user_sends :
    (value : Option Text) (n : ℕ) (ws : List WriteEvent) (d : Device)
    → d.writes ≡ wrote n ∷ ws
    → (wu_store_user value d ≡ returns einval d)
      ⊎ (wu_store_user value d ≡ fault)
      ⊎ (wu_store_user value d
          ≡ returns success (record d { writes = ws; sent = d.sent ++ (take n user_text ∷ []) }))
wu_store_user_sends value n ws d h = go (wu_store_user-Stores value n ws d h)
  where
    go :
        {o : Outcome Code}
        → Stores d n ws o
        → (o ≡ returns einval d)
          ⊎ (o ≡ fault)
          ⊎ (o
              ≡ returns success
                  (record d { writes = ws; sent = d.sent ++ (take n user_text ∷ []) }))
    go refused = inl refl
    go overran = inr (inl refl)
    go asked = inr (inr refl)
