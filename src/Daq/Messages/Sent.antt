-- ===== src/Daq/Messages/Sent.antt =====
-- What the device is sent by main of mc1208fs-plus/daqflex.c.
use uarch_configure.Common.{
  ℕ, zero, suc, ◌+◌, ◌≤◌, ◌<◌, ◌≡◌, ◌≢◌, refl, sym, ap, ap₂, ◌∙◌, arith, ◌==◌, lt→ltb, ne→==, Bool,
  true, false, not, ◌&&◌, if◌then◌else◌, some, List, [], ◌∷◌, ◌++◌, subst, map, append-nil,
  append_assoc, length, length-append, All,
}
use uarch_configure.Common.Text.{Text, codes, c_string, print_int}
use uarch_configure.Common.Digits.{
  length-print_int, IsPlain, print_int-IsPlain, All-append, All-map, map-append,
}
use uarch_configure.Daq.Messages.{
  Reply, send_failed, no_answer, answer, Link, padded, send_message, send_all, slope_message,
  offset_message, fill_cal_constants, setup_messages, configure,
}

-- The messages of a run, in order.
abbrev pub cal_messages : ℕ → ℕ → List Text
cal_messages zero channel = []
cal_messages (suc n) channel =
    slope_message channel ∷ offset_message channel ∷ cal_messages n (suc channel)

abbrev pub messages : Bool → ℕ → ℕ → List Text
messages single_ended high_channel rate =
    setup_messages single_ended high_channel rate
    ++ (cal_messages (suc high_channel) 0 ++ (codes "AISCAN:START" ∷ []))

-- A text that fits a message.
abbrev pub Fits : Text → Type 0
Fits m = (length m < 64) × All (λ c. c ≢ 0) m

c_string-padded : (n : ℕ) (m : Text) → length m < n → All (λ c. c ≢ 0) m → c_string (padded n m) ≡ m
unfolding c_string
c_string-padded zero m l h = absurd (omega arith)
c_string-padded (suc n) [] l h = refl
c_string-padded (suc n) (c ∷ m) l h =
    rw (ne→== c 0 h.0) (ap (λ t. c ∷ t) (c_string-padded n m (omega arith) h.1))

-- The next `n` replies are answers.
abbrev pub Answers : ℕ → List Reply → Type 0
Answers zero replies = Unit {0}
Answers (suc n) (answer t ∷ replies) = Answers n replies
Answers (suc n) replies = ⊥

-- What the device reads of each transfer.
abbrev pub texts : Link → List Text
texts l = map c_string l.sent

send_all-append :
    (ms ns : List Text) (l : Link) → send_all (ms ++ ns) l ≡ send_all ns (send_all ms l)
unfolding send_all
send_all-append [] ns l = refl
send_all-append (m ∷ ms) ns l = send_all-append ms ns (send_message m l).1

fill_cal_constants-messages :
    (n channel : ℕ) (l : Link)
    → channel + n ≤ 16
    → fill_cal_constants n channel l ≡ some (send_all (cal_messages n channel) l)
unfolding fill_cal_constants
fill_cal_constants-messages zero channel l h = unfold send_all in refl
fill_cal_constants-messages (suc n) channel l h = rw (lt→ltb channel 16 (omega arith)) (
    fill_cal_constants-messages n (suc channel) _ (omega arith)
    ∙ ap some (
        sym (
          send_all-append (slope_message channel ∷ offset_message channel ∷ [])
            (cal_messages n (suc channel)) l)))

configure-messages :
    (single : Bool) (high rate : ℕ) (l : Link)
    → high < 16
    → configure single high rate l ≡ some (send_all (messages single high rate) l)
unfolding configure
configure-messages single high rate l h =
    rw
      (
        fill_cal_constants-messages (suc high) 0 (send_all (setup_messages single high rate) l)
            (omega arith),
        configure,
      )
      (ap some (
        sym (
          send_all-append (cal_messages (suc high) 0) (codes "AISCAN:START" ∷ [])
            (send_all (setup_messages single high rate) l))
        ∙ sym (
            send_all-append (setup_messages single high rate)
              (cal_messages (suc high) 0 ++ (codes "AISCAN:START" ∷ [])) l)))

send_all-sent :
    (ms : List Text) (replies : List Reply) (sent : List (List ℕ))
    → Answers (length ms) replies
    → (send_all ms (record { replies = replies; sent = sent })).sent ≡ sent ++ map (padded 64) ms
unfolding send_all send_message
send_all-sent [] replies sent h = sym (append-nil sent)
send_all-sent (m ∷ ms) [] sent h = absurd h
send_all-sent (m ∷ ms) (send_failed ∷ replies) sent h = absurd h
send_all-sent (m ∷ ms) (no_answer ∷ replies) sent h = absurd h
send_all-sent (m ∷ ms) (answer t ∷ replies) sent h =
    send_all-sent ms replies (sent ++ (padded 64 m ∷ [])) h
    ∙ append_assoc sent (padded 64 m ∷ []) (map (padded 64) ms)

texts-padded : (ms : List Text) → All Fits ms → map c_string (map (padded 64) ms) ≡ ms
texts-padded [] h = refl
texts-padded (m ∷ ms) h =
    ap₂ (λ a b. a ∷ b) (c_string-padded 64 m h.0.0 h.0.1) (texts-padded ms h.1)

clean : Text → Bool
clean [] = true
clean (c ∷ m) = not (c == 0) && clean m

clean-All : (m : Text) → clean m ≡ true → All (λ c. c ≢ 0) m
unfolding clean
clean-All [] h = tt
clean-All (c ∷ m) h = (ground arith, clean-All m (ground arith))

-- A constant text and a number, and what stands behind it.
Fits-number :
    (front : Text) (n : ℕ) (back : Text)
    → clean front ≡ true
    → clean back ≡ true
    → length front + length back < 53
    → Fits (front ++ (print_int n ++ back))
Fits-number front n back f b l = (
  omega (
    arith,
    length-append front (print_int n ++ back),
    length-append (print_int n) back,
    length-print_int n,
  ),
  All-append (λ c. c ≢ 0) front (print_int n ++ back) (clean-All front f)
      (All-append (λ c. c ≢ 0) (print_int n) back
        (All-map IsPlain (λ c. c ≢ 0) (λ c h. h.0) _ (print_int-IsPlain n)) (clean-All back b)),
)

Fits-constant : (m : Text) → clean m ≡ true → length m < 64 → Fits m
Fits-constant m c l = (l, clean-All m c)

cal_messages-Fits : (n channel : ℕ) → All Fits (cal_messages n channel)
unfolding clean slope_message offset_message
cal_messages-Fits zero channel = tt
cal_messages-Fits (suc n) channel = (
  Fits-number (codes "?AI{") channel (codes "}:SLOPE") refl refl (omega arith),
  (
    Fits-number (codes "?AI{") channel (codes "}:OFFSET") refl refl (omega arith),
    cal_messages-Fits n (suc channel),
  ),
)

setting-Fits :
    (front : Text) (n : ℕ) → clean front ≡ true → length front < 53 → Fits (front ++ print_int n)
unfolding clean
setting-Fits front n c l =
    subst Fits (ap (λ t. front ++ t) (append-nil (print_int n)))
      (Fits-number front n [] c refl (omega arith))

mode-Fits : (single : Bool) (a b : Text) → Fits a → Fits b → Fits (if single then a else b)
mode-Fits true a b p q = p
mode-Fits false a b p q = q

setup_messages-Fits : (single : Bool) (high rate : ℕ) → All Fits (setup_messages single high rate)
unfolding clean setup_messages
setup_messages-Fits single high rate = (
  constant (codes "AISCAN:STOP") refl (omega arith),
  (
    constant (codes "?AI:RES") refl (omega arith),
    (
      constant (codes "AISCAN:XFRMODE=BLOCKIO") refl (omega arith),
      (
        mode-Fits single (codes "AI:CHMODE=SE") (codes "AI:CHMODE=DIFF")
            (constant (codes "AI:CHMODE=SE") refl (omega arith))
            (constant (codes "AI:CHMODE=DIFF") refl (omega arith)),
        (
          mode-Fits single (codes "AISCAN:RANGE=BIP10V") (codes "AISCAN:RANGE=BIP5V")
              (constant (codes "AISCAN:RANGE=BIP10V") refl (omega arith))
              (constant (codes "AISCAN:RANGE=BIP5V") refl (omega arith)),
          (
            setting-Fits (codes "AISCAN:LOWCHAN=") 0 refl (omega arith),
            (
              setting-Fits (codes "AISCAN:HIGHCHAN=") high refl (omega arith),
              (
                setting-Fits (codes "AISCAN:RATE=") rate refl (omega arith),
                (
                  constant (codes "?AISCAN:RATE") refl (omega arith),
                  (constant (codes "AISCAN:SAMPLES=0") refl (omega arith), tt),
                ),
              ),
            ),
          ),
        ),
      ),
    ),
  ),
)
  where
    constant : (m : Text) → clean m ≡ true → length m < 64 → Fits m
    constant = Fits-constant

messages-Fits : (single : Bool) (high rate : ℕ) → All Fits (messages single high rate)
unfolding clean
messages-Fits single high rate =
    All-append Fits (setup_messages single high rate) _ (setup_messages-Fits single high rate) (
      All-append Fits (cal_messages (suc high) 0) _ (cal_messages-Fits (suc high) 0)
        (Fits-constant (codes "AISCAN:START") refl (omega arith), tt))

-- For up to 16 channels, where every message is answered, the device is sent the messages of the setup,
-- the questions for the constants of each channel from 0 to the highest, and the start of the scan,
-- in this order, and none of them is cut at the 64 bytes of a transfer.
pub configure-sends :
    (single : Bool) (high rate : ℕ) (l : Link)
    → high < 16
    → Answers (length (messages single high rate)) l.replies
    → (m : Link) × (configure single high rate l ≡ some m)
      × (texts m ≡ texts l ++ messages single high rate)
configure-sends single high rate l h answers = (
  send_all (messages single high rate) l,
  configure-messages single high rate l h,
  ap (map c_string) (send_all-sent (messages single high rate) l.replies l.sent answers)
      ∙ map-append c_string l.sent (map (padded 64) (messages single high rate))
      ∙ ap (λ t. texts l ++ t)
          (texts-padded (messages single high rate) (messages-Fits single high rate)),
)
