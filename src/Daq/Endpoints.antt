-- ===== src/Daq/Endpoints.antt =====
-- The descriptor scans find the first endpoint of a direction in a sequence of descriptors.
use uarch_configure.Common.{
  ℕ, zero, suc, ◌+◌, ◌*◌, ◌≤◌, ◌<◌, ◌≡◌, ap, ◌∙◌, arith, ◌==◌, leb, if◌then◌else◌, ◌&&◌, get_elem?,
  Bool, List, [], ◌∷◌, ◌++◌, append_assoc, length-append, length, All,
}
use uarch_configure.Daq.Device.{
  value, with_byte, endpoint_loop, is_input, is_output, get_endpoint_in_address,
  get_endpoint_out_address,
}

-- A USB descriptor behind its length byte: the type, and what follows.
pub record Descriptor : Type 0 where
  pub kind : ℕ
  pub body : List ℕ

abbrev pub bytes : Descriptor → List ℕ
bytes d = (length d.body + 2) ∷ d.kind ∷ d.body

abbrev pub stream : List Descriptor → List ℕ
stream [] = []
stream (d ∷ ds) = bytes d ++ stream ds

-- An endpoint descriptor has an address.
abbrev pub HasAddress : Descriptor → Type 0
HasAddress d = d.kind ≡ 5 → 1 ≤ length d.body

abbrev pub head_or_zero : List ℕ → ℕ
head_or_zero [] = 0
head_or_zero (b ∷ bs) = b

-- The address of the first endpoint that is wanted, 0 if there is none.
abbrev pub first_address : (ℕ → Bool) → List Descriptor → ℕ
first_address wanted [] = 0
first_address wanted (d ∷ ds) =
    if (d.kind == 5) && wanted (head_or_zero d.body)
    then head_or_zero d.body
    else first_address wanted ds

pub get_elem?-append :
    (xs ys : List ℕ) (k : ℕ) → get_elem? (xs ++ ys) (length xs + k) ≡ get_elem? ys k
get_elem?-append [] ys k = ap (get_elem? ys) (zero_add k)
  where
    zero_add : (k : ℕ) → 0 + k ≡ k
    zero_add k = omega arith
get_elem?-append (x ∷ xs) ys k =
    ap (get_elem? (x ∷ (xs ++ ys))) (suc_add (length xs) k) ∙ get_elem?-append xs ys k
  where
    suc_add : (n k : ℕ) → suc n + k ≡ suc (n + k)
    suc_add n k = omega arith

-- Behind `pre`, with `d` and then `rest` next.
endpoint_loop-skip :
    (w : ℕ → Bool) (fuel len : ℕ) (pre rest : List ℕ) (d : Descriptor)
    → HasAddress d
    → endpoint_loop w (suc fuel) (pre ++ (bytes d ++ rest)) len (length pre) ≡ (
        if (d.kind == 5) && w (head_or_zero d.body)
        then value (head_or_zero d.body)
        else if leb len (length pre + (length d.body + 2))
        then value 0
        else endpoint_loop w fuel (pre ++ (bytes d ++ rest)) len (length pre + (length d.body + 2)))
unfolding endpoint_loop with_byte
endpoint_loop-skip w fuel len pre rest d h = ground (
  arith,
  get_elem?-append pre (bytes d ++ rest) 0,
  get_elem?-append pre (bytes d ++ rest) 1,
  get_elem?-append pre (bytes d ++ rest) 2,
  plus_zero (length pre),
)
  where
    plus_zero : (n : ℕ) → n + 0 ≡ n
    plus_zero n = omega arith

stream-positive : (d : Descriptor) (ds : List Descriptor) → 2 ≤ length (stream (d ∷ ds))
stream-positive d ds = omega (arith, length-append (bytes d) (stream ds))

endpoint_loop-stream :
    (w : ℕ → Bool) (fuel : ℕ) (pre pad : List ℕ) (d : Descriptor) (ds : List Descriptor)
    → All HasAddress (d ∷ ds)
    → length ds < fuel
    → endpoint_loop w fuel
        (pre ++ (stream (d ∷ ds) ++ pad))
        (length pre + length (stream (d ∷ ds)))
        (length pre)
      ≡ value (first_address w (d ∷ ds))
endpoint_loop-stream w zero pre pad d ds h l = absurd (omega arith)
endpoint_loop-stream w (suc fuel) pre pad d [] h l = ground (
  arith,
  ap (λ t. pre ++ t) (append_assoc (bytes d) [] pad),
  endpoint_loop-skip w fuel (length pre + length (bytes d ++ [])) pre pad d h.0,
  length-append (bytes d) [],
)
endpoint_loop-stream w (suc fuel) pre pad d (e ∷ es) h l = ground (
  arith,
  ap (λ t. pre ++ t) (append_assoc (bytes d) (stream (e ∷ es)) pad),
  append_assoc pre (bytes d) (stream (e ∷ es) ++ pad),
  endpoint_loop-skip w fuel (length pre + length (stream (d ∷ e ∷ es))) pre (stream (e ∷ es) ++ pad)
      d h.0,
  length-append (bytes d) (stream (e ∷ es)),
  length-append pre (bytes d),
  stream-positive e es,
  endpoint_loop-stream w fuel (pre ++ bytes d) pad e es h.1 (omega arith),
)

pub stream-at_least : (ds : List Descriptor) → 2 * length ds ≤ length (stream ds)
stream-at_least [] = omega arith
stream-at_least (d ∷ ds) = omega (arith, length-append (bytes d) (stream ds), stream-at_least ds)

-- On up to 64 bytes of descriptors with `pad` behind them, the scans return the address of the
-- first input endpoint and of the first output endpoint, or 0 if there is none, and read no byte
-- outside the array.
pub endpoint_addresses :
    (d : Descriptor) (ds : List Descriptor) (pad : List ℕ)
    → All HasAddress (d ∷ ds)
    → length (stream (d ∷ ds)) ≤ 64
    → (get_endpoint_in_address (stream (d ∷ ds) ++ pad) (length (stream (d ∷ ds)))
        ≡ value (first_address is_input (d ∷ ds)))
      × (get_endpoint_out_address (stream (d ∷ ds) ++ pad) (length (stream (d ∷ ds)))
          ≡ value (first_address is_output (d ∷ ds)))
unfolding get_endpoint_in_address get_endpoint_out_address
endpoint_addresses d ds pad h l = (scanned is_input, scanned is_output)
  where
    scanned :
        (w : ℕ → Bool)
        → endpoint_loop w 65 (stream (d ∷ ds) ++ pad) (length (stream (d ∷ ds))) 0
          ≡ value (first_address w (d ∷ ds))
    scanned w =
        ap (λ len. endpoint_loop w 65 (stream (d ∷ ds) ++ pad) len 0) (zero_add _)
        ∙ endpoint_loop-stream w 65 [] pad d ds h
            (omega (arith, stream-at_least ds, length-append (bytes d) (stream ds)))
      where
        zero_add : (n : ℕ) → n ≡ 0 + n
        zero_add n = omega arith
