-- ===== src/MyString/Encode/Wide.antt =====
-- Wide texts through `strToUtf8` and back through `Utf8ToWide`.
use Prim.Native.Nat.{bit_and, bit_or}
use native.Mathlib.Nat.{zero-add}
use tv_now.Common.{
  Bool, All-append, drop-append, List, ◌||◌, ℕ, zero, suc, ◌+◌, ◌-◌, ◌*◌, ◌/◌, ◌%◌, ◌≤◌, ◌<◌, ◌≡◌,
  ◌≢◌, refl, ◌∙◌, true, false, ◌&&◌, some, [], ◌∷◌, ◌++◌, Bytes, arith, length, length-append,
  append_assoc, append-nil, ◌==◌, ltb, leb, if◌then◌else◌, All, drop, holds_below, holds_at,
}
use tv_now.MyString.Decode.{
  Outcome, done, out_of_range, out_of_fuel, wide_round, Round, store, advance, decode_loop,
  utf8_to_wide,
}
use tv_now.MyString.Encode.{
  read_char, two_bytes, three_bytes, put, store_put, put_char, finish, to_utf8_loop, str_to_utf8,
}

-- The array of a wide text: two bytes a character, the low one first, and a wide NUL.
abbrev pub wide_array : List ℕ → Bytes
wide_array [] = 0 ∷ 0 ∷ []
wide_array (u ∷ us) = (u % 256) ∷ (u / 256) ∷ wide_array us

-- A character other than NUL that needs at most two bytes, and one for which the code stores three
-- bytes with a lead byte up to 0xF7.
abbrev pub IsShort : ℕ → Type 0
IsShort u = (0 < u) × (u < 0x800)

abbrev pub IsLong : ℕ → Type 0
IsLong u = (0x800 ≤ u) × (u < 0x8000)

-- The bytes of a character.
abbrev bytes_of : ℕ → Bytes
bytes_of u =
    if ltb u 0x80
    then u ∷ []
    else if ltb u 0x800
    then (two_bytes u).0 ∷ (two_bytes u).1 ∷ []
    else (three_bytes u).0 ∷ (three_bytes u).1 ∷ (three_bytes u).2 ∷ []

abbrev encoded : List ℕ → Bytes
encoded [] = []
encoded (u ∷ us) = bytes_of u ++ encoded us

read_wide : (u : ℕ) (s : Bytes) → read_char true ((u % 256) ∷ (u / 256) ∷ s) ≡ some (u, s)
unfolding read_char
read_wide u s = ground arith

put_bytes : (u j n : ℕ) → u < 0x8000 → j + 3 ≤ n → put_char u j n false ≡ put (bytes_of u)
unfolding put_char
put_bytes u j n hu h = ground arith

-- The decoder joins the two bytes again.
abbrev joins : ℕ → Bool
joins u = bit_or (bit_and (two_bytes u).0 0x1F * 64) (bit_and (two_bytes u).1 0x3F) == u

-- The first byte of two, and of three, is in the range that the decoder tests.
abbrev leads_two : ℕ → Bool
leads_two u = ltb u 0x80 || (leb 0x80 (two_bytes u).0 && leb (two_bytes u).0 0xDF)

abbrev leads_four : ℕ → Bool
leads_four k = leb 0xF0 (bit_or k 0xF0) && leb (bit_or k 0xF0) 0xF7

two_table : holds_below joins 0x800 ≡ true
unfolding holds_below two_bytes
two_table = refl

two_lead : holds_below leads_two 0x800 ≡ true
unfolding holds_below two_bytes
two_lead = refl

three_lead : holds_below leads_four 8 ≡ true
unfolding holds_below
three_lead = refl

round_short :
    (u : ℕ) (rest : Bytes)
    → IsShort u
    → wide_round (bytes_of u ++ rest) ≡ store u (length (bytes_of u))
unfolding wide_round
round_short u rest (h, k) =
    ground (arith, holds_at joins 0x800 u k two_table, holds_at leads_two 0x800 u k two_lead)

round_long : (u : ℕ) (rest : Bytes) → IsLong u → wide_round (bytes_of u ++ rest) ≡ advance 4
unfolding wide_round three_bytes
round_long u rest (h, k) = ground (arith, holds_at leads_four 8 (u / 4096) (omega arith) three_lead)

IsLead : Bytes → Type 0
IsLead [] = ⊥
IsLead (c ∷ s) = c ≢ 0

bytes_of-IsLead : (u : ℕ) (rest : Bytes) → 0 < u → u < 0x8000 → IsLead (bytes_of u ++ rest)
unfolding IsLead three_bytes
bytes_of-IsLead u rest h k = ground (
  arith,
  holds_at leads_two 0x800 u,
  two_lead,
  holds_at leads_four 8 (u / 4096) (omega arith) three_lead,
)

module _ (round : Bytes → Round) (f n : ℕ) (out : Bytes) where
  decode_store :
      (s : Bytes) (v k : ℕ)
      → IsLead s
      → length out < n
      → round s ≡ store v k
      → decode_loop round (suc f) s n out ≡ decode_loop round f (drop k s) n (out ++ v ∷ [])
  unfolding IsLead decode_loop
  decode_store [] v k h room e = absurd h
  decode_store (c ∷ s) v k h room e = rw e (ground arith)

  decode_advance :
      (s : Bytes) (k : ℕ)
      → IsLead s
      → length out < n
      → round s ≡ advance k
      → decode_loop round (suc f) s n out ≡ decode_loop round f (drop k s) n out
  unfolding IsLead decode_loop
  decode_advance [] k h room e = absurd h
  decode_advance (c ∷ s) k h room e = rw e (ground arith)

-- The decoder takes the short characters off the front, one a round.
decode_short :
    (us : List ℕ) (tail : Bytes) (g n : ℕ) (out : Bytes)
    → All IsShort us
    → length out + length us ≤ n
    → decode_loop wide_round (length us + g) (encoded us ++ tail) n out
      ≡ decode_loop wide_round g tail n (out ++ us)
decode_short [] tail g n out h room = rw (append-nil, zero-add)
decode_short (u ∷ us) tail g n out (hu, h) room =
    let fuel : length (u ∷ us) + g ≡ suc (length us + g) = omega arith in
    let rest = encoded us ++ tail in
    rw (fuel, append_assoc (bytes_of u) (encoded us) tail)
      (decode_store wide_round (length us + g) n out (bytes_of u ++ rest) u (length (bytes_of u))
          (bytes_of-IsLead u rest hu.0 (omega arith)) (omega arith) (round_short u rest hu)
        ∙ rw (drop-append (bytes_of u) rest) (
            decode_short us tail g n (out ++ u ∷ []) h (omega (arith, length-append out (u ∷ [])))
            ∙ rw (append_assoc out (u ∷ []) us)))

module _ (f n count wcv : ℕ) (src rest out bytes : Bytes)
    (read : read_char true src ≡ some (wcv, rest))
    (stored : put_char wcv (length out) n false ≡ put bytes) where
  encode_more :
      wcv ≢ 0
      → to_utf8_loop (suc f) src n true false out count
        ≡ to_utf8_loop f rest n true false (out ++ bytes) (count + 1)
  unfolding to_utf8_loop store_put
  encode_more h = ground (arith, read, stored)

  encode_last :
      wcv ≡ 0
      → to_utf8_loop (suc f) src n true false out count
        ≡ done (finish wcv (out ++ bytes) (count + 1))
  unfolding to_utf8_loop store_put
  encode_last h = ground (arith, read, stored)

length-bytes_of : (u : ℕ) → length (bytes_of u) ≤ 3
length-bytes_of u = ground arith

put_nul : (j n : ℕ) → j < n → put_char 0 j n false ≡ put (0 ∷ [])
unfolding put_char
put_nul j n h = ground arith

-- The encoder, over characters that it can store.
encode_each :
    (us : List ℕ) (f n count : ℕ) (out : Bytes)
    → All (λ u. (0 < u) × (u < 0x8000)) us
    → length us < f
    → length out + 3 * length us < n
    → to_utf8_loop f (wide_array us) n true false out count
      ≡ done (finish 0 (out ++ (encoded us ++ 0 ∷ [])) (count + (length us + 1)))
encode_each us zero n count out h hf room = absurd (omega arith)
encode_each [] (suc f) n count out h hf room =
    encode_last f n count 0 (0 ∷ 0 ∷ []) [] out (0 ∷ []) (unfold read_char in refl)
      (put_nul (length out) n (omega arith)) refl
encode_each (u ∷ us) (suc f) n count out (hu, h) hf room =
    let more : count + 1 + (length us + 1) ≡ count + (length (u ∷ us) + 1) = omega arith in
    encode_more f n count u (wide_array (u ∷ us)) (wide_array us) out (bytes_of u) (read_wide u _)
      (put_bytes u (length out) n hu.1 (omega arith)) (omega arith)
    ∙ encode_each us f n (count + 1) (out ++ bytes_of u) h (omega arith)
        (omega (arith, length-append out (bytes_of u), length-bytes_of u))
    ∙ simp append_assoc (rw more)

-- A wide text stored by `strToUtf8` and read back by `Utf8ToWide`.
abbrev pub recode : ℕ → ℕ → ℕ → List ℕ → Outcome Bytes
recode fuel dest_size wide_size us = elim (str_to_utf8 (wide_array us) dest_size true) [
  | done c ↦ utf8_to_wide fuel c.written wide_size
  | out_of_range ↦ out_of_range
  | out_of_fuel ↦ out_of_fuel
]

length-wide_array : (us : List ℕ) → length (wide_array us) ≡ 2 * length us + 2
length-wide_array [] = omega arith
length-wide_array (u ∷ us) = omega (arith, length-wide_array us)

str_to_utf8_lem :
    (us : List ℕ) (dest_size : ℕ)
    → All (λ u. (0 < u) × (u < 0x8000)) us
    → 3 * length us + 1 < dest_size
    → str_to_utf8 (wide_array us) dest_size true
      ≡ done (finish 0 (encoded us ++ 0 ∷ []) (0 + (length us + 1)))
unfolding str_to_utf8
str_to_utf8_lem us dest_size h room =
    encode_each us (suc (length (wide_array us))) (dest_size - 1) 0 [] h
      (omega (arith, length-wide_array us)) (omega arith)

decode_end : (f n : ℕ) (out : Bytes) → decode_loop wide_round (suc f) (0 ∷ []) n out ≡ done out
unfolding decode_loop
decode_end f n out = refl

decode_beyond : (f n : ℕ) (out : Bytes) → decode_loop wide_round (suc f) [] n out ≡ out_of_range
unfolding decode_loop
decode_beyond f n out = refl

weaken : (us : List ℕ) → All IsShort us → All (λ u. (0 < u) × (u < 0x8000)) us
weaken [] h = tt
weaken (u ∷ us) (hu, h) = ((hu.0, omega arith), weaken us h)

decode_each :
    (us : List ℕ) (tail : Bytes) (g fuel wide_size : ℕ)
    → All IsShort us
    → length us < wide_size
    → fuel ≡ length us + g
    → utf8_to_wide fuel (encoded us ++ tail) wide_size
      ≡ decode_loop wide_round g tail (wide_size - 1) us
unfolding utf8_to_wide
decode_each us tail g fuel wide_size h wide hf =
    rw hf (decode_short us tail g (wide_size - 1) [] h (omega arith))

-- A wide text whose characters need at most two bytes is given back, if the two buffers have room
-- for it and the decoder a round for each character and one more.
pub recode_short :
    (us : List ℕ) (fuel dest_size wide_size : ℕ)
    → All IsShort us
    → 3 * length us + 1 < dest_size
    → length us < wide_size
    → length us < fuel
    → recode fuel dest_size wide_size us ≡ done us
unfolding finish
recode_short us fuel dest_size wide_size h room wide hf =
    rw (str_to_utf8_lem us dest_size (weaken us h) room, recode)
      (decode_each us (0 ∷ []) (suc (fuel - length us - 1)) fuel wide_size h wide (omega arith)
        ∙ decode_end (fuel - length us - 1) (wide_size - 1) us)

encoded-append : (us vs : List ℕ) → encoded (us ++ vs) ≡ encoded us ++ encoded vs
encoded-append [] vs = refl
encoded-append (u ∷ us) vs = rw (encoded-append us vs, append_assoc)

drop_long : (u : ℕ) → IsLong u → drop 4 (bytes_of u ++ 0 ∷ []) ≡ []
drop_long u (h, k) = ground arith

-- If a last character from 0x800 on, and below 0x8000, stands behind such a text, the decoder
-- skips the closing NUL with it and reads behind the end of what was stored.
pub recode_long :
    (us : List ℕ) (u fuel dest_size wide_size : ℕ)
    → All IsShort us
    → IsLong u
    → 3 * length us + 4 < dest_size
    → length us + 1 < wide_size
    → length us + 1 < fuel
    → recode fuel dest_size wide_size (us ++ u ∷ []) ≡ out_of_range
unfolding finish
recode_long us u fuel dest_size wide_size h hu room wide hf =
    let g = fuel - length us - 2 in
    let size = length-append us (u ∷ []) in
    let text : encoded (us ++ u ∷ []) ++ 0 ∷ [] ≡ encoded us ++ (bytes_of u ++ 0 ∷ []) =
      rw (encoded-append us (u ∷ [])) (simp (append_assoc, append-nil)) in
    rw
      (
        str_to_utf8_lem (us ++ u ∷ []) dest_size
            (All-append _ us (u ∷ []) (weaken us h) ((omega arith, hu.1), tt)) (omega arith),
        recode,
        text,
      )
      (decode_each us (bytes_of u ++ 0 ∷ []) (suc (suc g)) fuel wide_size h (omega arith)
          (omega arith)
        ∙ decode_advance wide_round (suc g) (wide_size - 1) us (bytes_of u ++ 0 ∷ []) 4
            (bytes_of-IsLead u (0 ∷ []) (omega arith) hu.1) (omega arith) (round_long u (0 ∷ []) hu)
        ∙ rw (drop_long u hu) (decode_beyond g (wide_size - 1) us))
