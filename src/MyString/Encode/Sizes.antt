-- ===== src/MyString/Encode/Sizes.antt =====
-- What `_strToUtf8` stores stays in the buffer, and `strUtf8Len` counts it.
use tv_now.Common.{
  ==_iff, ◌⊎◌, ◌≢◌, ltb, ◌&&◌, choose, Option-cases, ℕ, zero, suc, ◌+◌, ◌-◌, ◌≤◌, ◌<◌, ◌≡◌, refl,
  ap, Bool, true, false, Option, none, some, [], ◌∷◌, ◌++◌, Bytes, arith, length, length-append,
  ◌==◌, Bool-cases, inl, inr, All,
}
use tv_now.Common.Int.{sub_ℕ}
use tv_now.MyString.Decode.{Outcome, done, out_of_range, out_of_fuel}
use tv_now.MyString.Encode.{
  read_char, char_len, utf8_len_loop, count_char, str_utf8_len, percent_hex, two_bytes, three_bytes,
  store_put, Put, put, omit, full, put_one, put_two, put_three, put_char, Converted, finish,
  to_utf8_loop, convert,
}

-- The loop ends, and what it has stored fits.
abbrev pub Fits : ℕ → Outcome Converted → Type 0
Fits n (done c) = length c.written ≤ n
Fits n out_of_range = Unit
Fits n out_of_fuel = ⊥

-- What is put leaves room for the closing NUL.
abbrev PutFits : ℕ → ℕ → Put → Type 0
PutFits j n (put bytes) = j + length bytes ≤ n
PutFits j n omit = Unit
PutFits j n full = Unit

length-percent_hex : (v : ℕ) → length (percent_hex v) ≤ 3
unfolding percent_hex
length-percent_hex v = ground arith

put_one-PutFits : (wcv j n : ℕ) (uri : Bool) → j < n → PutFits j n (put_one wcv j n uri)
unfolding put_one
put_one-PutFits wcv j n uri h = ground (arith, length-percent_hex wcv)

put_two-PutFits : (wcv j n : ℕ) (uri : Bool) → j + 1 < n → PutFits j n (put_two wcv j n uri)
unfolding put_two
put_two-PutFits wcv j n uri h =
    let (x, y) = two_bytes wcv in
    ground (
      arith,
      length-append (percent_hex x) (percent_hex y),
      length-percent_hex x,
      length-percent_hex y,
    )

put_three-PutFits : (wcv j n : ℕ) (uri : Bool) → j + 2 < n → PutFits j n (put_three wcv j n uri)
unfolding put_three
put_three-PutFits wcv j n uri h =
    let (x, y, z) = three_bytes wcv in
    ground (
      arith,
      length-append (percent_hex x) (percent_hex y ++ percent_hex z),
      length-append (percent_hex y) (percent_hex z),
      length-percent_hex x,
      length-percent_hex y,
      length-percent_hex z,
    )

room_after : (wcv limit j n : ℕ) → (ltb wcv limit && ltb j n) ≡ true → j < n
room_after wcv limit j n h = ground arith

put_char-PutFits : (wcv j n : ℕ) (uri : Bool) → PutFits j n (put_char wcv j n uri)
unfolding put_char
put_char-PutFits wcv j n uri =
    choose P _ _ _ (λ h. put_one-PutFits wcv j n uri (room_after wcv 0x80 j n h))
      (λ _.
        choose P _ _ _ (λ h. put_two-PutFits wcv j n uri (room_after wcv 0x800 (j + 1) n h))
          (λ _.
            choose P _ _ _ (λ h. put_three-PutFits wcv j n uri (room_after wcv 0x10000 (j + 2) n h))
              (λ _. choose P (ltb (j + 3) n) omit full (λ _. tt) (λ _. tt))))
  where
    P : Put → Type 0
    P = PutFits j n

read_char_shorter :
    (is_wide : Bool) (src : Bytes) (wcv : ℕ) (rest : Bytes)
    → read_char is_wide src ≡ some (wcv, rest)
    → length rest < length src
unfolding read_char
read_char_shorter is_wide [] wcv rest h = cc
read_char_shorter false (b ∷ s) wcv rest h = ground arith
read_char_shorter true (b ∷ []) wcv rest h = cc
read_char_shorter true (b ∷ c ∷ s) wcv rest h = ground arith

finish-Fits :
    (wcv n cc : ℕ) (out : Bytes) → length out ≤ n → length (finish wcv out cc).written ≤ n + 1
unfolding finish
finish-Fits wcv n cc out h = ground (arith, length-append out (0 ∷ []))

store_put-Fits :
    (n wcv cc : ℕ) (out : Bytes) (p : Put) (more : Bytes → ℕ → Outcome Converted)
    → ((out' : Bytes) (cc' : ℕ) → length out' ≤ n → Fits (n + 1) (more out' cc'))
    → length out ≤ n
    → PutFits (length out) n p
    → Fits (n + 1) (store_put more wcv out cc p)
unfolding store_put
store_put-Fits n wcv cc out (put bytes) more ih ho hp =
    let fits : length (out ++ bytes) ≤ n = omega (arith, length-append out bytes) in
    choose (Fits (n + 1)) (wcv == 0) _ _ (λ _. finish-Fits wcv n (cc + 1) (out ++ bytes) fits)
      (λ _. ih (out ++ bytes) (cc + 1) fits)
store_put-Fits n wcv cc out omit more ih ho hp =
    choose (Fits (n + 1)) (wcv == 0) _ _ (λ _. finish-Fits wcv n cc out ho) (λ _. ih out cc ho)
store_put-Fits n wcv cc out full more ih ho hp = finish-Fits wcv n cc out ho

to_utf8_loop-Fits :
    (f : ℕ) (src : Bytes) (n : ℕ) (is_wide uri : Bool) (out : Bytes) (cc : ℕ)
    → length src < f
    → length out ≤ n
    → Fits (n + 1) (to_utf8_loop f src n is_wide uri out cc)
unfolding to_utf8_loop
to_utf8_loop-Fits zero src n is_wide uri out count hf ho = absurd (omega arith)
to_utf8_loop-Fits (suc f) src n is_wide uri out count hf ho =
    elim (Option-cases (read_char is_wide src)) [
      | inl e ↦ rw (e, Fits) tt
      | inr ((wcv, rest), e) ↦
          let shorter = read_char_shorter is_wide src wcv rest e in
          rw (e, Fits)
            (store_put-Fits n wcv count out _ _
              (λ out' cc' h. to_utf8_loop-Fits f rest n is_wide uri out' cc' (omega arith) h) ho
              (put_char-PutFits wcv (length out) n uri))
    ]

-- Whatever the source array holds, `_strToUtf8` ends within its fuel, and what it has stored by
-- then, a closing NUL included, is within a buffer of `destSize` bytes, if that is not 0.
pub convert-Fits :
    (src : Bytes) (dest_size : ℕ) (is_wide uri : Bool)
    → 0 < dest_size
    → Fits dest_size (convert src dest_size is_wide uri)
unfolding convert
convert-Fits src dest_size is_wide uri h =
    let e : dest_size - 1 + 1 ≡ dest_size = omega arith in
    rw e at (
      to_utf8_loop-Fits (suc (length src)) src (dest_size - 1) is_wide uri [] 0 (omega arith)
        (omega arith))

-- The bytes of a character without escapes number what `strUtf8Len` counts, where there is room.
abbrev IsPut : ℕ → Put → Type 0
IsPut n (put bytes) = length bytes ≡ n
IsPut n omit = ⊥
IsPut n full = ⊥

put_char-IsPut :
    (wcv j n : ℕ)
    → wcv < 0x10000
    → j + char_len wcv false ≤ n
    → IsPut (char_len wcv false) (put_char wcv j n false)
unfolding put_char char_len
put_char-IsPut wcv j n hw h = ground arith

abbrev pub IsBytes : Bytes → Type 0
IsBytes = All (λ b. b < 256)

abbrev IsRead : Option (ℕ × Bytes) → Type 0
IsRead none = Unit
IsRead (some (wcv, rest)) = (wcv < 0x10000) × IsBytes rest

read_char-IsRead : (is_wide : Bool) (src : Bytes) → IsBytes src → IsRead (read_char is_wide src)
unfolding read_char
read_char-IsRead is_wide [] h = tt
read_char-IsRead false (b ∷ s) (hb, hs) = (omega arith, hs)
read_char-IsRead true (b ∷ []) h = tt
read_char-IsRead true (b ∷ c ∷ s) (hb, (hc, hs)) = (omega arith, hs)

-- The conversion succeeds, stores `n` bytes and returns their number less the NUL.
abbrev pub IsSized : ℕ → Outcome Converted → Type 0
IsSized n (done c) = (length c.written ≡ n) × (c.result ≡ sub_ℕ n 1)
IsSized n out_of_range = ⊥
IsSized n out_of_fuel = ⊥

-- What a finished count says of a round: it read the NUL and stopped, or went on.
abbrev Counted : (Bytes → ℕ → Outcome ℕ) → Bool → ℕ → ℕ → ℕ → Bytes → Type 0
Counted more uri j n wcv rest =
    ((wcv ≡ 0) × (j + char_len wcv uri ≡ n))
    ⊎ ((wcv ≢ 0) × (more rest (j + char_len wcv uri) ≡ done n))

count_char-Counted :
    (more : Bytes → ℕ → Outcome ℕ) (uri : Bool) (j n : ℕ) (r : Option (ℕ × Bytes))
    → count_char more uri j r ≡ done n
    → (wcv : ℕ) × (rest : Bytes) × (r ≡ some (wcv, rest)) × Counted more uri j n wcv rest
unfolding count_char
count_char-Counted more uri j n none h = cc
count_char-Counted more uri j n (some (wcv, rest)) h = elim (Bool-cases (wcv == 0)) [
  | inl e ↦ (wcv, rest, refl, inl (ground arith, ground arith))
  | inr e ↦ (wcv, rest, refl, inr (ground arith, ground arith))
]

le-len_loop :
    (f : ℕ) (src : Bytes) (is_wide uri : Bool) (j n : ℕ)
    → utf8_len_loop f src is_wide uri j ≡ done n
    → j ≤ n
unfolding utf8_len_loop
le-len_loop zero src is_wide uri j n h = cc
le-len_loop (suc f) src is_wide uri j n h =
    let (wcv, rest, e, c) = count_char-Counted _ uri j n (read_char is_wide src) h in
    elim c [
      | inl (z, k) ↦ omega arith
      | inr (z, k) ↦ omega (arith, le-len_loop f rest is_wide uri _ n k)
    ]

store_put-IsSized :
    (wcv j n d count : ℕ) (out : Bytes) (p : Put) (more : Bytes → ℕ → Outcome Converted)
    → IsPut d p
    → length out ≡ j
    → ((wcv ≡ 0) × (j + d ≡ n))
      ⊎ ((wcv ≢ 0) × ((out' : Bytes) (cc' : ℕ) → length out' ≡ j + d → IsSized n (more out' cc')))
    → IsSized n (store_put more wcv out count p)
unfolding store_put finish
store_put-IsSized wcv j n d count out (put bytes) more hp ho (inl (z, e)) =
    let size : length (out ++ bytes) ≡ n = omega (arith, length-append out bytes) in
    rw z (size, ap (λ (k : ℕ). sub_ℕ k 1) size)
store_put-IsSized wcv j n d count out (put bytes) more hp ho (inr (z, ih)) =
    choose (IsSized n) (wcv == 0) _ _ (λ t. absurd (z ((==_iff wcv 0).0 t)))
      (λ _. ih (out ++ bytes) (count + 1) (omega (arith, length-append out bytes)))
store_put-IsSized wcv j n d count out omit more hp ho next = absurd hp
store_put-IsSized wcv j n d count out full more hp ho next = absurd hp

to_utf8_loop-IsSized :
    (f : ℕ) (src : Bytes) (is_wide : Bool) (j n dest_len count : ℕ) (out : Bytes)
    → IsBytes src
    → utf8_len_loop f src is_wide false j ≡ done n
    → length out ≡ j
    → n ≤ dest_len
    → IsSized n (to_utf8_loop f src dest_len is_wide false out count)
unfolding to_utf8_loop utf8_len_loop
to_utf8_loop-IsSized zero src is_wide j n dest_len count out hb h ho hn = cc
to_utf8_loop-IsSized (suc f) src is_wide j n dest_len count out hb h ho hn =
    let (wcv, rest, e, c) = count_char-Counted _ false j n (read_char is_wide src) h in
    let (hw, hr) : (wcv < 0x10000) × IsBytes rest = rw e at (read_char-IsRead is_wide src hb) in
    let size = char_len wcv false in
    let room : j + size ≤ n = elim c [
      | inl (z, k) ↦ omega arith
      | inr (z, k) ↦ omega (arith, le-len_loop f rest is_wide false (j + size) n k)
    ] in
    rw (e, IsSized)
      (store_put-IsSized wcv j n size count out _ _
        (put_char-IsPut wcv (length out) dest_len hw (omega arith)) ho
        (elim c [
          | inl last ↦ inl last
          | inr (z, k) ↦ inr (
            z,
            λ out' cc' size'.
                to_utf8_loop-IsSized f rest is_wide (j + size) n dest_len cc' out' hr k size' hn,
          )
        ]))

-- Without escapes, a buffer with one byte more than `strUtf8Len` counts is enough: `_strToUtf8`
-- then stores exactly the bytes counted, the closing NUL included, and returns their number less
-- the NUL, for byte and wide texts.
pub convert-str_utf8_len :
    (src : Bytes) (dest_size n : ℕ) (is_wide : Bool)
    → IsBytes src
    → str_utf8_len src is_wide false ≡ done n
    → n < dest_size
    → IsSized n (convert src dest_size is_wide false)
unfolding convert str_utf8_len
convert-str_utf8_len src dest_size n is_wide hb h hn =
    to_utf8_loop-IsSized (suc (length src)) src is_wide 0 n (dest_size - 1) 0 [] hb h refl
      (omega arith)
