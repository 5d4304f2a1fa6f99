-- ===== src/Upnp/Callback.antt =====
-- UpnpMicroStack.c: how `UpnpTryToSubscribe` reads the callback URL of a subscription. The C library's
-- `inet_addr` is a parameter, and so is the byte that an unwritten place of a buffer holds; header data
-- have no NUL.
use tv_now.Common.{
  ℕ, ◌-◌, ◌%◌, Bool, Option, none, some, List, [], ◌∷◌, ◌++◌, Bytes, codes, ◌==◌, leb,
  if◌then◌else◌, length, take, drop,
}
use tv_now.Common.Int.{ℤ, pos, negsuc}
use tv_now.Parsers.Split.{Field, text, parse_string, last_result}
use tv_now.Parsers.Numbers.{get_long}

-- What the callback URL of a subscription leads to: an error reply, a copy of a negative number of
-- bytes, a second release of the results of a split, or an address, a port and a path.
pub data Callback : Type 0 where
  refused crashed freed_twice : Callback
  target : ℕ → ℕ → Bytes → Callback

-- `(unsigned short)` of a `long`.
abbrev pub to_port : ℤ → ℕ
to_port (pos n) = n % 65536
to_port (negsuc n) = 65535 - n % 65536

-- A copied byte that is a NUL ends the path.
abbrev pub stale_byte : ℕ → Bytes
stale_byte b = if b == 0 then [] else b ∷ []

-- The part behind `http://`, from its `>` cut off: the address, port and path that its fields give.
unfoldable pub callback_parts : Bool → ℕ → ℕ → Field → Field → Field → List Field → Callback
unfolding get_long
callback_parts erange stale address whole host ip [] =
    if leb whole.datalength ip.datalength
    then crashed
    else target address 80 (
        take (whole.datalength - ip.datalength - 1) (drop ip.datalength whole.start)
        ++ stale_byte stale)
callback_parts erange stale address whole host ip (g ∷ gs) =
    target address (to_port (get_long erange (text (last_result g gs))).value) (
      if whole.datalength == host.datalength
      then b'/' ∷ []
      else take (whole.datalength - host.datalength) (drop host.datalength whole.start))

-- The first result of a split.
abbrev pub first_of : List Field → Field
first_of [] = record { start = []; datalength = 0 }
first_of (f ∷ fs) = f

abbrev pub other_results : List Field → List Field
other_results [] = []
other_results (f ∷ fs) = fs

abbrev pub split_at : Field → ℕ → List Field
split_at f c = parse_string f.start 0 f.datalength (c ∷ [])

-- The `do` loop over the results behind the first: the first with an address that `inet_addr` takes. If
-- there is none, the results of the last splits, released in the loop, are released again.
unfoldable pub callback_loop : (Bytes → Option ℕ) → Bool → ℕ → List Field → Callback
unfolding parse_string callback_parts
callback_loop inet_addr erange stale [] = freed_twice
callback_loop inet_addr erange stale (f ∷ fs) =
    let whole = first_of (split_at f b'>') in
    let host = first_of (split_at whole b'/') in
    let ips = split_at host b':' in
    let later = callback_loop inet_addr erange stale fs in
    elim (inet_addr (text (first_of ips))) [
      | none ↦ later
      | some address ↦
          callback_parts erange stale address whole host (first_of ips) (other_results ips)
    ]

unfoldable pub callback_target : (Bytes → Option ℕ) → Bool → ℕ → Bytes → Callback
unfolding parse_string callback_loop
callback_target inet_addr erange stale url =
    elim (other_results (parse_string url 0 (length url) (codes "http://"))) [
      | [] ↦ refused
      | f ∷ fs ↦ callback_loop inet_addr erange stale (f ∷ fs)
    ]
