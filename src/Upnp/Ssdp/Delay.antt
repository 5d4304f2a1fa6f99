-- ===== src/Upnp/Ssdp/Delay.antt =====
-- When a search is answered.
use Prim.Native.Nat.{min}
use tv_now.Common.{
  ℕ, ◌%◌, ◌<◌, ◌≡◌, refl, false, List, [], ◌∷◌, Bytes, codes, ◌==◌, if◌then◌else◌, arith,
}
use tv_now.Common.Int.{pos}
use tv_now.MyString.Libc.{strncmp_eq, tolower}
use tv_now.Parsers.Packets.{HeaderField, decimal}
use tv_now.Parsers.Numbers.RoundTrip.{get_long-decimal}
use tv_now.Upnp.Ssdp.{division_by_zero, scheduled, read_fields, process_msearch}

-- The fields of a search, with the seconds that the answer may wait and the target.
abbrev pub search_fields : Bytes → ℕ → Bytes → List HeaderField
search_fields host mx st =
    record { field = codes "HOST"; field_data = host }
    ∷ record { field = codes "MAN"; field_data = codes "\"ssdp:discover\"" }
    ∷ record { field = codes "MX"; field_data = decimal (pos mx) }
    ∷ record { field = codes "ST"; field_data = st }
    ∷ []

same_zero : (mx : ℕ) → (min mx 10 == 0) ≡ (mx == 0)
same_zero mx = ground arith

-- `UpnpProcessMSEARCH` of a search of `*` in HTTP/1.1, with exactly the fields HOST, MAN, MX and ST in this order, whose seconds have at
-- most 10 digits, while `errno` is not ERANGE: it divides by zero if they are 0, and else the answer waits a random
-- number of seconds below them and below 10.
pub process_msearch-delay :
    (random stale mx : ℕ) (host st : Bytes)
    → mx < 10000000000
    → process_msearch random false stale (codes "*") (codes "1.1") (search_fields host mx st)
      ≡ (if mx == 0 then division_by_zero else scheduled st (random % 65536 % min mx 10))
unfolding process_msearch read_fields tolower strncmp_eq
process_msearch-delay random stale mx host st h =
    rw ((get_long-decimal mx [] h).1) (rw (same_zero mx) refl)
