-- ===== src/Parsers/Numbers/Tests.antt =====
-- Tests of the conversions.
use tv_now.Common.{◌≡◌, refl, true, false, codes, arith}
use tv_now.Common.Int.{pos, negsuc}
use tv_now.Parsers.Packets.{decimal}
use tv_now.Parsers.Numbers.{get_long, get_ulong}
use tv_now.Parsers.Numbers.RoundTrip.{get_long-decimal}

get_long_signed :
    get_long false (codes " -1800")
    ≡ record { value = negsuc 1799; accepted = true; erange = false }
unfolding get_long
get_long_signed = refl

get_long_rest :
    get_long false (codes "18a") ≡ record { value = pos 18; accepted = false; erange = false }
unfolding get_long
get_long_rest = refl

get_ulong_stale :
    get_ulong true (codes "5") ≡ record { value = pos 5; accepted = false; erange = true }
unfolding get_ulong
get_ulong_stale = refl

get_long-decimal_example :
    (get_long false (decimal (pos 1800))
      ≡ record { value = pos 1800; accepted = true; erange = false })
    × (get_ulong false (decimal (pos 1800))
        ≡ record { value = pos 1800; accepted = true; erange = false })
    × ((get_long true (codes "5")).accepted ≡ false)
    × ((get_long true (codes "5")).erange ≡ true)
    × ((get_ulong true (codes "5")).accepted ≡ false)
    × ((get_ulong true (codes "5")).erange ≡ true)
get_long-decimal_example = get_long-decimal 1800 (codes "5") (omega arith)
