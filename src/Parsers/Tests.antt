-- ===== src/Parsers/Tests.antt =====
-- libIWeb/ILibParsers.c, run on concrete texts.
use tv_now.Common.{
  ◌≡◌, ◌≢◌, refl, [], ◌∷◌, ◌++◌, List, Bytes, codes, take, drop, length, arith, All, Lacks, ap,
}
use tv_now.Parsers.Split.{parse_string, parse_string_adv, texts}
use tv_now.Parsers.Split.Quoted.{IsPlain, parse_string_adv-parse_string}
use tv_now.Parsers.Split.Rejoin.{parse_string-join}
use tv_now.Parsers.Split.RoundTrip.{join-parse_string}
use tv_now.Parsers.Split.Rounds.{join}
use tv_now.Parsers.XmlEscape.{xml_escape, xml_escape_length, in_place_xml_unescape}
use tv_now.Parsers.XmlEscape.RoundTrip.{
  xml_escape_length-xml_escape, in_place_xml_unescape-xml_escape,
}

abbrev tag : Bytes
tag = codes "<a b=\"1\">&'"

abbrev path : Bytes
path = codes "a--bc--d"

abbrev letters : List Bytes
letters = codes "a" ∷ codes "b" ∷ codes "c" ∷ []

-- A quoted delimiter does not split; the one that stands behind the closing quote does.
adv_test :
    texts (parse_string_adv (codes "a='1,2',b") 0 9 (codes ",")) ≡ codes "a='1,2'" ∷ codes "b" ∷ []
unfolding parse_string_adv
adv_test = refl

in_place_xml_unescape-xml_escape_example :
    (take 12 (in_place_xml_unescape (xml_escape tag).0).0 ≡ tag ++ 0 ∷ [])
    × ((in_place_xml_unescape (xml_escape tag).0).1 ≡ 11)
in_place_xml_unescape-xml_escape_example = in_place_xml_unescape-xml_escape tag

xml_escape_length-xml_escape_run :
    (xml_escape_length tag ≡ length (xml_escape tag).0)
    × ((xml_escape tag).1 ≡ xml_escape_length tag)
xml_escape_length-xml_escape_run = xml_escape_length-xml_escape tag

join-parse_string_run :
    join (codes "--") (texts (parse_string path 0 8 (codes "--"))) ≡ take 8 (drop 0 path)
join-parse_string_run =
    join-parse_string (codes "--") path 0 8 (omega arith) (omega arith) (omega arith)

letters_lem : letters ≢ []
letters_lem e = let n : 3 ≡ 0 = ap length e in omega (arith, n)

letters-Lacks : All (Lacks b'-') letters
letters-Lacks =
    ((λ e. omega (arith, e), tt), ((λ e. omega (arith, e), tt), ((λ e. omega (arith, e), tt), tt)))

parse_string-join_example : texts (parse_string (codes "/a--b--c/") 1 8 (codes "--")) ≡ letters
parse_string-join_example =
    parse_string-join b'-' (codes "-") (codes "/") (codes "/") letters letters_lem letters-Lacks

path-IsPlain : All IsPlain (codes "a,b")
path-IsPlain = (
  (λ e. omega (arith, e), λ e. omega (arith, e)),
  (
    (λ e. omega (arith, e), λ e. omega (arith, e)),
    ((λ e. omega (arith, e), λ e. omega (arith, e)), tt),
  ),
)

parse_string_adv-parse_string_run :
    parse_string_adv (codes "a,b") 0 3 (codes ",") ≡ parse_string (codes "a,b") 0 3 (codes ",")
parse_string_adv-parse_string_run =
    parse_string_adv-parse_string (codes "a,b") 0 3 (codes ",") path-IsPlain
