-- ===== src/Didl/Escape/Twice.antt =====
-- Escaping twice in one pass.
use tv_now.Common.{
  ℕ, ◌≡◌, ◌∙◌, refl, sym, [], ◌∷◌, ◌++◌, Bytes, arith, length, length-append, append_assoc,
  append-nil,
}
use tv_now.Didl.Escape.{
  double_entity_length, double_escape_length_loop, double_escape_length, double_escape_byte,
  double_escape_loop, double_escape,
}
use tv_now.Parsers.XmlEscape.{escape_byte, xml_escape}
use tv_now.Parsers.XmlEscape.RoundTrip.{escaped, xml_escape_loop-escaped}

escaped-append : (s t : Bytes) → escaped (s ++ t) ≡ escaped s ++ escaped t
escaped-append [] t = refl
escaped-append (c ∷ s) t = rw (escaped-append s t, append_assoc) refl

escaped-escape_byte : (c : ℕ) → escaped (escape_byte c) ≡ double_escape_byte c
unfolding escape_byte double_escape_byte
escaped-escape_byte c = ground arith

double_escape_loop-escaped : (s out : Bytes) → double_escape_loop s out ≡ out ++ escaped (escaped s)
unfolding double_escape_loop
double_escape_loop-escaped [] out = sym (append-nil out)
double_escape_loop-escaped (c ∷ s) out =
    rw (double_escape_loop-escaped s, escaped-append, escaped-escape_byte) (append_assoc out _ _)

length-double_escape_byte : (c : ℕ) → length (double_escape_byte c) ≡ double_entity_length c
unfolding double_escape_byte double_entity_length
length-double_escape_byte c = ground arith

length_loop-double_escape_loop :
    (s out : Bytes) → length (double_escape_loop s out) ≡ double_escape_length_loop s (length out)
unfolding double_escape_loop double_escape_length_loop
length_loop-double_escape_loop [] out = refl
length_loop-double_escape_loop (c ∷ s) out =
    rw
      (
        length_loop-double_escape_loop s (out ++ double_escape_byte c),
        length-append out (double_escape_byte c),
        length-double_escape_byte,
      )
      refl

-- The one pass of the double escape writes what `ILibXmlEscape` writes for its own output, for
-- every text, and `CdsObjectToDidl_Helper_DoubleEscapeLength` is the number of bytes written.
pub double_escape-xml_escape :
    (s : Bytes)
    → ((double_escape s).0 ≡ (xml_escape (xml_escape s).0).0)
      × ((double_escape s).1 ≡ double_escape_length s)
unfolding double_escape double_escape_length xml_escape
double_escape-xml_escape s = (
  double_escape_loop-escaped s []
      ∙ sym (rw (xml_escape_loop-escaped s []) (xml_escape_loop-escaped (escaped s) [])),
  length_loop-double_escape_loop s [],
)
