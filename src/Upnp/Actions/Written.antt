-- ===== src/Upnp/Actions/Written.antt =====
-- What a control point writes into a body: escaped texts and decimals have no angle brackets.
use tv_now.Common.{
  ℕ, zero, suc, ◌+◌, ◌/◌, ◌%◌, ◌<◌, Bool, true, false, ◌||◌, List, [], ◌∷◌, ◌≡◌, ◌≢◌, refl, arith,
  Bytes, codes, take-append, All, All-append, Lacks, ◌==◌, ltb, choose,
}
use tv_now.Parsers.XmlEscape.{escape_byte, xml_escape}
use tv_now.Parsers.XmlEscape.RoundTrip.{escaped, xml_escape_loop-escaped, unescaped}
use tv_now.Parsers.Packets.{decimal_onto}
use tv_now.Upnp.Actions.{unescaped_text}

-- Whether a byte stands in a text.
abbrev pub has : ℕ → Bytes → Bool
has b [] = false
has b (c ∷ s) = c == b || has b s

pub has-Lacks : (b : ℕ) (s : Bytes) → has b s ≡ false → Lacks b s
has-Lacks b [] h = tt
has-Lacks b (c ∷ s) h = let ne : c ≢ b = ground arith in (ne, has-Lacks b s (ground arith))

-- Whether it stands in any of some texts.
abbrev pub has_any : ℕ → List Bytes → Bool
has_any b [] = false
has_any b (s ∷ ss) = has b s || has_any b ss

pub has_any-Lacks : (b : ℕ) (ss : List Bytes) → has_any b ss ≡ false → All (Lacks b) ss
has_any-Lacks b [] h = tt
has_any-Lacks b (s ∷ ss) h = (has-Lacks b s (ground arith), has_any-Lacks b ss (ground arith))

-- `<` and `>`.
abbrev pub angle : Bool → ℕ
angle true = b'<'
angle false = b'>'

-- A text of entities or the byte itself.
entity-Lacks :
    (b c : ℕ)
    → has b (codes "&quot;&apos;&lt;&gt;&amp;") ≡ false
    → ((c == b'<') ≡ false → (c == b'>') ≡ false → c ≢ b)
    → Lacks b (escape_byte c)
unfolding escape_byte
entity-Lacks b c h k =
    choose (Lacks b) (c == b'"') _ _ (λ _. has-Lacks b (codes "&quot;") (ground arith))
      λ _.
        choose (Lacks b) (c == b'\'') _ _ (λ _. has-Lacks b (codes "&apos;") (ground arith))
          λ _.
            choose (Lacks b) (c == b'<') _ _ (λ _. has-Lacks b (codes "&lt;") (ground arith))
              λ l.
                choose (Lacks b) (c == b'>') _ _ (λ _. has-Lacks b (codes "&gt;") (ground arith))
                  λ g.
                    choose (Lacks b) (c == b'&') _ _
                      (λ _. has-Lacks b (codes "&amp;") (ground arith)) λ _. (k l g, tt)

escape_byte-Lacks : (x : Bool) (c : ℕ) → Lacks (angle x) (escape_byte c)
escape_byte-Lacks true c = entity-Lacks b'<' c refl (λ l g. ground arith)
escape_byte-Lacks false c = entity-Lacks b'>' c refl (λ l g. ground arith)

escaped-Lacks : (x : Bool) (s : Bytes) → Lacks (angle x) (escaped s)
escaped-Lacks x [] = tt
escaped-Lacks x (c ∷ s) =
    All-append (λ d. d ≢ angle x) (escape_byte c) (escaped s) (escape_byte-Lacks x c)
      (escaped-Lacks x s)

digit_no_angle : (x : Bool) (n : ℕ) → n < 10 → b'0' + n ≢ angle x
digit_no_angle true n h = ground arith
digit_no_angle false n h = ground arith

pub decimal_onto-Lacks :
    (x : Bool) (f n : ℕ) (s : Bytes) → Lacks (angle x) s → Lacks (angle x) (decimal_onto f n s)
unfolding decimal_onto
decimal_onto-Lacks x zero n s k = k
decimal_onto-Lacks x (suc f) n s k =
    choose (Lacks (angle x)) (ltb n 10) _ _ (λ small. (digit_no_angle x n (ground arith), k))
      (λ _.
        decimal_onto-Lacks x f (n / 10) ((b'0' + n % 10) ∷ s)
          (digit_no_angle x (n % 10) (omega arith), k))

pub unescaped_text-xml_escape : (s : Bytes) → unescaped_text (xml_escape s).0 ≡ s
unfolding unescaped_text
unescaped_text-xml_escape s = let (rest, e) = unescaped s in rw e (take-append s (0 ∷ rest))

-- The text as it is written.
abbrev pub xml_text : Bytes → Bytes
xml_text s = (xml_escape s).0

pub xml_text-Lacks : (x : Bool) (s : Bytes) → Lacks (angle x) (xml_text s)
unfolding xml_escape
xml_text-Lacks x s = rw (xml_escape_loop-escaped s []) (escaped-Lacks x s)
