-- ===== src/Web/Server/Answer.antt =====
-- Which requests keep their connection.
use tv_now.Common.{
  true, false, ◌&&◌, List, [], ◌∷◌, ◌++◌, ◌≡◌, ◌≢◌, refl, ap, Bytes, codes, ◌==◌, if◌then◌else◌,
  if_false, length, arith,
}
use tv_now.MyString.Libc.{strncasecmp_eq}
use tv_now.Parsers.Packets.{HeaderField}
use tv_now.Web.Server.{Session, is_1_0, has_token, is_persistent, request_answered}

has_token-field :
    (token : Bytes) (f : HeaderField) (before behind : List HeaderField)
    → length f.field ≢ 9
    → has_token token (before ++ (f ∷ behind)) ≡ has_token token (before ++ behind)
unfolding has_token
has_token-field token f [] behind h =
    let e : (length f.field == 9) ≡ false = ground arith in
    if_false (length f.field == 9 && strncasecmp_eq 9 f.field (codes "CONNECTION")) _ _
      (ap (λ b. b && strncasecmp_eq 9 f.field (codes "CONNECTION")) e)
has_token-field token f (g ∷ before) behind h =
    ap
      (λ later.
        if length g.field == 9 && strncasecmp_eq 9 g.field (codes "CONNECTION")
        then (if length g.field_data == length token
              && strncasecmp_eq (length token) g.field_data token
            then true
            else later)
        else later)
      (has_token-field token f before behind h)

-- `ILibWebServer_RequestAnswered` closes or keeps the connection as if a header field whose name has not
-- 9 bytes were not there; the name `Connection`, for which it means to look, has 10.
pub request_answered-field :
    (version : Bytes) (f : HeaderField) (before behind : List HeaderField) (s : Session)
    → length f.field ≢ 9
    → request_answered (record { version = version; fields = before ++ (f ∷ behind) }) s
      ≡ request_answered (record { version = version; fields = before ++ behind }) s
unfolding request_answered is_persistent is_1_0
request_answered-field version f before behind s h =
    rw
      (
        has_token-field (codes "KEEP-ALIVE") f before behind h,
        has_token-field (codes "CLOSE") f before behind h,
      )
      refl
