-- ===== src/Web/Query/Decode.antt =====
-- Parameters as a browser encodes them (`encodeURIComponent`), read by `get_query_param` of
-- src/web/bdview_web.cpp.
use bdtrace.Common.{
  ℕ, ◌+◌, ◌/◌, ◌%◌, ◌<◌, ◌≡◌, refl, ap, ◌∙◌, sym, Bool, true, false, ◌&&◌, ◌||◌, [], ◌∷◌, ◌++◌,
  some, ◌==◌, if◌then◌else◌, Text, ltb, leb, arith, Bool-cases, inl, inr, All,
}
use mathlib.Core.List.{append_assoc}
use bdtrace.Web.Query.{
  starts_with, drop_bytes, find_after, until, hex_value, hex_byte, two_follow, escaped_byte,
  url_decode, get_query_param,
}

-- Letters, digits and - _ . ! ~ * ' ( ) stand for themselves.
unfoldable pub is_unreserved : ℕ → Bool
is_unreserved c =
    (leb 48 c && leb c 57)
    || (leb b'A' c && leb c b'Z')
    || (leb b'a' c && leb c b'z')
    || c == b'-'
    || c == b'_'
    || c == b'.'
    || c == b'!'
    || c == b'~'
    || c == b'*'
    || (leb 39 c && leb c 41)

unfoldable pub upper_digit : ℕ → ℕ
upper_digit d = if ltb d 10 then 48 + d else 55 + d

unfoldable pub encode_byte : ℕ → Text
encode_byte c =
    if is_unreserved c then c ∷ [] else b'%' ∷ upper_digit (c / 16) ∷ upper_digit (c % 16) ∷ []

unfoldable pub url_encode : Text → Text
url_encode [] = []
url_encode (c ∷ s) = encode_byte c ++ url_encode s

abbrev pub Bytes : Text → Type 0
Bytes s = All (λ c. c < 256) s

-- The parameter ends here: at the end of the query or at an ampersand.
unfoldable pub ends_param : Text → Bool
ends_param [] = true
ends_param (c ∷ s) = c == b'&'

hex_value-upper : (d : ℕ) → d < 16 → hex_value (upper_digit d) ≡ some d
unfolding hex_value upper_digit
hex_value-upper d h = ground arith

hex_byte-upper : (c : ℕ) → c < 256 → hex_byte (upper_digit (c / 16)) (upper_digit (c % 16)) ≡ c
unfolding hex_byte
hex_byte-upper c h =
    rw (hex_value-upper (c / 16) (omega arith), hex_byte)
      (rw (hex_value-upper (c % 16) (omega arith)) (omega arith))

is_unreserved-plain :
    (c : ℕ)
    → is_unreserved c ≡ true
    → ((c == b'%') ≡ false) × ((c == b'+') ≡ false) × ((c == b'&') ≡ false)
unfolding is_unreserved
is_unreserved-plain c h = (ground arith, ground arith, ground arith)

upper-plain : (d : ℕ) → d < 16 → (upper_digit d == b'&') ≡ false
unfolding upper_digit
upper-plain d h = ground arith

until-encode :
    (s rest : Text)
    → Bytes s
    → ends_param rest ≡ true
    → until b'&' (url_encode s ++ rest) ≡ url_encode s
unfolding until url_encode ends_param encode_byte
until-encode [] [] h e = refl
until-encode [] (c ∷ rest) h e = rw e refl
until-encode (c ∷ s) rest h e = elim (Bool-cases (is_unreserved c)) [
  | inl u ↦ rw (u, (is_unreserved-plain c u).2, until-encode s rest h.1 e) refl
  | inr u ↦
      rw
        (
          u,
          upper-plain (c / 16) (omega (arith, h.0)),
          upper-plain (c % 16) (omega arith),
          until-encode s rest h.1 e,
        )
        refl
]

url_decode-encode : (s : Text) → Bytes s → url_decode 0 (url_encode s) ≡ s
unfolding url_decode url_encode encode_byte two_follow escaped_byte
url_decode-encode [] h = refl
url_decode-encode (c ∷ s) h = elim (Bool-cases (is_unreserved c)) [
  | inl u ↦
      rw (u, (is_unreserved-plain c u).0, (is_unreserved-plain c u).1, url_decode-encode s h.1) refl
  | inr u ↦ rw (u, hex_byte-upper c h.0, url_decode-encode s h.1) refl
]

starts_with_self : (k s : Text) → starts_with (k ++ s) k ≡ true
unfolding starts_with
starts_with_self [] s = refl
starts_with_self (c ∷ k) s = ground (arith, starts_with_self k s)

drop_bytes_self : (k s : Text) → drop_bytes k (k ++ s) ≡ s
unfolding drop_bytes
drop_bytes_self [] s = refl
drop_bytes_self (c ∷ k) s = drop_bytes_self k s

find_after_self : (k s : Text) → find_after k (k ++ s) ≡ some s
unfolding find_after starts_with drop_bytes
find_after_self [] [] = refl
find_after_self [] (c ∷ s) = refl
find_after_self (c ∷ k) s = rw (starts_with_self (c ∷ k) s, drop_bytes_self (c ∷ k) s) refl

-- A parameter that stands first in the query and was encoded by the browser is read as the value that
-- was encoded, byte for byte, whatever parameters follow it.
pub get_query_param-encode :
    (name value rest : Text)
    → Bytes value
    → ends_param rest ≡ true
    → get_query_param (name ++ b'=' ∷ (url_encode value ++ rest)) name ≡ value
unfolding get_query_param
get_query_param-encode name value rest h e =
    let found =
      ap (find_after (name ++ b'=' ∷ []))
        (sym (append_assoc name (b'=' ∷ []) (url_encode value ++ rest)))
      ∙ find_after_self (name ++ b'=' ∷ []) (url_encode value ++ rest) in
    rw (found, get_query_param)
      (ap (url_decode 0) (until-encode value rest h e) ∙ url_decode-encode value h)
