-- ===== src/Common/Headers/Tests.antt =====
-- Runs of the header pairs.
use verser.Base.{
  false, ℕ, ◌+◌, ◌≡◌, refl, ap, ◌∙◌, Text, ◌&&◌, List, [], ◌∷◌, leb, if◌then◌else◌, arith, text_eq,
  All,
}
use verser.Js.{codes}
use verser.Errors.{ok}
use verser.Common.Trim.{trim}
use verser.Common.Headers.{
  HeaderPair, is_valid_header_name, is_valid_header_value, sanitize_http2_response_header_pairs,
}
use verser.Base.Dict.{has, set, Unique}
use verser.Common.Headers.Free.{NotReserved, sanitize-NotReserved, Nominates}
use verser.Common.Headers.Entries.{object_entries, is_array_index, Plain}
use verser.Common.Headers.Records.{
  sanitize_http2_response_headers, as_record, InLower, sanitize_agrees,
}
use verser.Common.Headers.Sanitized.{IsValid, sanitize_again}

abbrev lower_unit : ℕ → ℕ
lower_unit c = if leb 65 c && leb c 90 then c + 32 else c

-- Lower case of ASCII.
abbrev lower : Text → Text
lower [] = []
lower (c ∷ s) = lower_unit c ∷ lower s

lower_twice : (s : Text) → lower (lower s) ≡ lower s
lower_twice [] = refl
lower_twice (c ∷ s) =
    let unit : lower_unit (lower_unit c) ≡ lower_unit c = ground arith in
    ap (λ d. d ∷ lower (lower s)) unit ∙ ap (◌∷◌ (lower_unit c)) (lower_twice s)

abbrev response : List HeaderPair
response =
    (codes "Content-Type", codes "text/plain")
    ∷ (codes "Connection", codes "X-Hop, close")
    ∷ (codes "x-hop", codes "1")
    ∷ (codes "Set-Cookie", codes "a=1")
    ∷ (codes "Set-Cookie", codes "b=2")
    ∷ []

abbrev sent : List HeaderPair
sent =
    (codes "content-type", codes "text/plain")
    ∷ (codes "set-cookie", codes "a=1")
    ∷ (codes "set-cookie", codes "b=2")
    ∷ []

is_accepted : sanitize_http2_response_header_pairs lower response ≡ ok sent
unfolding sanitize_http2_response_header_pairs text_eq trim
is_accepted = refl

sanitize-NotReserved_example :
    All (λ q. NotReserved q × All (λ p. ¬ Nominates lower p q.0) response) sent
sanitize-NotReserved_example = sanitize-NotReserved lower response sent is_accepted

sanitize_again_example : sanitize_http2_response_header_pairs lower sent ≡ ok sent
sanitize_again_example = sanitize_again lower lower_twice response sent is_accepted

abbrev answer : List HeaderPair
answer =
    (codes "content-type", codes "text/plain")
    ∷ (codes "connection", codes "x-hop, close")
    ∷ (codes "x-hop", codes "1")
    ∷ []

answer-IsValid : All (IsValid lower) answer
unfolding is_valid_header_name is_valid_header_value
answer-IsValid = ((refl, refl), ((refl, refl), ((refl, refl), tt)))

answer-InLower : All (InLower lower) answer
answer-InLower = (refl, (refl, (refl, tt)))

answer-Unique : Unique answer
unfolding has text_eq
answer-Unique = (refl, (refl, (refl, tt)))

is_no_proto : has (codes "__proto__") answer ≡ false
unfolding has text_eq
is_no_proto = refl

kept_in_record :
    sanitize_http2_response_headers lower (as_record lower answer)
    ≡ (codes "content-type", codes "text/plain") ∷ []
unfolding sanitize_http2_response_headers text_eq trim set is_array_index
kept_in_record = refl

answer-Plain : Plain answer
unfolding is_array_index
answer-Plain = (refl, (refl, (refl, tt)))

numbers_first :
    object_entries (
      (codes "b", codes "v")
      ∷ (codes "10", codes "w")
      ∷ (codes "9", codes "x")
      ∷ (codes "01", codes "y")
      ∷ (codes "0", codes "z")
      ∷ [])
    ≡ (codes "0", codes "z")
      ∷ (codes "9", codes "x")
      ∷ (codes "10", codes "w")
      ∷ (codes "b", codes "v")
      ∷ (codes "01", codes "y")
      ∷ []
unfolding object_entries is_array_index
numbers_first = refl

sanitize_agrees_example :
    sanitize_http2_response_header_pairs lower answer
    ≡ ok (object_entries (sanitize_http2_response_headers lower (as_record lower answer)))
sanitize_agrees_example =
    sanitize_agrees lower answer answer-IsValid answer-InLower answer-Unique is_no_proto
      answer-Plain
