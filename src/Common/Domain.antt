-- ===== src/Common/Domain.antt =====
-- The canonical form of a domain: `normalizeVerserRouteDomain` of
-- packages/verser-common/src/lib/routing.ts. Lower case and the URL parser are the platform's: what
-- `toLowerCase` gives, and the hostname of `http://${text}` where that is a URL.
use verser.Base.{ℕ, Text, [], ◌∷◌, Option, none, some, ◌==◌, if◌then◌else◌, length}
use verser.Common.Trim.{trim}

-- `text.replace(/^\[/, '')`
strip_open : Text → Text
strip_open [] = []
strip_open (c ∷ s) = if c == 91 then s else c ∷ s

-- `text.replace(/x$/, '')` for the code unit of x; the end of the text is its only end.
strip_last : ℕ → Text → Text
strip_last x [] = []
strip_last x (c ∷ []) = if c == x then [] else c ∷ []
strip_last x (c ∷ d ∷ s) = c ∷ strip_last x (d ∷ s)

-- For a text that is neither `undefined` nor `null`.
unfoldable pub normalize_verser_route_domain : (Text → Text) → (Text → Option Text) → Text → Text
unfolding strip_open strip_last trim
normalize_verser_route_domain to_lower_case url_hostname value =
    let trimmed = to_lower_case (trim value) in
    if length trimmed == 0 then [] else elim (url_hostname trimmed) [
      | some hostname ↦ strip_last 46 (strip_last 93 (strip_open hostname))
      | none ↦ strip_last 46 trimmed
    ]
