-- ===== src/Host/Registry/Fingerprint.antt =====
-- The fingerprints by which packages/verser2-host/src/lib/route-registry.ts tells whether a set of
-- imported routes changed. Two arrays of texts have the same `JSON.stringify` exactly when they are
-- equal, so the key is the sorted array itself.
use verser.Base.{
  Text, text_eq, Bool, true, false, ◌&&◌, List, [], ◌∷◌, ◌++◌, map, ltb, ◌==◌, if◌then◌else◌,
}
use verser.Js.{codes}
use verser.Common.Federation.{Route, source_name}
use verser.Common.Generation.{decimal}

-- `texts.join(separator)`
unfoldable pub join : Text → List Text → Text
join sep [] = []
join sep (t ∷ []) = t
join sep (t ∷ u ∷ ts) = t ++ (sep ++ join sep (u ∷ ts))

unfoldable pub route_fingerprint : Route → Text
unfolding join decimal
route_fingerprint r = join (0 ∷ []) (
    r.target_id
    ∷ r.domain
    ∷ r.origin_host_id
    ∷ r.next_hop_host_id
    ∷ decimal r.hop_count
    ∷ join (codes ",") r.via_host_ids
    ∷ source_name r.source
    ∷ [])

-- The default order of `Array.prototype.sort`: by code units.
pub text_le : Text → Text → Bool
text_le [] t = true
text_le (x ∷ s) [] = false
text_le (x ∷ s) (y ∷ t) = if x == y then text_le s t else ltb x y

insert : Text → List Text → List Text
insert t [] = t ∷ []
insert t (u ∷ us) = if text_le t u then t ∷ u ∷ us else u ∷ insert t us

sort_texts : List Text → List Text
unfolding insert
sort_texts [] = []
sort_texts (t ∷ ts) = insert t (sort_texts ts)

unfoldable pub route_set_key : List Route → List Text
unfolding sort_texts route_fingerprint text_le
route_set_key routes = sort_texts (map route_fingerprint routes)

unfoldable pub text_lists_eq : List Text → List Text → Bool
text_lists_eq [] [] = true
text_lists_eq [] (u ∷ us) = false
text_lists_eq (t ∷ ts) [] = false
text_lists_eq (t ∷ ts) (u ∷ us) = text_eq t u && text_lists_eq ts us
