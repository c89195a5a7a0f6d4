-- ===== src/Routing/Storage.antt =====
-- src/metadata_cache.rs: when endpoints are taken for one storage.
use sai3_bench.Prelude.{
  ℕ, zero, suc, ◌≡◌, ◌≢◌, ◌⊎◌, refl, ap, ◌∙◌, Bool, true, false, ◌&&◌, Option, none, some, List, [],
  ◌∷◌, ◌++◌, map, length, All, leb, ◌==◌, inl, inr, arith,
}
use sai3_bench.Prelude.Keys.{list_eq, list_eq_refl}
use sai3_bench.Prelude.Text.{Text, codes, count}
use sai3_bench.Routing.{
  ParsedUrl, extract_storage_location, locations_of, all_same, same_locations, trim_leading,
  trim_trailing, first_segment, location, endpoints_share_storage,
}

abbrev pub slashes : ℕ → Text
slashes zero = []
slashes (suc n) = 47 ∷ slashes n

-- A name of one character or more, without a slash.
abbrev pub IsName : Text → Type 0
IsName name = (count 47 name ≡ 0) × (name ≢ [])

-- What may stand behind a name in a path.
abbrev pub behind : Option Text → Text
behind none = []
behind (some rest) = 47 ∷ rest

trim_leading-slashes : (n : ℕ) (t : Text) → trim_leading (slashes n ++ t) ≡ trim_leading t
trim_leading-slashes zero t = refl
trim_leading-slashes (suc n) t = trim_leading-slashes n t

first_segment-append :
    (name : Text) (rest : Option Text)
    → count 47 name ≡ 0
    → first_segment (name ++ behind rest) ≡ name
unfolding count
first_segment-append [] none h = refl
first_segment-append [] (some rest) h = refl
first_segment-append (c ∷ cs) rest h =
    ground (arith, first_segment-append cs rest (ground (arith, h)))

-- The container behind the slashes at the beginning of a path.
container_lem :
    (n : ℕ) (name : Text) (rest : Option Text)
    → IsName name
    → first_segment (trim_leading (slashes n ++ (name ++ behind rest))) ≡ name
unfolding count
container_lem n [] rest h = absurd (h.1 refl)
container_lem n (c ∷ cs) rest h =
    let other : (c == 47) ≡ false = ground (arith, h.0) in
    ap first_segment (trim_leading-slashes n (c ∷ cs ++ behind rest))
    ∙ rw other (first_segment-append (c ∷ cs) rest h.0)

location_lem :
    (scheme name : Text) → name ≢ [] → location scheme name ≡ some (scheme ++ codes "://" ++ name)
location_lem scheme [] h = absurd (h refl)
location_lem scheme (c ∷ cs) h = refl

-- A path of a directory, with no slash at its end.
abbrev pub EndsPlain : Text → Type 0
EndsPlain [] = Unit
EndsPlain (c ∷ []) = c ≢ 47
EndsPlain (c ∷ d ∷ ds) = EndsPlain (d ∷ ds)

trim_trailing-slashes : (n : ℕ) → trim_trailing (slashes n) ≡ []
trim_trailing-slashes zero = refl
trim_trailing-slashes (suc n) = rw (trim_trailing-slashes n) refl

directory_lem : (dir : Text) (n : ℕ) → EndsPlain dir → trim_trailing (dir ++ slashes n) ≡ dir
directory_lem [] n h = trim_trailing-slashes n
directory_lem (c ∷ []) n h =
    let other : (c == 47) ≡ false = ground (arith, h) in rw (trim_trailing-slashes n, other) refl
directory_lem (c ∷ d ∷ ds) n h = rw (directory_lem (d ∷ ds) n h) refl

-- Where an endpoint keeps its objects.
pub data Place : Type 0 where
  s3_bucket gs_bucket az_container file_directory direct_directory : Text → Place

abbrev pub same_place : Place → Place → Bool
same_place (s3_bucket a) (s3_bucket b) = list_eq a b
same_place (gs_bucket a) (gs_bucket b) = list_eq a b
same_place (az_container a) (az_container b) = list_eq a b
same_place (file_directory a) (file_directory b) = list_eq a b
same_place (direct_directory a) (direct_directory b) = list_eq a b
same_place _ _ = false

abbrev place_text : Place → Text
place_text (s3_bucket name) = codes "s3" ++ codes "://" ++ name
place_text (gs_bucket name) = codes "gs" ++ codes "://" ++ name
place_text (az_container name) = codes "az" ++ codes "://" ++ name
place_text (file_directory dir) = codes "file://" ++ dir
place_text (direct_directory dir) = codes "direct://" ++ dir

place_text-list_eq : (p q : Place) → list_eq (place_text p) (place_text q) ≡ same_place p q
unfolding list_eq
place_text-list_eq (s3_bucket a) (s3_bucket b) = refl
place_text-list_eq (s3_bucket a) (gs_bucket b) = refl
place_text-list_eq (s3_bucket a) (az_container b) = refl
place_text-list_eq (s3_bucket a) (file_directory b) = refl
place_text-list_eq (s3_bucket a) (direct_directory b) = refl
place_text-list_eq (gs_bucket a) (s3_bucket b) = refl
place_text-list_eq (gs_bucket a) (gs_bucket b) = refl
place_text-list_eq (gs_bucket a) (az_container b) = refl
place_text-list_eq (gs_bucket a) (file_directory b) = refl
place_text-list_eq (gs_bucket a) (direct_directory b) = refl
place_text-list_eq (az_container a) (s3_bucket b) = refl
place_text-list_eq (az_container a) (gs_bucket b) = refl
place_text-list_eq (az_container a) (az_container b) = refl
place_text-list_eq (az_container a) (file_directory b) = refl
place_text-list_eq (az_container a) (direct_directory b) = refl
place_text-list_eq (file_directory a) (s3_bucket b) = refl
place_text-list_eq (file_directory a) (gs_bucket b) = refl
place_text-list_eq (file_directory a) (az_container b) = refl
place_text-list_eq (file_directory a) (file_directory b) = refl
place_text-list_eq (file_directory a) (direct_directory b) = refl
place_text-list_eq (direct_directory a) (s3_bucket b) = refl
place_text-list_eq (direct_directory a) (gs_bucket b) = refl
place_text-list_eq (direct_directory a) (az_container b) = refl
place_text-list_eq (direct_directory a) (file_directory b) = refl
place_text-list_eq (direct_directory a) (direct_directory b) = refl

-- All endpoints of a list are at one place.
abbrev pub all_at : Place → List (Text × Place) → Bool
all_at p [] = true
all_at p ((uri, q) ∷ es) = same_place q p && all_at p es

abbrev pub at_one_place : List (Text × Place) → Bool
at_one_place [] = true
at_one_place ((uri, p) ∷ es) = all_at p es

module _ (url_parse : Text → Option ParsedUrl) where
  -- What the URL of an endpoint at a place looks like: the bucket of `s3` and the container of `az`
  -- are the first name of the path, the bucket of `gs` is the host, and of a directory the slashes at
  -- the end of the path do not count.
  abbrev pub Stands : Text → Place → Type 0
  Stands uri (s3_bucket name) =
      (url : ParsedUrl) × (n : ℕ) × (rest : Option Text) × (url_parse uri ≡ some url)
      × (url.scheme ≡ "s3")
      × (url.url_path ≡ slashes n ++ (name ++ behind rest))
      × IsName name
  Stands uri (gs_bucket name) =
      (url : ParsedUrl) × (url_parse uri ≡ some url)
      × (url.scheme ≡ "gs")
      × (url.host_str ≡ some name)
      × (name ≢ [])
  Stands uri (az_container name) =
      (url : ParsedUrl) × (n : ℕ) × (rest : Option Text) × (url_parse uri ≡ some url)
      × ((url.scheme ≡ "az") ⊎ (url.scheme ≡ "azure"))
      × (url.url_path ≡ slashes n ++ (name ++ behind rest))
      × IsName name
  Stands uri (file_directory dir) =
      (url : ParsedUrl) × (n : ℕ) × (url_parse uri ≡ some url)
      × (url.scheme ≡ "file")
      × (url.url_path ≡ dir ++ slashes n)
      × EndsPlain dir
  Stands uri (direct_directory dir) =
      (url : ParsedUrl) × (n : ℕ) × (url_parse uri ≡ some url)
      × (url.scheme ≡ "direct")
      × (uri ≡ codes "direct://" ++ (dir ++ slashes n))
      × EndsPlain dir

  located :
      (uri : Text) (p : Place)
      → Stands uri p
      → extract_storage_location url_parse uri ≡ some (place_text p)
  unfolding extract_storage_location
  located uri (s3_bucket name) ((url, n, rest, parsed, scheme, path, named)) =
      rw (parsed, scheme, path, container_lem n name rest named, extract_storage_location)
        (location_lem (codes "s3") name named.1)
  located uri (gs_bucket name) ((url, parsed, scheme, host, named)) =
      rw (parsed, scheme, host, extract_storage_location) (location_lem (codes "gs") name named)
  located uri (az_container name) ((url, n, rest, parsed, inl scheme, path, named)) =
      rw (parsed, scheme, path, container_lem n name rest named, extract_storage_location)
        (location_lem (codes "az") name named.1)
  located uri (az_container name) ((url, n, rest, parsed, inr scheme, path, named)) =
      rw (parsed, scheme, path, container_lem n name rest named, extract_storage_location)
        (location_lem (codes "az") name named.1)
  located uri (file_directory dir) ((url, n, parsed, scheme, path, plain)) =
      rw (parsed, scheme, path, directory_lem dir n plain, extract_storage_location) refl
  located uri (direct_directory dir) ((url, n, parsed, scheme, path, plain)) =
      rw (parsed, scheme, extract_storage_location)
        (rw path (ap (λ t. some (codes "direct://" ++ t)) (directory_lem dir n plain)))

  collected :
      (es : List (Text × Place))
      → All (λ e. Stands e.0 e.1) es
      → locations_of url_parse (map (λ e. e.0) es) ≡ map (λ e. place_text e.1) es
  unfolding locations_of
  collected [] h = refl
  collected ((uri, p) ∷ es) h =
      rw (located uri p h.0, locations_of) (ap (λ ls. place_text p ∷ ls) (collected es h.1))

all_same-all_at :
    (p : Place) (es : List (Text × Place))
    → all_same (place_text p) (map (λ e. place_text e.1) es) ≡ all_at p es
unfolding all_same
all_same-all_at p [] = refl
all_same-all_at p ((uri, q) ∷ es) = ground (arith, place_text-list_eq q p, all_same-all_at p es)

same_length : (f : Text × Place → Text) (es : List (Text × Place)) → length (map f es) ≡ length es
same_length f [] = refl
same_length f (e ∷ es) = ap suc (same_length f es)

-- Endpoints of which each stands at a place are taken for one storage exactly when there are two or
-- more and all stand at the same place.
pub endpoints_share_storage_iff :
    (url_parse : Text → Option ParsedUrl) (es : List (Text × Place))
    → All (λ e. Stands url_parse e.0 e.1) es
    → endpoints_share_storage url_parse (map (λ e. e.0) es) ≡ (leb 2 (length es) && at_one_place es)
unfolding endpoints_share_storage same_locations all_same
endpoints_share_storage_iff url_parse [] h = refl
endpoints_share_storage_iff url_parse ((uri, p) ∷ []) h = refl
endpoints_share_storage_iff url_parse ((uri, p) ∷ (uri', q) ∷ es) h =
    let all = (uri, p) ∷ (uri', q) ∷ es in
    let found = collected url_parse all h in
    let sizes = same_length (λ e. place_text e.1) es in
    let sizes' = same_length (λ e. e.0) es in
    rw (found, endpoints_share_storage)
      (ground (
        arith,
        sizes,
        sizes',
        all_same-all_at p all,
        place_text-list_eq p p,
        list_eq_refl (place_text p),
      ))
