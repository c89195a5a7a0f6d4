-- ===== src/Remap.antt =====
-- src/remap.rs: the rules that give the URIs of a replay new targets. The URL parser, the regular
-- expressions, the random numbers and the hash are other packages', so parameters here.
mod Uri
mod Selection
mod Tests
use sai3_bench.Prelude.{
  ℕ, zero, suc, ◌+◌, ◌%◌, Bool, true, false, ◌||◌, not, ◌&&◌, Option, none, some, List, [], ◌∷◌,
  ◌++◌, length, get_elem?, ◌==◌, if◌then◌else◌, ◌⊎◌, inl, inr, unwrap_or, String,
}
use sai3_bench.Prelude.Keys.{key_eq, list_key, nat_key, string_key}
use sai3_bench.Prelude.Maps.{lookup, insert}
use sai3_bench.Prelude.Text.{Text, codes, decimal}

pub record MatchSpec : Type 0 where
  pub host : Option Text
  pub bucket : Option Text
  pub prefix : Option Text

pub record TargetSpec : Type 0 where
  pub bucket : Text
  pub prefix : Text

pub record ManyTargets : Type 0 where
  pub targets : List TargetSpec
  pub strategy : String

pub data RemapRule : Type 0 where
  simple : MatchSpec → TargetSpec → RemapRule
  fanout : MatchSpec → ManyTargets → RemapRule
  consolidate : List MatchSpec → TargetSpec → RemapRule
  regex_rule : Text → Text → RemapRule

pub record ParsedUri : Type 0 where
  pub scheme : Text
  pub bucket : Text
  pub prefix : Text
  pub key : Text

-- What the URL parser gives of a URI. The program reads the scheme, the host and the path.
pub record Url : Type 0 where
  pub url_scheme : Text
  pub userinfo : Option Text
  pub host_str : Option Text
  pub port : Option Text
  pub path : Text
  pub query : Option Text
  pub fragment : Option Text

abbrev slash : ℕ
slash = 47

-- str::is_empty
abbrev pub is_empty : Text → Bool
is_empty [] = true
is_empty (c ∷ cs) = false

-- trim_start_matches('/')
unfoldable pub trim_slashes : Text → Text
trim_slashes [] = []
trim_slashes (c ∷ cs) = if c == slash then trim_slashes cs else c ∷ cs

-- The parts before and after the last '/': rfind('/')
unfoldable pub split_last : Text → Option (Text × Text)
split_last [] = none
split_last (c ∷ cs) = elim (split_last cs) [
  | some (before, after) ↦ some (c ∷ before, after)
  | none ↦ if c == slash then some ([], cs) else none
]

-- splitn(2, '/'): the first part, and what follows the first '/'.
unfoldable pub split_first : Text → Text × Text
split_first [] = ([], [])
split_first (c ∷ cs) =
    let rest = split_first cs in if c == slash then ([], cs) else (c ∷ rest.0, rest.1)

-- The prefix and the key of a path.
unfoldable pub prefix_and_key : Text → Text × Text
prefix_and_key path = elim (split_last path) [
  | some (before, after) ↦ (before ++ slash ∷ [], after)
  | none ↦ ([], path)
]

unfoldable pub in_host : Text → Text → Text → ParsedUri
in_host scheme host path =
    let parts = prefix_and_key path in
    record { scheme = scheme; bucket = host; prefix = parts.0; key = parts.1 }

unfoldable pub in_path : Text → Text → ParsedUri
in_path scheme path =
    let segments = split_first path in
    let parts = prefix_and_key segments.1 in
    record { scheme = scheme; bucket = segments.0; prefix = parts.0; key = parts.1 }

-- `ParsedUri::parse` on what the URL parser gives.
unfoldable pub parse : Url → ParsedUri
parse url =
    let path = trim_slashes url.path in
    if key_eq url.url_scheme (codes "file")
    then in_path url.url_scheme path
    else elim url.host_str [
      | none ↦ in_path url.url_scheme path
      | some [] ↦ in_path url.url_scheme path
      | some (c ∷ host) ↦ in_host url.url_scheme (c ∷ host) path
    ]

pub to_uri : ParsedUri → Text
to_uri p =
    if is_empty p.prefix && is_empty p.key
    then p.scheme ++ codes "://" ++ p.bucket ++ slash ∷ []
    else if is_empty p.prefix
    then p.scheme ++ codes "://" ++ p.bucket ++ slash ∷ p.key
    else p.scheme ++ codes "://" ++ p.bucket ++ slash ∷ (p.prefix ++ p.key)

-- str::starts_with
pub starts_with : Text → Text → Bool
starts_with text [] = true
starts_with [] (p ∷ ps) = false
starts_with (c ∷ cs) (p ∷ ps) = (c == p) && starts_with cs ps

unfoldable pub matches : ParsedUri → MatchSpec → Bool
matches parsed spec =
    let bucket_ok : Bool = elim spec.bucket [ none ↦ true | some b ↦ key_eq parsed.bucket b ] in
    let prefix_ok : Bool = elim spec.prefix [
      | none ↦ true
      | some p ↦ starts_with parsed.prefix p
    ] in
    if not bucket_ok then false else if not prefix_ok then false else true

pub matches_any : ParsedUri → List MatchSpec → Bool
matches_any parsed [] = false
matches_any parsed (spec ∷ specs) = matches parsed spec || matches_any parsed specs

pub apply_target : ParsedUri → TargetSpec → Text
apply_target parsed target =
    let prefix = if is_empty target.prefix then parsed.prefix else target.prefix in
    to_uri
      (record { scheme = parsed.scheme; bucket = target.bucket; prefix = prefix; key = parsed.key })

pub data RemapError : Type 0 where
  invalid_uri no_targets index_out_of_range : RemapError
  unknown_strategy : String → RemapError
  invalid_regex : Text → RemapError

pub record RemapState : Type 0 where
  pub round_robin : List (ℕ × ℕ)
  pub sticky : List (Text × List (Text × ℕ))

abbrev pub new_state : RemapState
new_state = record { round_robin = []; sticky = [] }

pub data Strategy : Type 0 where
  in_turn at_random by_key unknown : Strategy

-- The arms of the match on a strategy's name.
abbrev pub strategy_of : String → Strategy
strategy_of name =
    if key_eq name "round_robin"
    then in_turn
    else if key_eq name "random"
    then at_random
    else if key_eq name "sticky_key"
    then by_key
    else unknown

-- `targets[idx]`
abbrev pub target_at : ManyTargets → ℕ → RemapError ⊎ TargetSpec
target_at many idx = elim (get_elem? many.targets idx) [
  | none ↦ inl index_out_of_range
  | some t ↦ inr t
]

-- The index a sticky rule has for a key: the one it has stored, or the one of the hash.
pub sticky_index : (Text → ℕ) → Text → ManyTargets → List (Text × ℕ) → ℕ
sticky_index hash key many rule_state =
    unwrap_or (lookup key rule_state) (hash key % length many.targets)

-- What the engine asks of other packages.
pub record Packages (R : Type 0) : Type 0 where
  pub url_parse : Text → Option Url
  pub regex_new : Text → Option R
  pub is_match : R → Text → Bool
  pub replace : R → Text → Text → Text
  pub hash : Text → ℕ
  -- rand::rng().random_range(0..n)
  pub random_range : ℕ → ℕ

abbrev pub Outcome : Type 0 → Type 0
Outcome A = (RemapError ⊎ A) × RemapState

module _ {R : Type 0} (pk : Packages R) where
  unfoldable pub select_target_from_many : ℕ → Text → ManyTargets → RemapState → Outcome TargetSpec
  select_target_from_many rule_idx key many s =
      let n = length many.targets in
      let counter = unwrap_or (lookup rule_idx s.round_robin) 0 in
      let rule_state = unwrap_or (lookup (decimal rule_idx) s.sticky) [] in
      let idx = sticky_index pk.hash key many rule_state in
      if n == 0 then (inl no_targets, s) else elim (strategy_of many.strategy) [
        | in_turn ↦ (
          target_at many (counter % n),
          record s { round_robin = insert rule_idx ((counter + 1) % n) s.round_robin },
        )
        | at_random ↦ (target_at many (pk.random_range n), s)
        | by_key ↦ (
          target_at many idx,
          record s { sticky = insert (decimal rule_idx) (insert key idx rule_state) s.sticky },
        )
        | unknown ↦ (inl (unknown_strategy many.strategy), s)
      ]

  unfoldable pub remap_rules : ℕ → List RemapRule → Text → ParsedUri → RemapState → Outcome Text
  remap_rules rule_idx [] uri parsed s = (inr uri, s)
  remap_rules rule_idx (simple match_spec map_to ∷ rules) uri parsed s =
      let rest = remap_rules (suc rule_idx) rules uri parsed s in
      if matches parsed match_spec then (inr (apply_target parsed map_to), s) else rest
  remap_rules rule_idx (fanout match_spec map_to_many ∷ rules) uri parsed s =
      let rest = remap_rules (suc rule_idx) rules uri parsed s in
      let chosen = select_target_from_many rule_idx parsed.key map_to_many s in
      if matches parsed match_spec
      then (elim chosen.0 [ inl e ↦ inl e | inr t ↦ inr (apply_target parsed t) ], chosen.1)
      else rest
  remap_rules rule_idx (consolidate match_any map_to ∷ rules) uri parsed s =
      let rest = remap_rules (suc rule_idx) rules uri parsed s in
      if matches_any parsed match_any then (inr (apply_target parsed map_to), s) else rest
  remap_rules rule_idx (regex_rule regex replacement ∷ rules) uri parsed s =
      let rest = remap_rules (suc rule_idx) rules uri parsed s in
      elim (pk.regex_new regex) [
        | none ↦ (inl (invalid_regex regex), s)
        | some re ↦ if pk.is_match re uri then (inr (pk.replace re uri replacement), s) else rest
      ]

  unfoldable pub remap : List RemapRule → Text → RemapState → Outcome Text
  remap rules uri s = elim (pk.url_parse uri) [
    | none ↦ (inl invalid_uri, s)
    | some url ↦ remap_rules 0 rules uri (parse url) s
  ]
