-- ===== src/Remap/Uri.antt =====
-- src/remap.rs: a URI taken apart and put together again, and which rule is used.
use mathlib.Core.List.{append_assoc, append-nil}
use sai3_bench.Prelude.{
  ℕ, suc, ◌+◌, unwrap_or, ◌≡◌, refl, sym, ap, subst, ◌∙◌, Bool, true, false, Option, none, some,
  List, [], ◌∷◌, ◌++◌, length, All, ◌==◌, inl, inr, arith, Bool-cases, Option-cases,
}
use sai3_bench.Prelude.Keys.{key_eq, list_key}
use sai3_bench.Prelude.Text.{Text, codes}
use sai3_bench.Remap.{
  RemapRule, simple, fanout, consolidate, regex_rule, ParsedUri, Url, Packages, RemapState,
  trim_slashes, split_last, prefix_and_key, in_host, parse, to_uri, matches, matches_any,
  remap_rules,
}

-- The parts, with the slash between them, are the text.
abbrev Splits : Text → Option (Text × Text) → Type 0
Splits t none = Unit
Splits t (some (before, after)) = t ≡ before ++ 47 ∷ after

split_last_lem : (t : Text) → Splits t (split_last t)
unfolding split_last
split_last_lem [] = tt
split_last_lem (c ∷ cs) = elim (Option-cases (split_last cs)) [
  | inl e ↦ elim (Bool-cases (c == 47)) [
    | inl slash ↦
        let same : c ≡ 47 = ground arith in rw (e, slash, split_last) (ap (λ d. d ∷ cs) same)
    | inr other ↦ rw (e, other, split_last) tt
  ]
  | inr ((before, after), e) ↦
      let rest : cs ≡ before ++ 47 ∷ after = subst (Splits cs) e (split_last_lem cs) in
      rw (e, split_last) (ap (λ ds. c ∷ ds) rest)
]

prefix_and_key-append : (path : Text) → (prefix_and_key path).0 ++ (prefix_and_key path).1 ≡ path
unfolding prefix_and_key
prefix_and_key-append path = elim (Option-cases (split_last path)) [
  | inl e ↦ rw (e, prefix_and_key) refl
  | inr ((b, a), e) ↦
      rw (e, prefix_and_key)
        (append_assoc b (47 ∷ []) a ∙ sym (subst (Splits path) e (split_last_lem path)))
]

to_uri_parts :
    (scheme bucket prefix key : Text)
    → to_uri (record { scheme = scheme; bucket = bucket; prefix = prefix; key = key })
      ≡ scheme ++ codes "://" ++ bucket ++ 47 ∷ (prefix ++ key)
unfolding to_uri
to_uri_parts scheme bucket [] [] = refl
to_uri_parts scheme bucket [] (c ∷ key) = refl
to_uri_parts scheme bucket (c ∷ prefix) key = refl

to_uri_lem :
    (p : ParsedUri) → to_uri p ≡ p.scheme ++ codes "://" ++ p.bucket ++ 47 ∷ (p.prefix ++ p.key)
to_uri_lem p = to_uri_parts p.scheme p.bucket p.prefix p.key

-- A part of a URI with the character before or after it, where there is one.
abbrev behind : ℕ → Option Text → Text
behind c none = []
behind c (some t) = c ∷ t

-- A URL with a host as the text of it.
abbrev pub printed : Url → Text
printed url =
    url.url_scheme
    ++ (codes "://"
        ++ ((elim url.userinfo [ none ↦ [] | some user ↦ user ++ b'@' ∷ [] ])
            ++ (unwrap_or url.host_str []
                ++ (behind b':' url.port
                    ++ (url.path ++ (behind b'?' url.query ++ behind b'#' url.fragment))))))

-- A URL without its user, port, query and fragment, and with one slash at the beginning of its path.
abbrev pub plain : Url → Url
plain url = record url {
  userinfo = none;
  port = none;
  path = 47 ∷ trim_slashes url.path;
  query = none;
  fragment = none;
}

-- A URI with a host, the bucket, is put together again as it is without its user, port, query and
-- fragment, which are lost, and with one slash for all those at the beginning of its path. Its scheme
-- is not `file`.
pub to_uri-parse :
    (url : Url) (c : ℕ) (host : Text)
    → key_eq url.url_scheme (codes "file") ≡ false
    → url.host_str ≡ some (c ∷ host)
    → to_uri (parse url) ≡ printed (plain url)
unfolding parse in_host
to_uri-parse url c host scheme at =
    let path = trim_slashes url.path in
    let whole : to_uri (parse url) ≡ url.url_scheme ++ codes "://" ++ (c ∷ host) ++ 47 ∷ path =
      rw (scheme, at, parse)
        (to_uri_lem (in_host url.url_scheme (c ∷ host) path)
          ∙ ap (λ k. url.url_scheme ++ codes "://" ++ (c ∷ host) ++ 47 ∷ k)
              (prefix_and_key-append path)) in
    let before : Text → Text = λ k. url.url_scheme ++ (codes "://" ++ k) in
    whole
    ∙ append_assoc (url.url_scheme ++ codes "://") (c ∷ host) (47 ∷ path)
    ∙ append_assoc url.url_scheme (codes "://") ((c ∷ host) ++ 47 ∷ path)
    ∙ ap (λ h. before (unwrap_or h [] ++ 47 ∷ path)) (sym at)
    ∙ ap (λ k. before (unwrap_or url.host_str [] ++ k)) (sym (append-nil (47 ∷ path)))

module _ {R : Type 0} (pk : Packages R) (uri : Text) (parsed : ParsedUri) where
  -- Whether a rule ends the search, an invalid expression by an error.
  abbrev pub applies : RemapRule → Bool
  applies (simple match_spec map_to) = matches parsed match_spec
  applies (fanout match_spec map_to_many) = matches parsed match_spec
  applies (consolidate match_any map_to) = matches_any parsed match_any
  applies (regex_rule regex replacement) = elim (pk.regex_new regex) [
    | none ↦ true
    | some re ↦ pk.is_match re uri
  ]

  skip_rule :
      (idx : ℕ) (rule : RemapRule) (rules : List RemapRule) (s : RemapState)
      → applies rule ≡ false
      → remap_rules pk idx (rule ∷ rules) uri parsed s ≡ remap_rules pk (suc idx) rules uri parsed s
  unfolding remap_rules
  skip_rule idx (simple match_spec map_to) rules s h = rw (h, remap_rules) refl
  skip_rule idx (fanout match_spec map_to_many) rules s h = rw (h, remap_rules) refl
  skip_rule idx (consolidate match_any map_to) rules s h = rw (h, remap_rules) refl
  skip_rule idx (regex_rule regex replacement) rules s h =
      elim (Option-cases (pk.regex_new regex)) [ inl e ↦ ground arith | inr (re, e) ↦ ground arith ]

  take_rule :
      (idx : ℕ) (rule : RemapRule) (rules : List RemapRule) (s : RemapState)
      → applies rule ≡ true
      → remap_rules pk idx (rule ∷ rules) uri parsed s ≡ remap_rules pk idx (rule ∷ []) uri parsed s
  unfolding remap_rules
  take_rule idx (simple match_spec map_to) rules s h = rw (h, remap_rules) refl
  take_rule idx (fanout match_spec map_to_many) rules s h = rw (h, remap_rules) refl
  take_rule idx (consolidate match_any map_to) rules s h = rw (h, remap_rules) refl
  take_rule idx (regex_rule regex replacement) rules s h =
      elim (Option-cases (pk.regex_new regex)) [
        | inl e ↦ rw (e, remap_rules) refl
        | inr (re, e) ↦ ground arith
      ]

  -- The first rule that applies decides, with its own number; the rules after it say nothing.
  pub remap_rules_first :
      (idx : ℕ) (before : List RemapRule) (rule : RemapRule) (later : List RemapRule)
      (s : RemapState)
      → All (λ r. applies r ≡ false) before
      → applies rule ≡ true
      → remap_rules pk idx (before ++ rule ∷ later) uri parsed s
        ≡ remap_rules pk (idx + length before) (rule ∷ []) uri parsed s
  remap_rules_first idx [] rule later s none_before hit =
      take_rule idx rule later s hit
      ∙ ap (λ n. remap_rules pk n (rule ∷ []) uri parsed s) (omega arith)
  remap_rules_first idx (r ∷ before) rule later s none_before hit =
      skip_rule idx r (before ++ rule ∷ later) s none_before.0
      ∙ remap_rules_first (suc idx) before rule later s none_before.1 hit
      ∙ ap (λ n. remap_rules pk n (rule ∷ []) uri parsed s) (omega arith)
