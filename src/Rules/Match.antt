-- ===== src/Rules/Match.antt =====
-- types.go: what a rule matches.
use gki_pass.Base.{
  Bool, Bool-cases, List, Memᴰ, [], arith, false, if◌then◌else◌, inl, inr, length, ltb, not, true,
  ℕ, ◌&&◌, ◌==◌, ◌↔◌, ◌∷◌, ◌≡◌, ◌⊎◌,
}
use gki_pass.Base.Maps.{nat_eq, string_eq}
use gki_pass.Base.Int.{int_eq}
use gki_pass.Rules.{Rule, port_range_contains}
use gki_pass.Rules.Address.{ip_range_contains}
use gki_pass.Rules.Text.{bytes_of_runes, contains_ignore_case, match_domain, star, to_lower}
use gki_pass.Rules.Text.Search.{Within, contains-Within}
use gki_pass.Rules.Text.Domain.{Wildcard, match_domain-Wildcard}
use gki_pass.Base.Elements.{any_of, any_of_iff}

-- `Rule.MatchesIP`
unfoldable pub matches_ip : Rule → List ℕ → List ℕ → Bool
matches_ip rule src dst =
    if ltb 0 (length rule.source_ips)
      && not (any_of (λ range. ip_range_contains range src) rule.source_ips)
    then false
    else if ltb 0 (length rule.target_ips)
        && not (any_of (λ range. ip_range_contains range dst) rule.target_ips)
    then false
    else true

-- `Rule.MatchesPort`
unfoldable pub matches_port : Rule → ℕ → ℕ → Bool
matches_port rule src dst =
    if ltb 0 (length rule.source_ports)
      && not (any_of (λ range. port_range_contains range src) rule.source_ports)
    then false
    else if ltb 0 (length rule.target_ports)
        && not (any_of (λ range. port_range_contains range dst) rule.target_ports)
    then false
    else true

-- `Rule.MatchesDomain`
unfoldable pub matches_domain : Rule → List ℕ → Bool
matches_domain rule domain =
    if length rule.domains == 0 then true else any_of (match_domain domain) rule.domains

-- `Rule.MatchesKeyword`
unfoldable pub matches_keyword : Rule → List ℕ → Bool
matches_keyword rule content =
    if length rule.keywords == 0 then true else any_of (contains_ignore_case content) rule.keywords

-- An empty condition, or one of its entries.
abbrev pub Meets {ℓ} : {A : Type ℓ} → (A → Bool) → List A → Type ℓ
Meets {A} test xs = (length xs ≡ 0) ⊎ ((x : A) × Memᴰ x xs × (test x ≡ true))

loop_iff {ℓ} :
    {A : Type ℓ} (test : A → Bool) (xs : List A)
    → ((ltb 0 (length xs) && not (any_of test xs)) ≡ false) ↔ Meets test xs
loop_iff test xs = (to, from)
  where
    to : (ltb 0 (length xs) && not (any_of test xs)) ≡ false → Meets test xs
    to h = elim (Bool-cases (any_of test xs)) [
      | inl e ↦ inr ((any_of_iff test xs).0 e)
      | inr e ↦ inl (ground arith)
    ]

    from : Meets test xs → (ltb 0 (length xs) && not (any_of test xs)) ≡ false
    from (inl e) = ground arith
    from (inr found) = let hit = (any_of_iff test xs).1 found in ground arith

-- A rule matches a connection's ports exactly if each of its two lists of ranges is empty or has a
-- range with the port between its ends.
pub matches_port_iff :
    (rule : Rule) (src dst : ℕ)
    → (matches_port rule src dst ≡ true) ↔ (
        Meets (λ range. port_range_contains range src) rule.source_ports
        × Meets (λ range. port_range_contains range dst) rule.target_ports)
unfolding matches_port
matches_port_iff rule src dst =
    let from_src = loop_iff (λ range. port_range_contains range src) rule.source_ports in
    let from_dst = loop_iff (λ range. port_range_contains range dst) rule.target_ports in
    ground (arith, from_src, from_dst)

-- A rule matches a connection's addresses exactly if each of its two lists of ranges is empty or has
-- a range that contains the address.
pub matches_ip_iff :
    (rule : Rule) (src dst : List ℕ)
    → (matches_ip rule src dst ≡ true) ↔ (
        Meets (λ range. ip_range_contains range src) rule.source_ips
        × Meets (λ range. ip_range_contains range dst) rule.target_ips)
unfolding matches_ip
matches_ip_iff rule src dst =
    let from_src = loop_iff (λ range. ip_range_contains range src) rule.source_ips in
    let from_dst = loop_iff (λ range. ip_range_contains range dst) rule.target_ips in
    ground (arith, from_src, from_dst)

-- The loops over domains and keywords.
loop_or_empty {ℓ} :
    {A : Type ℓ} (test : A → Bool) (xs : List A)
    → ((if length xs == 0 then true else any_of test xs) ≡ true) ↔ Meets test xs
loop_or_empty test xs = let found = any_of_iff test xs in ground (arith, found)

-- Tests that agree are met alike.
Meets-iff {ℓ κ} :
    {A : Type ℓ} (test : A → Bool) (P : A → Type κ) (xs : List A)
    → ((x : A) → (test x ≡ true) ↔ P x)
    → Meets test xs ↔ ((length xs ≡ 0) ⊎ ((x : A) × Memᴰ x xs × P x))
Meets-iff {A} test P xs agree = (to, from)
  where
    to : Meets test xs → (length xs ≡ 0) ⊎ ((x : A) × Memᴰ x xs × P x)
    to (inl e) = inl e
    to (inr (x, m, e)) = inr (x, m, (agree x).0 e)

    from : (length xs ≡ 0) ⊎ ((x : A) × Memᴰ x xs × P x) → Meets test xs
    from (inl e) = inl e
    from (inr (x, m, p)) = inr (x, m, (agree x).1 p)

-- A rule matches a domain exactly if it has no domains, or a pattern that is `*`, the domain itself,
-- or `*.` and a name in whose dot and letters the domain ends.
pub matches_domain_iff :
    (rule : Rule) (domain : List ℕ)
    → (matches_domain rule domain ≡ true) ↔ (
        (length rule.domains ≡ 0)
        ⊎ ((wanted : List ℕ) × Memᴰ wanted rule.domains
            × ((wanted ≡ star ∷ []) ⊎ (wanted ≡ domain) ⊎ Wildcard domain wanted)))
unfolding matches_domain
matches_domain_iff rule domain =
    let loop = loop_or_empty (match_domain domain) rule.domains in
    let means =
      Meets-iff (match_domain domain) (λ w. (w ≡ star ∷ []) ⊎ (w ≡ domain) ⊎ Wildcard domain w)
        rule.domains (match_domain-Wildcard domain) in
    (λ h. means.0 (loop.0 h), λ p. loop.1 (means.1 p))

-- A rule matches a content exactly if it has no keywords, or one whose bytes, as `toLower` returns
-- them, stand in the content's, as `toLower` returns them.
pub matches_keyword_iff :
    (rule : Rule) (content : List ℕ)
    → (matches_keyword rule content ≡ true) ↔ (
        (length rule.keywords ≡ 0)
        ⊎ ((keyword : List ℕ) × Memᴰ keyword rule.keywords
            × Within (bytes_of_runes (to_lower keyword)) (bytes_of_runes (to_lower content))))
unfolding matches_keyword contains_ignore_case
matches_keyword_iff rule content =
    let loop = loop_or_empty (contains_ignore_case content) rule.keywords in
    let means =
      Meets-iff (contains_ignore_case content)
        (λ k. Within (bytes_of_runes (to_lower k)) (bytes_of_runes (to_lower content)))
        rule.keywords
        (λ k. contains-Within (bytes_of_runes (to_lower content)) (bytes_of_runes (to_lower k))) in
    (λ h. means.0 (loop.0 h), λ p. loop.1 (means.1 p))
