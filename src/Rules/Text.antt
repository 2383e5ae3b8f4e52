-- ===== src/Rules/Text.antt =====
-- types.go: domains and keywords. A string is the list of its bytes; `to_lower` reads a string rune
-- by rune, so there it is the list of its runes.
pub mod Search
pub mod Domain
use gki_pass.Base.{
  Bool, List, Option, [], drop, false, if◌then◌else◌, leb, length, ltb, none, replicate, some, suc,
  take, true, zero, ℕ, ◌%◌, ◌&&◌, ◌++◌, ◌+◌, ◌-◌, ◌/◌, ◌∷◌,
}
use gki_pass.Base.Maps.{nat_eq, string_eq}
use gki_pass.Base.Int.{int_eq}
use gki_pass.Rules.Address.{same_bytes}

-- The bytes of a rune.
unfoldable pub utf8 : ℕ → List ℕ
utf8 c =
    if ltb c 128
    then c ∷ []
    else if ltb c 2048
    then (192 + c / 64) ∷ (128 + c % 64) ∷ []
    else if ltb c 65536
    then (224 + c / 4096) ∷ (128 + c / 64 % 64) ∷ (128 + c % 64) ∷ []
    else (240 + c / 262144) ∷ (128 + c / 4096 % 64) ∷ (128 + c / 64 % 64) ∷ (128 + c % 64) ∷ []

unfoldable pub bytes_of_runes : List ℕ → List ℕ
unfolding utf8
bytes_of_runes [] = []
bytes_of_runes (c ∷ cs) = utf8 c ++ bytes_of_runes cs

abbrev pub lower_rune : ℕ → ℕ
lower_rune c = if leb 65 c && leb c 90 then c + 32 else c

-- `toLower`: `range` counts in bytes, and the slice has a rune for each byte, so that a rune of
-- several bytes is followed by zeros.
unfoldable pub to_lower : List ℕ → List ℕ
unfolding utf8
to_lower [] = []
to_lower (c ∷ cs) = lower_rune c ∷ replicate (length (utf8 c) - 1) 0 ++ to_lower cs

-- The loop of `indexOf`, with the rounds that are left and the position.
unfoldable pub index_from : ℕ → ℕ → List ℕ → List ℕ → Option ℕ
index_from zero i s substr = none
index_from (suc rounds) i s substr =
    let later = index_from rounds (i + 1) s substr in
    if same_bytes (take (length substr) (drop i s)) substr then some i else later

-- `indexOf`; -1 is `none`.
unfoldable pub index_of : List ℕ → List ℕ → Option ℕ
unfolding index_from
index_of s substr = index_from (length s + 1 - length substr) 0 s substr

-- `contains`
unfoldable pub contains : List ℕ → List ℕ → Bool
contains s substr =
    leb (length substr) (length s) && elim (index_of s substr) [ none ↦ false | some i ↦ true ]

-- `containsIgnoreCase`
unfoldable pub contains_ignore_case : List ℕ → List ℕ → Bool
contains_ignore_case s substr =
    contains (bytes_of_runes (to_lower s)) (bytes_of_runes (to_lower substr))

abbrev pub star : ℕ
star = b'*'

abbrev pub dot : ℕ
dot = b'.'

-- `matchDomain`
unfoldable pub match_domain : List ℕ → List ℕ → Bool
match_domain domain wanted =
    if same_bytes wanted (star ∷ [])
    then true
    else if same_bytes wanted domain
    then true
    else if ltb 2 (length wanted) && same_bytes (take 2 wanted) (star ∷ dot ∷ [])
    then (let suffix = drop 1 wanted in
        leb (length suffix) (length domain)
        && same_bytes (drop (length domain - length suffix) domain) suffix)
    else false
