-- ===== src/Governance/Credentials.antt =====
-- src/market_relay/domain/governance/credentials.py: opaque credential references, their
-- resolution, and the redaction of messages. A text that the code walks is the list of its code
-- points; `re.sub` is a scan that asks at each position for a match.
pub mod Redaction
use Prim.Native.String
use Prim.Native.Char.{code}
use market_relay.Prelude.{
  ℕ, zero, suc, ◌+◌, String, List, [], ◌∷◌, ◌++◌, Bool, true, false, not, ◌&&◌, ◌||◌, Option, none,
  some, if◌then◌else◌, ◌==◌, ◌-◌, nat_eq, leb, is_in, length, take, drop,
}

abbrev pub Text : Type 0
Text = List ℕ

abbrev pub codes : String → Text
codes String.[] = []
codes (String.◌∷◌ c s) = code c ∷ codes s

pub record CredentialReference : Type 0 where
  pub source : String
  pub credential_scope : String
  pub env_var : String

-- `os.environ.get`, as a function; `none` stands for `CredentialNotFoundError`.
unfoldable pub resolve : (String → Option Text) → CredentialReference → Option Text
resolve environ reference = elim (environ reference.env_var) [
  | none ↦ none
  | some [] ↦ none
  | some (c ∷ value) ↦ some (c ∷ value)
]

-- `\s` of a `str` pattern.
abbrev whitespace_points : List ℕ
whitespace_points = 0x85 ∷ 0xa0 ∷ 0x1680 ∷ 0x2028 ∷ 0x2029 ∷ 0x202f ∷ 0x205f ∷ 0x3000 ∷ []

unfoldable pub is_space : ℕ → Bool
is_space c =
    (leb 9 c && leb c 13)
    || (leb 28 c && leb c 32)
    || (leb 0x2000 c && leb c 0x200a)
    || is_in c whitespace_points

-- `[^/@\s]` and `[^&\s]`
unfoldable pub is_authority : ℕ → Bool
is_authority c = not (c == b'/' || c == b'@' || is_space c)

unfoldable pub is_value : ℕ → Bool
is_value c = not (c == b'&' || is_space c)

-- How far a greedy `[class]*` goes.
unfoldable pub run_length : (ℕ → Bool) → Text → ℕ
run_length p [] = 0
run_length p (c ∷ t) = let rest = run_length p t in if p c then suc rest else 0

-- A lower-case letter of a pattern under IGNORECASE, with the four letters outside ASCII.
unfoldable pub same_letter : ℕ → ℕ → Bool
same_letter p c =
    c == p
    || c + 32 == p
    || (p == b'i' && (c == 0x130 || c == 0x131))
    || (p == b's' && c == 0x17f)
    || (p == b'k' && c == 0x212a)

unfoldable pub literal : (ℕ → ℕ → Bool) → Text → Text → Bool
literal same [] t = true
literal same (p ∷ ps) [] = false
literal same (p ∷ ps) (c ∷ t) = same p c && literal same ps t

-- A match: what replaces it, and how many characters it takes after its first.
abbrev pub Match : Type 0
Match = Option (Text × ℕ)

abbrev pub scheme_mark : Text
scheme_mark = codes "://"

abbrev pub stars : Text
stars = codes "***"

-- `(://)([^/@\s]+)(@)`, replaced by `\1***\3`.
unfoldable pub match_url : Text → Match
match_url t =
    let rest = drop 3 t in
    let n = run_length is_authority rest in
    if literal ◌==◌ scheme_mark t && leb 1 n && literal ◌==◌ (codes "@") (drop n rest)
    then some (codes "://***@", n + 3)
    else none

-- `(?:api[_-]?key|token|secret|password|apikey)=`, with the length of what it takes.
unfoldable pub keyword : Text → Option ℕ
keyword t =
    let word =
      λ (w : Text). literal same_letter w t && literal ◌==◌ (codes "=") (drop (length w) t) in
    let tail = drop 4 t in
    if literal same_letter (codes "api") t
      && (literal ◌==◌ (codes "_") (drop 3 t) || literal ◌==◌ (codes "-") (drop 3 t))
      && literal same_letter (codes "key") tail
      && literal ◌==◌ (codes "=") (drop 3 tail)
    then some 8
    else if word (codes "apikey")
    then some 7
    else if word (codes "token")
    then some 6
    else if word (codes "secret")
    then some 7
    else if word (codes "password")
    then some 9
    else none

-- `(keyword=)([^&\s]+)`, replaced by `\1***`.
unfoldable pub match_query : Text → Match
unfolding keyword
match_query t = elim (keyword t) [
  | none ↦ none
  | some k ↦
      let n = run_length is_value (drop k t) in
      if leb 1 n then some (take k t ++ stars, k + n - 1) else none
]

-- The secret itself, of `sanitized.replace(secret, "***")`.
unfoldable pub match_secret : Text → Text → Match
match_secret secret t = if literal ◌==◌ secret t then some (stars, length secret - 1) else none

-- Leftmost matches that do not overlap; the number counts what is left of the last one.
unfoldable pub substitute : (Text → Match) → ℕ → Text → Text
substitute m skip [] = []
substitute m (suc skip) (c ∷ t) = substitute m skip t
substitute m zero (c ∷ t) = elim (m (c ∷ t)) [
  | none ↦ c ∷ substitute m zero t
  | some (replacement, skip) ↦ replacement ++ substitute m skip t
]

unfoldable pub redact_secrets : List Text → Text → Text
redact_secrets [] t = t
redact_secrets ([] ∷ secrets) t = redact_secrets secrets t
redact_secrets ((c ∷ s) ∷ secrets) t =
    redact_secrets secrets (substitute (match_secret (c ∷ s)) zero t)

unfoldable pub sanitize_message : Text → List Text → Text
sanitize_message message known_secrets =
    redact_secrets known_secrets (substitute match_query zero (substitute match_url zero message))
