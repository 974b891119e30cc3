-- ===== src/Orgs/Slugs.antt =====
-- internal/organization: `slugRe` and `Slugify`, with the other text helpers of utils/utils.go.
use rallya.Common.{
  ℕ, ◌+◌, ◌/◌, ◌%◌, ◌≡◌, ◌⊎◌, inl, inr, refl, String, Bytes, codes, is_nil, is_empty, trim_space,
  Bool, true, false, not, ◌&&◌, ◌||◌, Option, none, some, [], ◌∷◌, ◌++◌, leb, ltb, ◌==◌,
  if◌then◌else◌, arith, Bool-cases, some_and,
}
use Prim.Native.Char.{code}
use rallya.Store.{Env, User}

-- [a-z0-9]
abbrev pub is_word_char : ℕ → Bool
is_word_char c = leb 97 c && leb c 122 || leb 48 c && leb c 57

-- `slugRe`, ^[a-z0-9]+(-[a-z0-9]+)*$, from inside a word or from before one
abbrev pub matches : Bool → Bytes → Bool
matches in_word [] = in_word
matches in_word (c ∷ s) =
    let word = is_word_char c in (word || (in_word && c == 45)) && matches word s

abbrev pub is_slug : Bytes → Bool
is_slug = matches false

-- ' ', '-' and '_'
abbrev is_separator : ℕ → Bool
is_separator c = c == 32 || (c == 45 || c == 95)

-- The loop of `Slugify`: whether anything is written, and whether the last of it is a dash.
abbrev pub slug_chars : Bool → Bool → Bytes → Bytes
slug_chars started dash [] = []
slug_chars started dash (c ∷ s) =
    let word = is_word_char c in
    let breaks = is_separator c && (not dash && started) in
    let rest = slug_chars (started || word) (not word && (dash || breaks)) s in
    if word then c ∷ rest else if breaks then 45 ∷ rest else rest

abbrev trim_dashes_left : Bytes → Bytes
trim_dashes_left [] = []
trim_dashes_left (c ∷ s) = let rest = trim_dashes_left s in if c == 45 then rest else c ∷ s

abbrev trim_dashes_right : Bytes → Bytes
trim_dashes_right [] = []
trim_dashes_right (c ∷ s) =
    let rest = trim_dashes_right s in if c == 45 && is_nil rest then [] else c ∷ rest

-- `Slugify`
unfoldable pub slugify : Env → String → Bytes
slugify env name =
    trim_dashes_right
      (trim_dashes_left (slug_chars false false (codes (env.to_lower (trim_space name)))))

-- The text written after a dash: before a word it may be nothing.
abbrev Trimmed : Bool → Bytes → Type 0
Trimmed false l = matches true (trim_dashes_right l) ≡ true
Trimmed true l = (trim_dashes_right l ≡ []) ⊎ (matches false (trim_dashes_right l) ≡ true)

word_not_dash : (c : ℕ) → is_word_char c ≡ true → (c == 45) ≡ false
word_not_dash c h = ground arith

after_word :
    (c : ℕ) (l : Bytes) (w : Bool)
    → is_word_char c ≡ true
    → matches true (trim_dashes_right l) ≡ true
    → matches w (trim_dashes_right (c ∷ l)) ≡ true
after_word c l w h k = rw (word_not_dash c h, h) k

after_dash : (l : Bytes) → Trimmed true l → matches true (trim_dashes_right (45 ∷ l)) ≡ true
after_dash l (inl e) = rw e refl
after_dash l (inr e) = elim (Bool-cases (is_nil (trim_dashes_right l))) [
  | inl nothing ↦ absurd (ground arith)
  | inr something ↦ rw something e
]

slug_chars-Trimmed : (dash : Bool) (s : Bytes) → Trimmed dash (slug_chars true dash s)
slug_chars-Trimmed true [] = inl refl
slug_chars-Trimmed false [] = refl
slug_chars-Trimmed true (c ∷ s) = elim (Bool-cases (is_word_char c)) [
  | inl word ↦
      rw word (inr (after_word c (slug_chars true false s) false word (slug_chars-Trimmed false s)))
  | inr other ↦ rw other (ground (arith, slug_chars-Trimmed true s))
]
slug_chars-Trimmed false (c ∷ s) = elim (Bool-cases (is_word_char c)) [
  | inl word ↦
      rw word (after_word c (slug_chars true false s) true word (slug_chars-Trimmed false s))
  | inr other ↦ elim (Bool-cases (is_separator c)) [
    | inl breaks ↦
        rw (other, breaks) (after_dash (slug_chars true true s) (slug_chars-Trimmed true s))
    | inr stays ↦ rw (other, stays) (slug_chars-Trimmed false s)
  ]
]

slug_chars-start :
    (s : Bytes)
    → let l = slug_chars false false s in
      (trim_dashes_right (trim_dashes_left l) ≡ [])
      ⊎ (is_slug (trim_dashes_right (trim_dashes_left l)) ≡ true)
slug_chars-start [] = inl refl
slug_chars-start (c ∷ s) = elim (Bool-cases (is_word_char c)) [
  | inl word ↦
      rw (word, word_not_dash c word)
        (inr (after_word c (slug_chars true false s) false word (slug_chars-Trimmed false s)))
  | inr other ↦ elim (Bool-cases (is_separator c)) [
    | inl sep ↦ rw (other, sep) (slug_chars-start s)
    | inr plain ↦ rw (other, plain) (slug_chars-start s)
  ]
]

-- Whatever the name and however it is lowered, `Slugify` gives nothing or a text that the slug
-- pattern matches.
pub slugify-slug :
    (env : Env) (name : String) → (slugify env name ≡ []) ⊎ (is_slug (slugify env name) ≡ true)
unfolding slugify
slugify-slug env name = slug_chars-start (codes (env.to_lower (trim_space name)))

-- A word after a dash, as the numbered slugs have it.
pub matches-append :
    (w : Bool) (s t : Bytes) → matches w s ≡ true → matches w (s ++ 45 ∷ t) ≡ matches false t
matches-append w [] t h = ground arith
matches-append w (c ∷ s) t h = ground (arith, matches-append (is_word_char c) s t)

-- `%d` of a number below 100.
abbrev pub decimal : ℕ → Bytes
decimal i = if ltb i 10 then (48 + i) ∷ [] else (48 + i / 10) ∷ (48 + i % 10) ∷ []

-- `NormalizeEmail`
unfoldable pub normalize_email : Env → String → String
normalize_email env email = env.to_lower (trim_space email)

-- What stands before the first '@', if there is one.
abbrev before_at : String → Option String
before_at String.[] = none
before_at (String.◌∷◌ c s) = elim (code c == 64) [
  | true ↦ some ""
  | false ↦ elim (before_at s) [ none ↦ none | some local ↦ some (String.◌∷◌ c local) ]
]

abbrev local_part : String → Option String → String
local_part email none = email
local_part email (some local) = if is_empty local then email else local

-- `DisplayName`
unfoldable pub display_name : String → Option String → String
display_name email first = elim (some_and first (λ f. not (is_empty (trim_space f)))) [
  | true ↦ elim first [ none ↦ "" | some f ↦ trim_space f ]
  | false ↦ local_part email (before_at email)
]

-- `DisplayNameOf`; an unknown user has no name.
unfoldable pub display_name_of : Option User → String
unfolding display_name
display_name_of none = ""
display_name_of (some u) = display_name u.email u.first_name
