-- ===== src/Attendees/Tokens.antt =====
-- internal/attendee/utils/utils.go: the text of a QR payload and its parts.
use rallya.Common.{
  ℕ, ◌+◌, ◌*◌, ◌/◌, ◌%◌, ◌<◌, ◌≡◌, refl, sym, ap, ◌∙◌, true, false, ◌==◌, ◌||◌, Option, none, some,
  List, [], ◌∷◌, ◌++◌, arith, Bytes, bytes_eq, is_nil, All, Bool-cases, inl, inr,
}
use rallya.Store.{Env}
use rallya.Attendees.Payload.{
  hex_digit, hex_value, hex_encode, hex_decode, dot, split_dots, message, build_payload,
  verify_payload, VerifiedPayload, verified, check_parts, check_id, check_mac,
}

-- Text without a dot.
abbrev pub NoDot : Bytes → Type 0
NoDot = All (λ c. (c == dot) ≡ false)

bytes_eq_refl : (bs : Bytes) → bytes_eq bs bs ≡ true
bytes_eq_refl [] = refl
bytes_eq_refl (b ∷ bs) = ground (arith, bytes_eq_refl bs)

bytes_eq-true : (us bs : Bytes) → bytes_eq us bs ≡ true → us ≡ bs
bytes_eq-true [] [] h = refl
bytes_eq-true [] (b ∷ bs) h = cc
bytes_eq-true (a ∷ us) [] h = cc
bytes_eq-true (a ∷ us) (b ∷ bs) h = ground (arith, bytes_eq-true us bs)

split_dots-NoDot : (p : Bytes) → NoDot p → split_dots p ≡ p ∷ []
unfolding split_dots
split_dots-NoDot [] h = refl
split_dots-NoDot (c ∷ cs) h = rw (h.0, split_dots-NoDot cs h.1) refl

-- The first dot ends the first part.
split_dots-dot : (p q : Bytes) → NoDot p → split_dots (p ++ (dot ∷ q)) ≡ p ∷ split_dots q
unfolding split_dots
split_dots-dot [] q h = refl
split_dots-dot (c ∷ cs) q h = rw (h.0, split_dots-dot cs q h.1) refl

hex_digit-NoDot : (n : ℕ) → (hex_digit n == dot) ≡ false
hex_digit-NoDot n = ground arith

hex_encode-NoDot : (bs : Bytes) → NoDot (hex_encode bs)
unfolding hex_encode
hex_encode-NoDot [] = tt
hex_encode-NoDot (b ∷ bs) =
    (hex_digit-NoDot (b / 16), (hex_digit-NoDot (b % 16), hex_encode-NoDot bs))

hex_value-hex_digit : (n : ℕ) → n < 16 → hex_value (hex_digit n) ≡ some n
hex_value-hex_digit n h = ground arith

pub hex_decode-hex_encode :
    (bs : Bytes) → All (λ b. b < 256) bs → hex_decode (hex_encode bs) ≡ some bs
unfolding hex_encode hex_decode
hex_decode-hex_encode [] h = refl
hex_decode-hex_encode (b ∷ bs) h =
    let whole : b / 16 * 16 + b % 16 ≡ b = omega arith in
    rw
      (
        hex_value-hex_digit (b / 16) (omega (arith, h.0)),
        hex_value-hex_digit (b % 16) (omega arith),
        hex_decode-hex_encode bs h.1,
        whole,
      )
      refl

append_assoc : (xs ys zs : Bytes) → xs ++ (ys ++ zs) ≡ (xs ++ ys) ++ zs
append_assoc [] ys zs = refl
append_assoc (x ∷ xs) ys zs = ap (λ r. x ∷ r) (append_assoc xs ys zs)

hex_encode-nonempty : (bs : Bytes) → is_nil bs ≡ false → is_nil (hex_encode bs) ≡ false
unfolding hex_encode
hex_encode-nonempty [] h = h
hex_encode-nonempty (b ∷ bs) h = refl

-- The parts of a payload.
split_dots-build_payload :
    (env : Env) (id : ℕ) (token : Bytes)
    → NoDot (env.uuid_text id)
    → NoDot token
    → split_dots (build_payload env id token)
      ≡ env.uuid_text id ∷ token ∷ hex_encode (env.mac (message (env.uuid_text id) token)) ∷ []
unfolding build_payload
split_dots-build_payload env id token plain plain' =
    let sig = hex_encode (env.mac (message (env.uuid_text id) token)) in
    ap split_dots (sym (append_assoc (env.uuid_text id) (dot ∷ token) (dot ∷ sig)))
    ∙ split_dots-dot (env.uuid_text id) (token ++ (dot ∷ sig)) plain
    ∙ ap (λ x. env.uuid_text id ∷ x) (split_dots-dot token sig plain')
    ∙ ap (λ x. env.uuid_text id ∷ token ∷ x)
        (split_dots-NoDot sig (hex_encode-NoDot (env.mac (message (env.uuid_text id) token))))

-- A payload that was built verifies to the attendee and the token that it was built from. It
-- relies on UUID text that parses back, is not empty and has no dot, on an HMAC of bytes that is
-- not empty, and on a token that is not empty and has no dot.
pub verify_payload-build_payload :
    (env : Env) (id : ℕ) (token : Bytes)
    → NoDot (env.uuid_text id)
    → is_nil (env.uuid_text id) ≡ false
    → env.parse_uuid (env.uuid_text id) ≡ some id
    → All (λ b. b < 256) (env.mac (message (env.uuid_text id) token))
    → is_nil (env.mac (message (env.uuid_text id) token)) ≡ false
    → NoDot token
    → is_nil token ≡ false
    → verify_payload env (build_payload env id token)
      ≡ verified (record { attendee_id = id; raw_token = token })
unfolding verify_payload
verify_payload-build_payload env id token plain some_id parses bytes some_mac plain' some_token =
    let m = env.mac (message (env.uuid_text id) token) in
    rw
      (
        split_dots-build_payload env id token plain plain',
        some_id,
        some_token,
        hex_encode-nonempty m some_mac,
        parses,
        hex_decode-hex_encode m bytes,
        bytes_eq_refl m,
      )
      refl

check_mac-verified :
    (env : Env) (id : ℕ) (uuid token : Bytes) (want : Option Bytes) {v : VerifiedPayload}
    → check_mac env id uuid token want ≡ verified v
    → (want ≡ some (env.mac (message uuid token))) × (v.attendee_id ≡ id) × (v.raw_token ≡ token)
check_mac-verified env id uuid token none h = cc
check_mac-verified env id uuid token (some want) h =
    elim (Bool-cases (bytes_eq (env.mac (message uuid token)) want)) [
      | inl same ↦ (
        ap some (sym (bytes_eq-true (env.mac (message uuid token)) want same)),
        ground arith,
        ground arith,
      )
      | inr other ↦ absurd (ground arith)
    ]

-- The three parts of a payload that was accepted for `v`.
abbrev pub Signed : Env → VerifiedPayload → List Bytes → Type 0
Signed env v parts =
    (uuid : Bytes) × (sig : Bytes) × (parts ≡ uuid ∷ v.raw_token ∷ sig ∷ [])
    × (env.parse_uuid uuid ≡ some v.attendee_id)
    × (hex_decode sig ≡ some (env.mac (message uuid v.raw_token)))

check_id-verified :
    (env : Env) (id : Option ℕ) (uuid token sig : Bytes) {v : VerifiedPayload}
    → env.parse_uuid uuid ≡ id
    → check_id env id uuid token sig ≡ verified v
    → Signed env v (uuid ∷ token ∷ sig ∷ [])
check_id-verified env none uuid token sig parses h = cc
check_id-verified env (some id) uuid token sig parses h =
    let (signed, same, raw) = check_mac-verified env id uuid token (hex_decode sig) h in
    (
      uuid,
      sig,
      ap (λ x. uuid ∷ x ∷ sig ∷ []) (sym raw),
      parses ∙ ap some (sym same),
      signed ∙ ap (λ x. some (env.mac (message uuid x))) (sym raw),
    )

check_parts-verified :
    (env : Env) (parts : List Bytes) {v : VerifiedPayload}
    → check_parts env parts ≡ verified v
    → Signed env v parts
check_parts-verified env [] h = cc
check_parts-verified env (a ∷ []) h = cc
check_parts-verified env (a ∷ b ∷ []) h = cc
check_parts-verified env (a ∷ b ∷ c ∷ d ∷ rest) h = cc
check_parts-verified env (uuid ∷ token ∷ sig ∷ []) h =
    elim (Bool-cases (is_nil uuid || is_nil token || is_nil sig)) [
      | inl blank ↦ absurd (ground arith)
      | inr full ↦ check_id-verified env (env.parse_uuid uuid) uuid token sig refl (ground arith)
    ]

-- A payload that verifies splits at its dots into three parts: the first parses to the attendee's
-- identifier, the second is the token, and the third is the hex text of the HMAC of the first two.
pub verify_payload-Signed :
    (env : Env) (payload : Bytes) {v : VerifiedPayload}
    → verify_payload env payload ≡ verified v
    → Signed env v (split_dots payload)
unfolding verify_payload
verify_payload-Signed env payload h = check_parts-verified env (split_dots payload) h
