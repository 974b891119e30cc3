-- ===== src/Attendees/Payload.antt =====
-- internal/attendee/utils/utils.go: QR payloads, `<uuid>.<token>.<hex of the HMAC of both>`. Text is
-- a list of bytes. The HMAC and the UUID syntax are libraries' and stand in the environment.
use rallya.Common.{
  ℕ, ◌+◌, ◌-◌, ◌*◌, ◌/◌, ◌%◌, ◌&&◌, ◌||◌, Option, none, some, List, [], ◌∷◌, ◌++◌, Bytes, bytes_eq,
  is_nil, ltb, leb, ◌==◌, if◌then◌else◌,
}
use rallya.Store.{Env}

-- encoding/hex
abbrev pub hex_digit : ℕ → ℕ
hex_digit n = if ltb n 10 then 48 + n else 87 + n

unfoldable pub hex_encode : Bytes → Bytes
hex_encode [] = []
hex_encode (b ∷ bs) = hex_digit (b / 16) ∷ hex_digit (b % 16) ∷ hex_encode bs

abbrev pub hex_value : ℕ → Option ℕ
hex_value c =
    if leb 48 c && leb c 57
    then some (c - 48)
    else if leb 97 c && leb c 102
    then some (c - 87)
    else if leb 65 c && leb c 70
    then some (c - 55)
    else none

abbrev pub hex_byte : Option ℕ → Option ℕ → Option Bytes → Option Bytes
hex_byte (some h) (some l) (some rest) = some ((h * 16 + l) ∷ rest)
hex_byte _ _ _ = none

unfoldable pub hex_decode : Bytes → Option Bytes
hex_decode [] = some []
hex_decode (h ∷ []) = none
hex_decode (h ∷ l ∷ rest) = hex_byte (hex_value h) (hex_value l) (hex_decode rest)

-- strings.Split at "."
abbrev pub dot : ℕ
dot = 46

abbrev pub cons_part : ℕ → List Bytes → List Bytes
cons_part c [] = (c ∷ []) ∷ []
cons_part c (p ∷ ps) = (c ∷ p) ∷ ps

unfoldable pub split_dots : Bytes → List Bytes
split_dots [] = [] ∷ []
split_dots (c ∷ cs) = let rest = split_dots cs in if c == dot then [] ∷ rest else cons_part c rest

-- `msg` of `BuildPayload`
abbrev pub message : Bytes → Bytes → Bytes
message id token = id ++ (dot ∷ token)

-- `BuildPayload`
unfoldable pub build_payload : Env → ℕ → Bytes → Bytes
unfolding hex_encode
build_payload env id token =
    let msg = message (env.uuid_text id) token in msg ++ (dot ∷ hex_encode (env.mac msg))

pub data PayloadError : Type 0 where
  malformed forged : PayloadError

-- `VerifiedPayload`
pub record VerifiedPayload : Type 0 where
  pub attendee_id : ℕ
  pub raw_token : Bytes

pub data Verified : Type 0 where
  verified : VerifiedPayload → Verified
  refused : PayloadError → Verified

abbrev pub check_mac : Env → ℕ → Bytes → Bytes → Option Bytes → Verified
check_mac env id uuid token none = refused forged
check_mac env id uuid token (some want) =
    if bytes_eq (env.mac (message uuid token)) want
    then verified (record { attendee_id = id; raw_token = token })
    else refused forged

abbrev pub check_id : Env → Option ℕ → Bytes → Bytes → Bytes → Verified
check_id env none uuid token sig = refused malformed
check_id env (some id) uuid token sig = check_mac env id uuid token (hex_decode sig)

abbrev pub check_parts : Env → List Bytes → Verified
check_parts env (uuid ∷ token ∷ sig ∷ []) =
    if is_nil uuid || is_nil token || is_nil sig
    then refused malformed
    else check_id env (env.parse_uuid uuid) uuid token sig
check_parts env _ = refused malformed

-- `VerifyPayload`
unfoldable pub verify_payload : Env → Bytes → Verified
unfolding split_dots hex_decode
verify_payload env payload = check_parts env (split_dots payload)
