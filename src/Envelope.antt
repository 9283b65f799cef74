-- ===== src/Envelope.antt =====
-- The container of everything that goes to a destination: app/src/app/core/crypto/envelope.ts. A byte is
-- a number below 256. How a header becomes bytes and back, `JSON` and the UTF-8 coders, is a parameter.
pub mod Frame
mod Tests
use easy_docket.Base.{
  ℕ, ◌+◌, ◌*◌, ◌/◌, ◌%◌, Bool, not, ◌&&◌, Option, none, some, List, [], ◌∷◌, ◌++◌, if◌then◌else◌,
  ltb, leb, ◌==◌, length, take, drop,
}
use easy_docket.Base.Text.{Text, eq_text}

abbrev pub Bytes : Type 0
Bytes = List ℕ

-- `ENVELOPE_MAGIC`, "EDCK"
abbrev pub envelope_magic : Bytes
envelope_magic = 0x45 ∷ 0x44 ∷ 0x43 ∷ 0x4b ∷ []

abbrev pub envelope_version : ℕ
envelope_version = 1

abbrev pub alg_aes_256_gcm : ℕ
alg_aes_256_gcm = 1

abbrev pub iv_length : ℕ
iv_length = 12

abbrev pub header_offset : ℕ
header_offset = 20

-- `EnvelopeHeader`
pub record EnvelopeHeader : Type 0 where
  pub v : Text
  pub d : Text
  pub h : Text
  pub t : Text

-- The messages of `EnvelopeFormatError`.
pub data Error : Type 0 where
  bad_iv header_too_long truncated not_an_envelope bad_version bad_algorithm : Error
  truncated_header bad_header : Error

pub data Result (A : Type 0) : Type 0 where
  ok : A → Result A
  err : Error → Result A

-- `ParsedEnvelope`
pub record ParsedEnvelope : Type 0 where
  pub header : EnvelopeHeader
  pub iv : Bytes
  pub payload : Bytes
  pub aad : Bytes

-- The bytes that `serialiseEnvelope` sets: the two of the length are the high one and the low one.
unfoldable pub frame : Bytes → Bytes → Bytes → Bytes
frame iv header payload =
    envelope_magic
    ++ ((envelope_version ∷ alg_aes_256_gcm ∷ length header / 256 ∷ length header % 256 ∷ [])
        ++ (iv ++ (header ++ payload)))

-- The byte at an index, 0 behind the end.
unfoldable pub first_byte : Bytes → ℕ
first_byte [] = 0
first_byte (b ∷ bytes) = b

unfoldable pub byte_at : ℕ → Bytes → ℕ
byte_at n bytes = first_byte (drop n bytes)

-- The coder of headers.
pub record Json : Type 0 where
  pub stringify : EnvelopeHeader → Bytes
  pub parse : Bytes → Option EnvelopeHeader

-- `serialiseEnvelope`
unfoldable pub serialise_envelope : Json → EnvelopeHeader → Bytes → Bytes → Result Bytes
serialise_envelope j header iv payload =
    if not (length iv == iv_length)
    then err bad_iv
    else if ltb 0xffff (length (j.stringify header))
    then err header_too_long
    else ok (frame iv (j.stringify header) payload)

parsed : Option EnvelopeHeader → Bytes → Bytes → Bytes → Result ParsedEnvelope
parsed none iv payload aad = err bad_header
parsed (some header) iv payload aad =
    ok (record { header = header; iv = iv; payload = payload; aad = aad })

-- `parseEnvelope`
unfoldable pub parse_envelope : Json → Bytes → Result ParsedEnvelope
unfolding parsed
parse_envelope j bytes =
    let header_len = byte_at 6 bytes * 256 + byte_at 7 bytes in
    let payload_start = header_offset + header_len in
    let aad = take header_len (drop header_offset bytes) in
    if ltb (length bytes) header_offset
    then err truncated
    else if not (eq_text (take (length envelope_magic) bytes) envelope_magic)
    then err not_an_envelope
    else if not (byte_at 4 bytes == envelope_version)
    then err bad_version
    else if not (byte_at 5 bytes == alg_aes_256_gcm)
    then err bad_algorithm
    else if ltb (length bytes) payload_start
    then err truncated_header
    else parsed (j.parse aad) (take iv_length (drop 8 bytes)) (drop payload_start bytes) aad
