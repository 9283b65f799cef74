-- ===== src/Envelope/Tests.antt =====
-- An envelope with a short header, whose coder keeps the vault only.
use easy_docket.Base.{◌≡◌, refl, some, [], ◌∷◌, arith, replicate}
use easy_docket.Base.Text.{codes}
use easy_docket.Envelope.{
  Bytes, EnvelopeHeader, Json, ok, err, truncated, serialise_envelope, parse_envelope,
}
use easy_docket.Envelope.Frame.{parse_envelope-serialise_envelope}

abbrev plain : Json
plain = record {
  stringify = λ header. header.v;
  parse = λ bytes. some (record { v = bytes; d = []; h = []; t = [] });
}

abbrev of_vault : EnvelopeHeader
of_vault = record { v = codes "vault"; d = []; h = []; t = [] }

abbrev nonce : Bytes
nonce = replicate 12 7

parse_envelope-serialise_envelope_example :
    (bytes : Bytes) × (serialise_envelope plain of_vault nonce (1 ∷ 2 ∷ []) ≡ ok bytes)
    × (parse_envelope plain bytes
        ≡ ok (record { header = of_vault; iv = nonce; payload = 1 ∷ 2 ∷ []; aad = codes "vault" }))
parse_envelope-serialise_envelope_example =
    parse_envelope-serialise_envelope plain of_vault nonce (1 ∷ 2 ∷ []) refl (omega arith) refl

short_refused : parse_envelope plain (codes "EDCK") ≡ err truncated
unfolding parse_envelope
short_refused = refl
