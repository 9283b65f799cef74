-- ===== src/Envelope/Frame.antt =====
-- Envelopes of app/src/app/core/crypto/envelope.ts are read back as they were written.
use easy_docket.Base.{
  ℕ, zero, suc, ◌+◌, ◌*◌, ◌≤◌, ◌≡◌, refl, sym, ◌∙◌, ap, true, some, [], ◌∷◌, ◌++◌, arith, length,
  take, drop, length-append, take-append, drop-append,
}
use easy_docket.Base.Text.{eq_text}
use easy_docket.Envelope.{
  Bytes, EnvelopeHeader, Json, ok, envelope_magic, envelope_version, alg_aes_256_gcm, frame,
  byte_at, first_byte, serialise_envelope, parse_envelope, parsed, iv_length, header_offset,
}

drop_nil : (n : ℕ) → drop {A = ℕ} n [] ≡ []
drop_nil zero = refl
drop_nil (suc n) = refl

drop-drop : (n m : ℕ) (xs : Bytes) → drop m (drop n xs) ≡ drop (n + m) xs
drop-drop zero m xs = let e : m ≡ zero + m = omega arith in ap (λ k. drop k xs) e
drop-drop (suc n) m [] = drop_nil m ∙ sym (drop_nil (suc n + m))
drop-drop (suc n) m (x ∷ xs) =
    let e : suc (n + m) ≡ suc n + m = omega arith in drop-drop n m xs ∙ ap (λ k. drop k (x ∷ xs)) e

module _ (j : Json) (header : EnvelopeHeader) (iv payload : Bytes) (twelve : length iv ≡ iv_length)
    (fits : length (j.stringify header) ≤ 0xffff) where
  abbrev aad : Bytes
  aad = j.stringify header

  bytes_of : Bytes
  bytes_of = frame iv aad payload

  length-frame : length bytes_of ≡ header_offset + length aad + length payload
  unfolding bytes_of frame
  length-frame = omega (arith, length-append iv (aad ++ payload), length-append aad payload, twelve)

  part_iv : take iv_length (drop 8 bytes_of) ≡ iv
  unfolding bytes_of frame
  part_iv = ap (λ n. take n (iv ++ (aad ++ payload))) (sym twelve) ∙ take-append iv (aad ++ payload)

  part_rest : drop header_offset bytes_of ≡ aad ++ payload
  unfolding bytes_of frame
  part_rest =
      ap (λ n. drop n (iv ++ (aad ++ payload))) (sym twelve) ∙ drop-append iv (aad ++ payload)

  header_len : byte_at 6 bytes_of * 256 + byte_at 7 bytes_of ≡ length aad
  unfolding bytes_of frame byte_at first_byte
  header_len = omega arith

  part_payload : drop (header_offset + length aad) bytes_of ≡ payload
  part_payload =
      sym (drop-drop header_offset (length aad) bytes_of)
      ∙ ap (drop (length aad)) part_rest
      ∙ drop-append aad payload

  written_as : serialise_envelope j header iv payload ≡ ok bytes_of
  unfolding serialise_envelope bytes_of
  written_as = ground arith

  opening :
      (eq_text (take (length envelope_magic) bytes_of) envelope_magic ≡ true)
      × (byte_at 4 bytes_of ≡ envelope_version)
      × (byte_at 5 bytes_of ≡ alg_aes_256_gcm)
  unfolding bytes_of frame byte_at first_byte eq_text
  opening = (refl, refl, refl)

  parsed_as :
      j.parse aad ≡ some header
      → parse_envelope j bytes_of
        ≡ ok (record { header = header; iv = iv; payload = payload; aad = aad })
  unfolding parse_envelope parsed
  parsed_as back =
      let (magic, version, algorithm) = opening in
      rw
        (
          header_len,
          part_rest,
          take-append aad payload,
          part_iv,
          part_payload,
          back,
          magic,
          version,
          algorithm,
          length-frame,
        )
        (ground arith)

  -- An envelope that is written for an initialisation vector of twelve bytes, and a header of at most 65535
  -- bytes that is read back from them, is parsed into just these parts.
  pub parse_envelope-serialise_envelope :
      j.parse (j.stringify header) ≡ some header
      → (bytes : Bytes) × (serialise_envelope j header iv payload ≡ ok bytes)
        × (parse_envelope j bytes
            ≡ ok (record { header = header; iv = iv; payload = payload; aad = j.stringify header }))
  parse_envelope-serialise_envelope back = (bytes_of, written_as, parsed_as back)
