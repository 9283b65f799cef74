-- ===== src/Hlc/Order.antt =====
-- Stamps of app/src/app/core/util/hlc.ts: their text order and their reading back.
use easy_docket.Base.{◌^◌, ◌≤◌, ◌<◌, ◌≡◌, refl, ◌∙◌, [], ◌∷◌, ◌++◌, arith, ltb, ◌==◌, if◌then◌else◌}
use easy_docket.Base.Text.{Text, ltb_text, ltb_text-append_same, split-append, split-Lacks, Lacks}
use easy_docket.Base.Digits.{fixed}
use easy_docket.Base.Digits.Laws.{
  ltb_text-fixed, pad_start-to_string, length-fixed, parse_digits-fixed, fixed-Lacks,
}
use easy_docket.Hlc.{HlcState, max_counter, encode, decode, ok, numbers, decode_parts}

-- The states that the encoding has room for: milliseconds that a JavaScript number holds exactly,
-- and a counter that the clock has not refused.
pub record IsValid (s : HlcState) : Type 0 where
  pub physical_fits : s.physical < 2 ^ 53
  pub counter_fits : s.counter ≤ max_counter

-- The two numbers of a valid state in their fixed widths.
abbrev stamp_text : HlcState → Text → Text
stamp_text s device = fixed 10 19 s.physical ++ (b'-' ∷ (fixed 16 4 s.counter ++ (b'-' ∷ device)))

encode-fixed : (s : HlcState) (d : Text) → IsValid s → encode s d ≡ stamp_text s d
unfolding encode
encode-fixed s d v =
    rw (pad_start-to_string 10 (omega arith) 18 s.physical (omega arith))
      (rw (pad_start-to_string 16 (omega arith) 3 s.counter (omega arith)))

after_time :
    (s t : HlcState) (d e : Text)
    → IsValid s
    → IsValid t
    → ltb_text
        (b'-' ∷ (fixed 16 4 s.counter ++ (b'-' ∷ d)))
        (b'-' ∷ (fixed 16 4 t.counter ++ (b'-' ∷ e)))
      ≡ (if s.counter == t.counter then ltb_text d e else ltb s.counter t.counter)
after_time s t d e v w =
    ltb_text-append_same (b'-' ∷ []) _ _
    ∙ ltb_text-fixed 16 (omega arith) 4 s.counter t.counter _ _ (omega arith) (omega arith)
    ∙ ground (arith, ltb_text-append_same (b'-' ∷ []) d e)

-- Comparing two stamps as texts compares the times, then the counters, then the devices, for all
-- valid clock states.
pub encode_order :
    (s t : HlcState) (d e : Text)
    → IsValid s
    → IsValid t
    → ltb_text (encode s d) (encode t e) ≡ (
        if s.physical == t.physical
        then (if s.counter == t.counter then ltb_text d e else ltb s.counter t.counter)
        else ltb s.physical t.physical)
encode_order s t d e v w =
    rw (encode-fixed s d v, encode-fixed t e w)
      (ltb_text-fixed 10 (omega arith) 19 s.physical t.physical _ _ (omega arith) (omega arith)
        ∙ ground (arith, after_time s t d e v w))

-- A valid state and a device name with no dash are read back from their stamp.
pub decode-encode :
    (s : HlcState) (d : Text) → IsValid s → Lacks b'-' d → decode (encode s d) ≡ ok (s, d)
unfolding decode decode_parts numbers
decode-encode s d v h =
    rw
      (
        encode-fixed s d v,
        split-append b'-' (fixed 10 19 s.physical) _
            (fixed-Lacks 10 (omega arith) (omega arith) 19 s.physical),
        split-append b'-' (fixed 16 4 s.counter) _
            (fixed-Lacks 16 (omega arith) (omega arith) 4 s.counter),
        split-Lacks b'-' d h,
        length-fixed 10 (omega arith) 19 s.physical,
        length-fixed 16 (omega arith) 4 s.counter,
        parse_digits-fixed 10 (omega arith) (omega arith) 18 s.physical (omega arith),
        parse_digits-fixed 16 (omega arith) (omega arith) 3 s.counter (omega arith),
      )
      refl
