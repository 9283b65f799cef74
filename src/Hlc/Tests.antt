-- ===== src/Hlc/Tests.antt =====
-- The clock of app/src/app/core/util/hlc.ts at concrete stamps.
use easy_docket.Base.{◌+◌, ◌-◌, ◌≤◌, ◌≡◌, refl, true, arith, ltb, ◌==◌, if◌then◌else◌, max}
use easy_docket.Base.Digits.{parse_digits, pad_start, to_string}
use easy_docket.Base.Text.{Text, codes, split, ltb_text}
use easy_docket.Hlc.{HlcState, Clock, ok, max_drift_ms, encode, decode, tick, observe}
use easy_docket.Hlc.Order.{IsValid, encode_order, decode-encode}
use easy_docket.Hlc.Progress.{tick_progress, observe_progress}

abbrev phone : Text
phone = codes "3f9a2c17"

abbrev laptop : Text
laptop = codes "0b00c5a1"

abbrev monday : HlcState
monday = record { physical = 1739059200000; counter = 0x2a }

abbrev tuesday : HlcState
tuesday = record { physical = 1739145600000; counter = 0 }

abbrev clock : Clock
clock = record { device = phone; state = monday }

encode-monday : encode monday phone ≡ codes "0000001739059200000-002a-3f9a2c17"
unfolding encode pad_start to_string
encode-monday = refl

encode_order_example : ltb_text (encode monday phone) (encode tuesday laptop) ≡ (
    if monday.physical == tuesday.physical
    then (if monday.counter == tuesday.counter
        then ltb_text phone laptop
        else ltb monday.counter tuesday.counter)
    else ltb monday.physical tuesday.physical)
encode_order_example = encode_order monday tuesday phone laptop (omega arith) (omega arith)

decode-encode_example : decode (encode monday phone) ≡ ok (monday, phone)
decode-encode_example = decode-encode monday phone (omega arith) (omega arith)

-- A second tick in the same millisecond.
tick_progress_example :
    let s : HlcState = record { physical = 1739059200000; counter = 0x2b } in
    IsValid s
    × (1739059200000 ≤ s.physical)
    × (phone ≡ phone)
    × (encode s phone ≡ encode s phone)
    × (ltb_text (encode monday phone) (encode s phone) ≡ true)
tick_progress_example =
    let s : HlcState = record { physical = 1739059200000; counter = 0x2b } in
    tick_progress 1739059200000 clock (record { device = phone; state = s }) (encode s phone)
      (omega arith) (omega arith) (unfold tick in refl)

observe_progress_example :
    let s : HlcState = record { physical = 1739145600000; counter = 1 } in
    IsValid s
    × (phone ≡ phone)
    × (ltb_text (encode monday phone) (encode s phone) ≡ true)
    × (ltb_text (encode tuesday laptop) (encode s phone) ≡ true)
    × (s.physical ≤ max monday.physical (1739145600000 + max_drift_ms - 5))
observe_progress_example =
    let s : HlcState = record { physical = 1739145600000; counter = 1 } in
    observe_progress 1739145599995 tuesday laptop clock (record { device = phone; state = s })
      (encode s phone) (omega arith) (omega arith) (omega arith) (omega arith)
      (unfold observe decode encode split parse_digits pad_start to_string in refl)

abbrev full_clock : Clock
full_clock = record { device = phone; state = record { physical = 50; counter = 0xffff } }
