-- ===== src/Ledger/Latest.antt =====
-- `latestStampFor` of app/src/app/core/repositories/ledger.service.ts finds the stamp of the newest
-- operation.
use easy_docket.Base.{
  ◌≡◌, inl, inr, refl, sym, ◌∙◌, ap, true, false, Option, none, some, List, [], ◌∷◌, arith,
  if◌then◌else◌, Bool-cases,
}
use easy_docket.Base.Text.{Text, ltb_text, ltb_text_trans, ltb_text_connex}
use easy_docket.Models.{Key, eq_key, Operation, LocalOperation}
use easy_docket.Db.{key_of}
use easy_docket.Db.Log.{ops_of}
use easy_docket.Ledger.{newer, latest_from, latest_stamp_for}
use easy_docket.Ledger.Lww.{winner}

abbrev pub hlc_of : {Row : Type 0} → Option (Operation Row) → Option Text
hlc_of none = none
hlc_of (some o) = some o.hlc

-- The greater of two stamps that may be missing.
newest : Option Text → Option Text → Option Text
newest a none = a
newest none (some b) = some b
newest (some a) (some b) = if ltb_text a b then some b else some a

newer-newest : (m : Option Text) (s : Text) → newer m s ≡ newest m (some s)
unfolding newer newest ltb_text
newer-newest none s = refl
newer-newest (some []) [] = refl
newer-newest (some []) (c ∷ s) = refl
newer-newest (some (c ∷ m)) s = refl

newest_none : (b : Option Text) → newest none b ≡ b
unfolding newest
newest_none none = refl
newest_none (some b) = refl

newest_assoc : (a b c : Option Text) → newest (newest a b) c ≡ newest a (newest b c)
unfolding newest
newest_assoc a b none = refl
newest_assoc a none (some c) = refl
newest_assoc none (some b) (some c) = ground arith
newest_assoc (some a) (some b) (some c) = ground (
  arith,
  ltb_text_trans a b c,
  ltb_text_connex a b,
  ltb_text_connex b c,
  ltb_text_trans b a c,
  ltb_text_trans a c b,
)

module _ {Row : Type 0} where
  hlc_of-winner :
      (k : Key) (o : Operation Row) (ops : List (Operation Row))
      → eq_key (key_of o) k ≡ true
      → hlc_of (winner k (o ∷ ops)) ≡ newest (some o.hlc) (hlc_of (winner k ops))
  unfolding winner newest
  hlc_of-winner k o ops h = ground arith

  winner_skip :
      (k : Key) (o : Operation Row) (ops : List (Operation Row))
      → eq_key (key_of o) k ≡ false
      → winner k (o ∷ ops) ≡ winner k ops
  unfolding winner
  winner_skip k o ops h = ground arith

  latest_from-winner :
      (best : Option Text) (k : Key) (log : List (LocalOperation Row))
      → latest_from best k log ≡ newest best (hlc_of (winner k (ops_of log)))
  unfolding latest_from
  latest_from-winner best k [] = unfold newest winner in refl
  latest_from-winner best k (o ∷ log) = elim (Bool-cases (eq_key (key_of o.operation) k)) [
    | inl h ↦ rw h (
        latest_from-winner (newer best o.hlc) k log
        ∙ ap (λ b. newest b (hlc_of (winner k (ops_of log)))) (newer-newest best o.hlc)
        ∙ newest_assoc best (some o.hlc) _
        ∙ ap (newest best) (sym (hlc_of-winner k o.operation (ops_of log) h)))
    | inr h ↦ rw h (
        latest_from-winner best k log
        ∙ ap (λ w. newest best (hlc_of w)) (sym (winner_skip k o.operation (ops_of log) h)))
  ]

  -- The stamp that `latestStampFor` returns is that of the newest operation in the log.
  pub latest_stamp_for-winner :
      (k : Key) (log : List (LocalOperation Row))
      → latest_stamp_for k log ≡ hlc_of (winner k (ops_of log))
  unfolding latest_stamp_for
  latest_stamp_for-winner k log = latest_from-winner none k log ∙ newest_none _
