-- ===== src/Ledger/Lww.antt =====
-- The abstract view of the ledger: a set of operations, of which the newest about a row decides it.
-- This is the contract that app/src/app/core/models/oplog.ts states for the operation log.
use easy_docket.Base.{
  ◌≢◌, ◌≡◌, ◌↔◌, inl, inr, refl, sym, ◌∙◌, ap, false, Option, none, some, List, [], ◌∷◌, arith,
  if◌then◌else◌, Option-cases, In,
}
use easy_docket.Base.Text.{
  ltb_text, ltb_text_trans, ltb_text_connex, ltb_text_irrefl, ltb_text_asym,
}
use easy_docket.Models.{Key, eq_key, eq_key→eq, eq_key_refl, Operation, OpKind, put, delete}
use easy_docket.Db.{key_of}

module _ {Row : Type 0} where
  abbrev pub later : Operation Row → Option (Operation Row) → Option (Operation Row)
  later o none = some o
  later o (some p) = if ltb_text o.hlc p.hlc then some p else some o

  -- The operation about `k` with the greatest stamp.
  unfoldable pub winner : Key → List (Operation Row) → Option (Operation Row)
  winner k [] = none
  winner k (o ∷ ops) = if eq_key (key_of o) k then later o (winner k ops) else winner k ops

  -- The row that the newest operation leaves.
  abbrev pub row_by : OpKind → Option Row → Option Row
  row_by put value = value
  row_by delete value = none

  abbrev pub row_of : Option (Operation Row) → Option Row
  row_of none = none
  row_of (some o) = row_by o.op o.value

  -- A stamp identifies its operation.
  abbrev pub Identified : List (Operation Row) → Type 0
  Identified ops = (o p : Operation Row) → In o ops → In p ops → o.hlc ≡ p.hlc → o ≡ p

  abbrev pub SameOps : List (Operation Row) → List (Operation Row) → Type 0
  SameOps xs ys = (o : Operation Row) → In o xs ↔ In o ys

  pub winner_sound :
      (k : Key) (o : Operation Row) (ops : List (Operation Row))
      → winner k ops ≡ some o
      → In o ops × (key_of o ≡ k)
  unfolding winner
  winner_sound k o [] h = cc
  winner_sound k o (p ∷ ops) h = ground (arith, winner_sound k o ops, eq_key→eq (key_of p) k)

  pub winner-none :
      (k : Key) (o : Operation Row) (ops : List (Operation Row))
      → winner k ops ≡ none
      → In o ops
      → key_of o ≢ k
  unfolding winner
  winner-none k o [] h m e = absurd m
  winner-none k o (p ∷ ops) h (inl x) e = ground (arith, eq_key_refl k)
  winner-none k o (p ∷ ops) h (inr m) e = ground (arith, winner-none k o ops)

  pub winner_max :
      (k : Key) (o p : Operation Row) (ops : List (Operation Row))
      → winner k ops ≡ some o
      → In p ops
      → key_of p ≡ k
      → ltb_text o.hlc p.hlc ≡ false
  unfolding winner
  winner_max k o p [] h m e = absurd m
  winner_max k o p (q ∷ ops) h (inl x) e =
      ground (arith, eq_key_refl k, ltb_text_irrefl p.hlc, ltb_text_asym p.hlc o.hlc)
  winner_max k o p (q ∷ ops) h (inr m) e = elim (Option-cases (winner k ops)) [
    | inl empty ↦ absurd (winner-none k p ops empty m e)
    | inr (w, found) ↦ ground (
      arith,
      winner_max k w p ops found m e,
      ltb_text_trans w.hlc q.hlc p.hlc,
      ltb_text_trans w.hlc p.hlc q.hlc,
      ltb_text_connex q.hlc w.hlc,
      ltb_text_trans q.hlc p.hlc w.hlc,
    )
  ]

  -- The winner depends only on which operations there are, where stamps tell them apart.
  pub winner_same :
      (k : Key) (xs ys : List (Operation Row))
      → SameOps xs ys
      → Identified ys
      → winner k xs ≡ winner k ys
  winner_same k xs ys same ident = compare (winner k xs) (winner k ys) refl refl
    where
      found :
          (a b : Operation Row)
          → winner k xs ≡ some a
          → winner k ys ≡ some b
          → In a xs × (key_of a ≡ k)
          → In b ys × (key_of b ≡ k)
          → a ≡ b
      found a b ea eb (ma, ka) (mb, kb) =
          let ma' = (same a).0 ma in
          let mb' = (same b).1 mb in
          ident a b ma' mb (
            ltb_text_connex a.hlc b.hlc (winner_max k a b xs ea mb' kb)
              (winner_max k b a ys eb ma' ka))

      compare :
          (o p : Option (Operation Row))
          → winner k xs ≡ o
          → winner k ys ≡ p
          → winner k xs ≡ winner k ys
      compare none none ea eb = ea ∙ sym eb
      compare none (some b) ea eb =
          let (m, e) = winner_sound k b ys eb in absurd (winner-none k b xs ea ((same b).1 m) e)
      compare (some a) none ea eb =
          let (m, e) = winner_sound k a xs ea in absurd (winner-none k a ys eb ((same a).0 m) e)
      compare (some a) (some b) ea eb =
          ea
          ∙ ap (λ o. some o) (found a b ea eb (winner_sound k a xs ea) (winner_sound k b ys eb))
          ∙ sym eb
