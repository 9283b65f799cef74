-- ===== src/Replicas/Converge.antt =====
-- Devices converge through the calls of app/src/app/core/repositories/ledger.service.ts, however they
-- write, exchange and restart.
use easy_docket.Base.{
  ◌≡◌, ◌≢◌, inl, inr, sym, ◌∙◌, ap, subst, true, false, none, some, List, ◌++◌, arith, In,
  append-In, In-append_right, Bool-cases, Option-cases,
}
use easy_docket.Base.Text.{
  Text, Lacks, eq_text, eq_text→eq, eq_text_refl, ltb_text, ltb_text_irrefl,
}
use easy_docket.Models.{Key, Operation, Entity}
use easy_docket.Db.{key_of, get_row}
use easy_docket.Ledger.Lww.{Identified, SameOps, winner, winner_same, winner_sound, row_of}
use easy_docket.Replicas.{Replica, World, Move, set, Reach, start, later}
use easy_docket.Replicas.Clocks.{IsStamp-device}
use easy_docket.Replicas.Invariant.{Local, Sound, new_replica-Local}
use easy_docket.Replicas.Moves.{Moved}
use easy_docket.Replicas.Keeps.{Move-Moved}

module _ {Row : Type 0} (e : Entity Row) where
  module _ (w : World Row) (sound : Sound e w) (d : Text) (r : Replica Row)
      (added : List (Operation Row)) (m : Moved e w.written d (w.replica d) r added) where
    -- A new operation has a stamp of its own: one of this device is below it, and one of another device
    -- names that device.
    fresh_stamp : (o p : Operation Row) → In o added → In p w.written → o.hlc ≢ p.hlc
    fresh_stamp o p mo mp same =
        let (x, by, above) = m.fresh o mo in
        let y = sound.each p mp in
        let devices : o.device ≡ p.device =
          IsStamp-device x.state y.state o.device p.device x.valid y.valid x.named y.named
            (sym x.stamped ∙ same ∙ y.stamped) in
        let known = (sound.local d).own p mp (sym devices ∙ by) in differ (above p known)
      where
        differ : ltb_text p.hlc o.hlc ≢ true
        differ h = ground (arith, ltb_text_irrefl o.hlc)

    added-Identified : Identified (added ++ w.written)
    added-Identified o p mo mp same = elim (append-In o added w.written mo) [
      | inl a ↦ elim (append-In p added w.written mp) [
        | inl b ↦ m.single o p a b
        | inr b ↦ absurd (fresh_stamp o p a b same)
      ]
      | inr a ↦ elim (append-In p added w.written mp) [
        | inl b ↦ absurd (fresh_stamp p o b a (sym same))
        | inr b ↦ sound.ident o p a b same
      ]
    ]

    other_Local : (c : Text) → d ≢ c → Local (added ++ w.written) c (w.replica c)
    other_Local c differ =
        let h = sound.local c in
        record {
          clock = h.clock;
          ready = h.ready;
          serves = h.serves;
          saved = h.saved;
          knows = h.knows;
          within = λ o n. In-append_right o added w.written (h.within o n);
          own = λ o n f. elim (append-In o added w.written n) [
            | inl a ↦ absurd (differ (sym (m.fresh o a).1 ∙ f))
            | inr b ↦ h.own o b f
          ];
        }

    set_Local : (c : Text) → Local (added ++ w.written) c (set d r w.replica c)
    set_Local c = elim (Bool-cases (eq_text d c)) [
      | inl same ↦
          rw same (subst (λ n. Local (added ++ w.written) n r) (eq_text→eq d c same) m.local)
      | inr other ↦ rw other (other_Local c (λ f. unequal f other))
    ]
      where
        unequal : d ≡ c → eq_text d c ≢ false
        unequal f g = ground (arith, eq_text_refl d)

    moved_Sound : Sound e (record { replica = set d r w.replica; written = added ++ w.written })
    moved_Sound = record {
      local = set_Local;
      each = λ o n. elim (append-In o added w.written n) [
        | inl a ↦ (m.fresh o a).0
        | inr b ↦ sound.each o b
      ];
      ident = added-Identified;
    }

  pub Reach-Sound : (w : World Row) → Reach e w → Sound e w
  Reach-Sound w start = record {
    local = new_replica-Local;
    each = λ o m. absurd m;
    ident = λ o p m n f. absurd m;
  }
  Reach-Sound w (later v d r added reach named move) =
      let sound = Reach-Sound v reach in
      moved_Sound v sound d r added
        (Move-Moved e v sound d (v.replica d) (sound.local d) r added named move)

  -- In every reachable world the devices give no stamp twice: two written operations with one stamp are
  -- one operation.
  pub stamps_unique : (w : World Row) → Reach e w → Identified w.written
  stamps_unique w reach = (Reach-Sound w reach).ident

  -- In every reachable world two devices that have learned the same operations, in whatever order and
  -- however often they received them, hold the same rows.
  pub replicas_converge :
      (w : World Row) (a b : Text)
      → Reach e w
      → SameOps (w.replica a).learned (w.replica b).learned
      → (key : Key)
      → get_row key (w.replica a).ledger.tables ≡ get_row key (w.replica b).ledger.tables
  replicas_converge w a b reach same key =
      let sound = Reach-Sound w reach in
      let h = sound.local b in
      (sound.local a).knows.rows key
      ∙ ap row_of
          (winner_same key _ _ same (λ o p m n. sound.ident o p (h.within o m) (h.within p n)))
      ∙ sym (h.knows.rows key)

  -- In every reachable world a row that a device holds is the value of an operation about that row which
  -- the device has learned and some device has written.
  pub rows_written :
      (w : World Row) (d : Text) (key : Key) (row : Row)
      → Reach e w
      → get_row key (w.replica d).ledger.tables ≡ some row
      → (o : Operation Row) × In o (w.replica d).learned
        × In o w.written
        × (key_of o ≡ key)
        × (o.value ≡ some row)
  rows_written w d key row reach held =
      let h = (Reach-Sound w reach).local d in
      let left : row_of (winner key (w.replica d).learned) ≡ some row =
        sym (h.knows.rows key) ∙ held in
      elim (Option-cases (winner key (w.replica d).learned)) [
        | inl empty ↦ absurd (nothing (rw empty at left))
        | inr (o, found) ↦
            (let (m, k) = winner_sound key o _ found in
              (o, m, h.within o m, k, value o (rw found at left)))
      ]
    where
      nothing : row_of {Row = Row} none ≢ some row
      nothing f = cc

      value : (o : Operation Row) → row_of (some o) ≡ some row → o.value ≡ some row
      value o f = ground arith

  -- In every reachable world, what a device next writes is stamped above all that it has learned.
  pub writes_above :
      (w : World Row) (d : Text) (r : Replica Row) (added : List (Operation Row))
      → Reach e w
      → Lacks b'-' d
      → Move e w.written d (w.replica d) r added
      → (o p : Operation Row) → In o added
      → In p (w.replica d).learned
      → ltb_text p.hlc o.hlc ≡ true
  writes_above w d r added reach named move o p mo mp =
      let sound = Reach-Sound w reach in
      ((Move-Moved e w sound d (w.replica d) (sound.local d) r added named move).fresh o mo).2 p mp
