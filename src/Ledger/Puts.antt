-- ===== src/Ledger/Puts.antt =====
-- `put` of app/src/app/core/repositories/ledger.service.ts whatever the clock does: what its callers
-- rely on when they do not look at the clock.
use easy_docket.Base.{
  false, ℕ, ◌≡◌, ◌⊎◌, inl, inr, refl, sym, subst, ◌∙◌, ap, ◌^◌, ◌<◌, Option, none, some, List, ◌∷◌,
  arith, if◌then◌else◌,
}
use easy_docket.Base.Text.{Text}
use easy_docket.Hlc.{Clock, tick}
use easy_docket.Hlc
use easy_docket.Hlc.Order.{IsValid}
use easy_docket.Hlc.Progress.{tick_progress}
use easy_docket.Models.{EntityName, Key, eq_key, Operation, Entity}
use easy_docket.Db.{key_of, get_row, delete_row}
use easy_docket.Db.Log.{get_row-delete_row, get_row-put_row}
use easy_docket.Ledger.{
  Ledger, Step, Error, clock_error, not_initialised, with_stamp, write_put, write_remove, ok, err,
  put, remove,
}
use easy_docket.Ledger.Lww.{Identified}
use easy_docket.Ledger.Knows.{Knows}
use easy_docket.Ledger.Write.{
  Ahead, Identified-above, Above-tick, put_operation, put-Knows, with_stamp_run,
  get_row-put_row_own,
}

some_inj : {a b : Clock} → some a ≡ some b → a ≡ b
some_inj f = cc

tick_err : (wall : ℕ) (k k' : Clock) (x : Hlc.Error) → tick wall k ≡ (Hlc.err x, k') → k' ≡ k
unfolding tick
tick_err wall k k' x h = ground arith

module _ {Row : Type 0} (e : Entity Row) where
  -- What `put` leaves, by the tick.
  data Put (wall : ℕ) (entity : EntityName) (value : Row) (l : Ledger Row) (s : Step Row Row)
      : Type 0 where
    refused : (x : Error) → s ≡ (err x, l) → Put wall entity value l s
    stored :
        (stamp : Text) (k k' : Clock)
        → l.clock ≡ some k
        → tick wall k ≡ (Hlc.ok stamp, k')
        → s ≡ write_put e entity value stamp k' l
        → Put wall entity value l s

  module _ (wall : ℕ) (entity : EntityName) (value : Row) (l : Ledger Row) where
    refused_run :
        (k k' : Clock) (x : Hlc.Error)
        → l.clock ≡ some k
        → tick wall k ≡ (Hlc.err x, k')
        → put e wall entity value l ≡ (err (clock_error x), record l { clock = some k' })
    unfolding put with_stamp
    refused_run k k' x ready t = ground arith

    Put-refused :
        (k k' : Clock) (x : Hlc.Error)
        → l.clock ≡ some k
        → tick wall k ≡ (Hlc.err x, k')
        → Put wall entity value l (put e wall entity value l)
    Put-refused k k' x ready t =
        let back : record l { clock = some k' } ≡ l =
          ap (λ c. record l { clock = c })
            (ap (λ (c : Clock). some c) (tick_err wall k k' x t) ∙ sym ready) in
        refused (clock_error x)
          (refused_run k k' x ready t ∙ ap (λ l'. (err (clock_error x), l')) back)

    Put-unready : l.clock ≡ none → Put wall entity value l (put e wall entity value l)
    unfolding put with_stamp
    Put-unready f = refused not_initialised (ground arith)

    put-Put : Put wall entity value l (put e wall entity value l)
    put-Put = by_clock l.clock refl
      where
        by_tick :
            (k : Clock)
            → l.clock ≡ some k
            → (t : Hlc.Step Text) → tick wall k ≡ t
            → Put wall entity value l (put e wall entity value l)
        by_tick k ready (Hlc.ok stamp, k') t =
            stored stamp k k' ready t
              (unfold put in with_stamp_run wall (write_put e entity value) stamp k k' l ready t)
        by_tick k ready (Hlc.err x, k') t = Put-refused k k' x ready t

        by_clock :
            (c : Option Clock) → l.clock ≡ c → Put wall entity value l (put e wall entity value l)
        by_clock none f = Put-unready f
        by_clock (some k) f = by_tick k f (tick wall k) refl

    -- A `put` that returns a row returns the value with a stamp, and the row can be read back; one that
    -- throws leaves the ledger.
    pub put-returns :
        let (r, l') = put e wall entity value l in
        ((stamp : Text) × (r ≡ ok (e.with_stamp stamp value))
          × (get_row (entity, e.id value) l'.tables ≡ some (e.with_stamp stamp value)))
        ⊎ ((x : Error) × (r ≡ err x) × (l' ≡ l))
    put-returns = by_case put-Put
      where
        by_case :
            Put wall entity value l (put e wall entity value l)
            → let (r, l') = put e wall entity value l in
              ((stamp : Text) × (r ≡ ok (e.with_stamp stamp value))
                × (get_row (entity, e.id value) l'.tables ≡ some (e.with_stamp stamp value)))
              ⊎ ((x : Error) × (r ≡ err x) × (l' ≡ l))
        by_case (refused x s) = rw s (inr (x, refl, refl))
        by_case (stored stamp k k' ready t s) = rw s (
            inl (
              stamp,
              unfold write_put in refl,
              unfold write_put in get_row-put_row_own e entity value stamp l.tables,
            ))

-- A `put` leaves the rows under other keys.
pub put_other :
    {Row : Type 0} (e : Entity Row) (wall : ℕ) (entity : EntityName) (value : Row) (l : Ledger Row)
    (k : Key)
    → eq_key (entity, e.id value) k ≡ false
    → get_row k (put e wall entity value l).1.tables ≡ get_row k l.tables
put_other e wall entity value l k other = by_case (put-Put e wall entity value l)
  where
    by_case :
        Put e wall entity value l (put e wall entity value l)
        → get_row k (put e wall entity value l).1.tables ≡ get_row k l.tables
    by_case (refused x s) = rw s refl
    by_case (stored stamp k1 k' ready t s) =
        let row = e.with_stamp stamp value in
        rw s (
          unfold write_put in
          (get_row-put_row k (entity, e.id row) row l.tables
            ∙ rw (e.id-with_stamp stamp value, other) refl))

-- A ledger that knows `ops`, with a clock at or past them.
pub record Ready {Row : Type 0} (l : Ledger Row) (ops : List (Operation Row)) : Type 0 where
  pub clock : Clock
  pub ready : l.clock ≡ some clock
  pub valid : IsValid clock.state
  pub ahead : Ahead clock ops
  pub ident : Identified ops
  pub knows : Knows l ops

-- A `put` at a representable time keeps that, whether it throws, and then changes nothing, or adds its
-- operation.
pub put-Ready :
    {Row : Type 0} (e : Entity Row) (wall : ℕ) (entity : EntityName) (value : Row) (l : Ledger Row)
    (ops : List (Operation Row))
    → wall < 2 ^ 53
    → Ready l ops
    → let (r, l') = put e wall entity value l in
      ((x : Error) × (r ≡ err x) × (l' ≡ l))
      ⊎ ((o : Operation Row) × (key_of o ≡ (entity, e.id value))
          × ((row : Row) × (r ≡ ok row))
          × Ready l' (o ∷ ops))
put-Ready {Row = Row} e wall entity value l ops fits h = by_case (put-Put e wall entity value l)
  where
    by_case :
        Put e wall entity value l (put e wall entity value l)
        → let (r, l') = put e wall entity value l in
          ((x : Error) × (r ≡ err x) × (l' ≡ l))
          ⊎ ((o : Operation Row) × (key_of o ≡ (entity, e.id value))
              × ((row : Row) × (r ≡ ok row))
              × Ready l' (o ∷ ops))
    by_case (refused x s) = rw s (inl (x, refl, refl))
    by_case (stored stamp k k' ready t s) =
        let same : h.clock ≡ k = some_inj (sym h.ready ∙ ready) in
        let valid = subst (λ c. IsValid c.state) same h.valid in
        let ahead = subst (λ c. Ahead c ops) same h.ahead in
        let o = put_operation e entity (e.with_stamp stamp value) k'.device in
        let t' : tick wall k ≡ (Hlc.ok o.hlc, k') =
          t ∙ ap (λ (z : Text). (Hlc.ok z, k')) (sym (e.updated_at-with_stamp stamp value)) in
        let (returned, known, ahead', clock, _, _) =
          put-Knows e wall entity value stamp k k' l ops ready fits valid t ahead h.ident h.knows in
        let (v, _, _, _, _) = tick_progress wall k k' stamp fits valid t in
        inr (
          o,
          ap (λ (i : Text). (entity, i)) (e.id-with_stamp stamp value),
          (_, returned),
          record {
            clock = k';
            ready = clock;
            valid = v;
            ahead = ahead';
            ident =
                Identified-above o l ops (Above-tick wall k k' o l ops fits valid t' ahead) h.ident;
            knows = known;
          },
        )

tables_left :
    {Row : Type 0} (wall : ℕ) (entity : EntityName) (id : Text) (l l' : Ledger Row)
    → remove wall entity id l ≡ (ok tt, l')
    → l'.tables ≡ delete_row (entity, id) l.tables
unfolding remove with_stamp write_remove
tables_left wall entity id l l' h = ground arith

-- A `remove` that returns has taken the row away and no other.
pub remove-returns :
    {Row : Type 0} (wall : ℕ) (entity : EntityName) (id : Text) (l l' : Ledger Row)
    → remove wall entity id l ≡ (ok tt, l')
    → (k : Key) → get_row k l'.tables ≡ (if eq_key (entity, id) k then none else get_row k l.tables)
remove-returns {Row = Row} wall entity id l l' h k =
    ap (λ t. get_row k t) (tables_left wall entity id l l' h)
    ∙ get_row-delete_row k (entity, id) l.tables
