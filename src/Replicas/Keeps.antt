-- ===== src/Replicas/Keeps.antt =====
-- Each move of a device keeps what holds of its replica: the writes, the merges, the pushes and the
-- restarts of app/src/app/core/repositories/ledger.service.ts.
use easy_docket.Base.{ℕ, ◌^◌, ◌<◌, ◌≡◌, refl, sym, ◌∙◌, ap, some, List, [], ◌∷◌, arith}
use easy_docket.Base.Text.{Text, Lacks}
use easy_docket.Hlc
use easy_docket.Hlc.{HlcState, Clock, encode, tick}
use easy_docket.Models.{EntityName, Operation, Entity}
use easy_docket.Ledger.{Ledger, put, remove, initialise, mark_synced}
use easy_docket.Ledger.Knows.{Knows}
use easy_docket.Ledger.Pending.{mark_synced-Knows}
use easy_docket.Ledger.Write.{put-Knows, remove-Knows, put_operation, delete_operation}
use easy_docket.Replicas.{
  Replica, World, Move, wrote, removed, observed, received, pushed, restarted,
}
use easy_docket.Replicas.Invariant.{saved_as, Local, Sound}
use easy_docket.Replicas.Moves.{Moved, clock_serves, write-Written, write-Moved}
use easy_docket.Replicas.Receives.{learned_before, quiet_Moved, observed_Moved, Received-Moved}

initialise_saved :
    {Row : Type 0} (d : Text) (l : Ledger Row) → (initialise d l).clock ≡ some (saved_as d l)
unfolding initialise
initialise_saved d l = ground arith

module _ {Row : Type 0} (e : Entity Row) (w : World Row) (sound : Sound e w) (d : Text)
    (r : Replica Row) (h : Local w.written d r) where
  wrote_Moved :
      (named : Lacks b'-' d) (wall : ℕ) (entity : EntityName) (value : Row) (stamp : Text)
      (k k' : Clock)
      → r.ledger.clock ≡ some k
      → wall < 2 ^ 53
      → tick wall k ≡ (Hlc.ok stamp, k')
      → let o = put_operation e entity (e.with_stamp stamp value) k'.device in
        Moved e w.written d r
          (record { ledger = (put e wall entity value r.ledger).1; learned = o ∷ r.learned })
          (o ∷ [])
  wrote_Moved named wall entity value stamp k k' ready fits ticked =
      let o = put_operation e entity (e.with_stamp stamp value) k'.device in
      let ticked' : tick wall k ≡ (Hlc.ok o.hlc, k') =
        ticked ∙ ap (λ (s : Text). (Hlc.ok s, k')) (sym (e.updated_at-with_stamp stamp value)) in
      let serves = clock_serves e w.written d r named h wall k k' o ready fits ticked' refl in
      let (_, known, ahead, clock, saved, _) =
        put-Knows e wall entity value stamp k k' r.ledger r.learned ready fits serves.valid ticked
          serves.ahead (learned_before e w sound d r h [] (λ p m. absurd m)) h.knows in
      write-Moved e w.written d r named h wall k k' o ready fits ticked' refl _ known ahead clock
        saved
        (write-Written e w.written d r named h wall k k' o ready fits ticked' refl
          (λ row f. ground arith) refl)

  removed_Moved :
      (named : Lacks b'-' d) (wall : ℕ) (entity : EntityName) (id stamp : Text) (k k' : Clock)
      → r.ledger.clock ≡ some k
      → wall < 2 ^ 53
      → tick wall k ≡ (Hlc.ok stamp, k')
      → let o : Operation Row = delete_operation entity id stamp k'.device in
        Moved e w.written d r
          (record { ledger = (remove wall entity id r.ledger).1; learned = o ∷ r.learned })
          (o ∷ [])
  removed_Moved named wall entity id stamp k k' ready fits ticked =
      let o : Operation Row = delete_operation entity id stamp k'.device in
      let serves = clock_serves e w.written d r named h wall k k' o ready fits ticked refl in
      let (_, known, ahead, clock, saved, _) =
        remove-Knows wall entity id stamp k k' r.ledger r.learned ready fits serves.valid ticked
          serves.ahead (learned_before e w sound d r h [] (λ p m. absurd m)) h.knows in
      write-Moved e w.written d r named h wall k k' o ready fits ticked refl _ known ahead clock
        saved
        (write-Written e w.written d r named h wall k k' o ready fits ticked refl (λ row f. cc)
          refl)

  pushed_Moved :
      (stamps : List Text)
      → Moved e w.written d r (record r { ledger = mark_synced stamps r.ledger }) []
  unfolding mark_synced
  pushed_Moved stamps = quiet_Moved e w sound d r h _ (record {
    clock = h.clock;
    ready = h.ready;
    serves = h.serves;
    saved = h.saved;
    knows = mark_synced-Knows stamps r.ledger r.learned h.knows;
    within = h.within;
    own = h.own;
  })

  restarted_Moved : Moved e w.written d r (record r { ledger = initialise d r.ledger }) []
  unfolding initialise
  restarted_Moved =
      let known : Knows (initialise d r.ledger) r.learned = record {
        logged = h.knows.logged;
        newest = h.knows.newest;
        rows = h.knows.rows;
      } in
      quiet_Moved e w sound d r h _ (record {
        clock = saved_as d r.ledger;
        ready = initialise_saved d r.ledger;
        serves = h.saved;
        saved = h.saved;
        knows = known;
        within = h.within;
        own = h.own;
      })

  -- Every move of a device with a name without a dash keeps what holds of its replica.
  pub Move-Moved :
      (r' : Replica Row) (added : List (Operation Row))
      → Lacks b'-' d
      → Move e w.written d r r' added
      → Moved e w.written d r r' added
  Move-Moved r' added named (wrote wall entity value stamp k k' o ready fits ticked eo er ea) =
      rw (er, ea, eo) (wrote_Moved named wall entity value stamp k k' ready fits ticked)
  Move-Moved r' added named (removed wall entity id stamp k k' o ready fits ticked eo er ea) =
      rw (er, ea, eo) (removed_Moved named wall entity id stamp k k' ready fits ticked)
  Move-Moved r' added named (observed wall stamps fits from er ea) =
      rw (er, ea) (observed_Moved e w sound d r h wall stamps fits from)
  Move-Moved r' added named (received wall stamps batch l fits from got run er ea) =
      rw (er, ea) (Received-Moved e w sound d r h wall stamps batch l fits from got run)
  Move-Moved r' added named (pushed stamps er ea) = rw (er, ea) (pushed_Moved stamps)
  Move-Moved r' added named (restarted er ea) = rw (er, ea) restarted_Moved
