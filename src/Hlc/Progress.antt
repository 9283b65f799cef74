-- ===== src/Hlc/Progress.antt =====
-- What `tick` and `observe` of app/src/app/core/util/hlc.ts do to the clock.
use easy_docket.Base.{ℕ, ◌+◌, ◌-◌, ◌^◌, ◌≤◌, ◌<◌, ◌≡◌, sym, ◌∙◌, ◌↔◌, ◌⊎◌, true, arith, max}
use easy_docket.Base.Text.{Text, ltb_text, Lacks}
use easy_docket.Hlc.{
  HlcState, max_counter, max_drift_ms, Clock, ok, err, overflow, clock_drift, encode, tick, observe,
  fold_remote,
}
use easy_docket.Hlc.Order.{IsValid, encode_order, decode-encode}

-- The order of clock states: by time, then by counter.
abbrev pub Before : HlcState → HlcState → Type 0
Before s t = (s.physical < t.physical) ⊎ ((s.physical ≡ t.physical) × (s.counter < t.counter))

pub encode-Before :
    (s t : HlcState) (d e : Text)
    → IsValid s
    → IsValid t
    → Before s t
    → ltb_text (encode s d) (encode t e) ≡ true
encode-Before s t d e v w b = ground (arith, encode_order s t d e v w)

-- A successful `tick` at a representable wall time leaves a valid state that is no earlier than the
-- wall time, keeps the device, and returns the stamp of the new state, which is above the stamp of
-- the old one.
pub tick_progress :
    (wall : ℕ) (k k' : Clock) (stamp : Text)
    → wall < 2 ^ 53
    → IsValid k.state
    → tick wall k ≡ (ok stamp, k')
    → IsValid k'.state
      × (wall ≤ k'.state.physical)
      × (k'.device ≡ k.device)
      × (stamp ≡ encode k'.state k.device)
      × (ltb_text (encode k.state k.device) stamp ≡ true)
unfolding tick
tick_progress wall k k' stamp fits v h =
    ground (arith, encode-Before k.state k'.state k.device k.device v)

-- `tick` fails exactly when the wall clock has not passed the state's time and its counter is full,
-- and then it leaves the clock as it was.
pub tick_overflow :
    (wall : ℕ) (k : Clock)
    → (tick wall k ≡ (err overflow, k))
      ↔ ((wall ≤ k.state.physical) × (max_counter ≤ k.state.counter))
unfolding tick
tick_overflow wall k = ground arith

fold_remote_progress :
    (wall : ℕ) (remote : HlcState) (k k' : Clock) (stamp : Text)
    → wall < 2 ^ 53
    → IsValid k.state
    → IsValid remote
    → fold_remote wall remote k ≡ (ok stamp, k')
    → IsValid k'.state
      × (k'.device ≡ k.device)
      × (stamp ≡ encode k'.state k.device)
      × Before k.state k'.state
      × Before remote k'.state
      × (k'.state.physical ≤ max k.state.physical (wall + max_drift_ms))
unfolding observe
fold_remote_progress wall remote k k' stamp fits v w h = ground arith

observe-encode :
    (wall : ℕ) (remote : HlcState) (e : Text) (k : Clock)
    → IsValid remote
    → Lacks b'-' e
    → observe wall (encode remote e) k ≡ fold_remote wall remote k
unfolding observe
observe-encode wall remote e k w l = rw (decode-encode remote e w l, observe)

-- Folding in the stamp that another device, whose name has no dash, wrote for a valid state: if it
-- succeeds, the clock is valid again, keeps its device, and is stamped above both its old stamp and
-- the remote one; a remote clock pulls it at most an hour past the wall time.
pub observe_progress :
    (wall : ℕ) (remote : HlcState) (e : Text) (k k' : Clock) (stamp : Text)
    → wall < 2 ^ 53
    → IsValid k.state
    → IsValid remote
    → Lacks b'-' e
    → observe wall (encode remote e) k ≡ (ok stamp, k')
    → IsValid k'.state
      × (k'.device ≡ k.device)
      × (ltb_text (encode k.state k.device) stamp ≡ true)
      × (ltb_text (encode remote e) stamp ≡ true)
      × (k'.state.physical ≤ max k.state.physical (wall + max_drift_ms))
observe_progress wall remote e k k' stamp fits v w l h =
    let (v', same, written, above, above_remote, drift) =
      fold_remote_progress wall remote k k' stamp fits v w
        (sym (observe-encode wall remote e k w l) ∙ h) in
    (
      v',
      same,
      rw written (encode-Before k.state k'.state k.device k.device v v' above),
      rw written (encode-Before remote k'.state e k.device w v' above_remote),
      drift,
    )

-- A stamp that a device wrote for a valid state is refused for its drift exactly when it is more
-- than an hour ahead of the wall time, and the clock then stays as it was.
pub observe_drift :
    (wall d : ℕ) (remote : HlcState) (e : Text) (k : Clock)
    → IsValid remote
    → Lacks b'-' e
    → (observe wall (encode remote e) k ≡ (err (clock_drift d), k))
      ↔ ((wall + max_drift_ms < remote.physical) × (d ≡ remote.physical - wall))
unfolding observe
observe_drift wall d remote e k w l = rw (observe-encode wall remote e k w l) (ground arith)
