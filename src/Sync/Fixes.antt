-- ===== src/Sync/Fixes.antt =====
-- Steps of the sync of app/src/app/core/sync/sync.service.ts that leave a part of the device alone,
-- whether they succeed or fail.
pub mod Steps
use easy_docket.Base.{◌≡◌, refl, ◌∙◌, Bool, true, false, Option, none, some, if◌then◌else◌}
use easy_docket.Base.Text.{Text}
use easy_docket.Models.{Entity}
use easy_docket.Ledger
use easy_docket.Ledger.{Ledger}
use easy_docket.Sync.Remote.{
  Reply, ok, err, Device, M, ◌>>=◌, ◌>>◌, return, throw, remote, local, on_ledger,
}

module _ {Row B : Type 0} (view : Device Row → B) where
  -- What `view` shows of the device is the same afterwards.
  abbrev pub Fixes : {Store A : Type 0} → M Row Store A → Type 0
  Fixes {Store} m = (d : Device Row) (s : Store) → view (m d s).1 ≡ view d

  pub Fixes-bind :
      {Store A C : Type 0} (m : M Row Store A) (f : A → M Row Store C)
      → Fixes m
      → ((a : A) → Fixes (f a))
      → Fixes (m >>= f)
  unfolding ◌>>=◌
  Fixes-bind {Store} {A} {C} m f hm hf d s = after (m d s).0 (m d s).1 (m d s).2 (hm d s)
    where
      after :
          (r : Reply A) (d' : Device Row) (s' : Store)
          → view d' ≡ view d
          → view (((λ d0 s0. (r, d', s')) >>= f) d s).1 ≡ view d
      after (ok a) d' s' h = hf a d' s' ∙ h
      after (err e) d' s' h = h

  pub Fixes-option :
      {Store A X : Type 0} (o : Option X) (m : M Row Store A) (f : X → M Row Store A)
      → Fixes m
      → ((x : X) → Fixes (f x))
      → Fixes {Store = Store} {A = A} (elim o [ none ↦ m | some x ↦ f x ])
  Fixes-option none m f hm hf = hm
  Fixes-option (some x) m f hm hf = hf x

  pub Fixes-if :
      {Store A : Type 0} (b : Bool) (m n : M Row Store A)
      → Fixes m
      → Fixes n
      → Fixes {Store = Store} {A = A} (if b then m else n)
  Fixes-if true m n hm hn = hm
  Fixes-if false m n hm hn = hn
