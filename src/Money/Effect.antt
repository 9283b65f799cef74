-- ===== src/Money/Effect.antt =====
-- What a transaction does to balances: `signedFor` of app/src/app/core/util/money.ts.
use easy_docket.Base.{
  ◌≡◌, ◌≢◌, inl, inr, refl, sym, subst, ap, ◌∙◌, some, List, [], ◌∷◌, if◌then◌else◌, In, Bool-cases,
}
use easy_docket.Base.Int.{ℤ, pos, ◌+ℤ◌, neg}
use easy_docket.Base.Int.Laws.{plus_zero, zero_plus, swap_sums, neg_plus}
use easy_docket.Base.Text.{Text, eq_text, eq_text_refl, eq_text→eq}
use easy_docket.Models.Records.{income, expense, transfer, Transaction}
use easy_docket.Money.{is_counter, signed_for}

-- The sum of a change over some accounts.
unfoldable pub sum_over : (Text → ℤ) → List Text → ℤ
sum_over change [] = pos 0
sum_over change (a ∷ accounts) = change a +ℤ sum_over change accounts

-- No account stands twice in a list.
abbrev pub Distinct : List Text → Type 0
Distinct [] = Unit
Distinct (a ∷ accounts) = (In a accounts → ⊥) × Distinct accounts

-- A change of one account.
only : Text → ℤ → Text → ℤ
only account x a = if eq_text account a then x else pos 0

sum_over-same :
    (f g : Text → ℤ)
    → ((a : Text) → f a ≡ g a)
    → (accounts : List Text) → sum_over f accounts ≡ sum_over g accounts
unfolding sum_over
sum_over-same f g h [] = refl
sum_over-same f g h (a ∷ accounts) = rw (h a, sum_over-same f g h accounts) refl

sum_over-+ℤ :
    (f g : Text → ℤ) (accounts : List Text)
    → sum_over (λ a. f a +ℤ g a) accounts ≡ sum_over f accounts +ℤ sum_over g accounts
unfolding sum_over
sum_over-+ℤ f g [] = sym (plus_zero (pos 0))
sum_over-+ℤ f g (a ∷ accounts) =
    ap (λ x. (f a +ℤ g a) +ℤ x) (sum_over-+ℤ f g accounts)
    ∙ swap_sums (f a) (g a) (sum_over f accounts) (sum_over g accounts)

sum_over-only_none :
    (account : Text) (x : ℤ) (accounts : List Text)
    → (In account accounts → ⊥)
    → sum_over (only account x) accounts ≡ pos 0
unfolding sum_over only
sum_over-only_none account x [] h = refl
sum_over-only_none account x (a ∷ accounts) h = elim (Bool-cases (eq_text account a)) [
  | inl e ↦ absurd (h (inl (eq_text→eq account a e)))
  | inr e ↦ rw (e, sum_over-only_none account x accounts (λ m. h (inr m))) (zero_plus (pos 0))
]

sum_over-only :
    (account : Text) (x : ℤ) (accounts : List Text)
    → Distinct accounts
    → In account accounts
    → sum_over (only account x) accounts ≡ x
unfolding sum_over only
sum_over-only account x [] d m = absurd m
sum_over-only account x (a ∷ accounts) (new, d) (inl e) =
    rw (← e, eq_text_refl account)
      (ap (λ y. x +ℤ y)
          (sum_over-only_none account x accounts (λ m. new (subst (λ b. In b accounts) e m)))
        ∙ plus_zero x)
sum_over-only account x (a ∷ accounts) (new, d) (inr m) = elim (Bool-cases (eq_text account a)) [
  | inl e ↦ absurd (new (subst (λ b. In b accounts) (eq_text→eq account a e) m))
  | inr e ↦ rw (e, sum_over-only account x accounts d m) (zero_plus x)
]

module _ {Rate : Type 0} (txn : Transaction Rate) where
  income_as_only :
      txn.kind ≡ income → (a : Text) → signed_for a txn ≡ only txn.account_id txn.amount a
  unfolding signed_for only
  income_as_only k a = rw k refl

  expense_as_only :
      txn.kind ≡ expense → (a : Text) → signed_for a txn ≡ only txn.account_id (neg txn.amount) a
  unfolding signed_for only
  expense_as_only k a = rw k refl

  transfer_as_only :
      (counter : Text)
      → txn.kind ≡ transfer
      → txn.counter_account_id ≡ some counter
      → counter ≢ txn.account_id
      → (a : Text)
      → signed_for a txn ≡ only txn.account_id (neg txn.amount) a +ℤ only counter txn.amount a
  unfolding signed_for only is_counter
  transfer_as_only counter k c apart a =
      rw (k, c)
        (elim (Bool-cases (eq_text txn.account_id a)) [
          | inl e ↦ elim (Bool-cases (eq_text counter a)) [
            | inl f ↦ absurd (apart (eq_text→eq counter a f ∙ sym (eq_text→eq txn.account_id a e)))
            | inr f ↦ rw (e, f) (sym (plus_zero (neg txn.amount)))
          ]
          | inr e ↦ rw e (sym (zero_plus _))
        ])

  module _ (accounts : List Text) (distinct : Distinct accounts)
      (known : In txn.account_id accounts) where
    -- Over distinct accounts, its own among them, an income adds its amount, and nothing else.
    pub income_total : txn.kind ≡ income → sum_over (λ a. signed_for a txn) accounts ≡ txn.amount
    income_total k =
        sum_over-same _ _ (income_as_only k) accounts
        ∙ sum_over-only txn.account_id txn.amount accounts distinct known

    -- Over distinct accounts, its own among them, an expense takes its amount off, and nothing else.
    pub expense_total :
        txn.kind ≡ expense → sum_over (λ a. signed_for a txn) accounts ≡ neg txn.amount
    expense_total k =
        sum_over-same _ _ (expense_as_only k) accounts
        ∙ sum_over-only txn.account_id (neg txn.amount) accounts distinct known

    -- A transfer between two different accounts of a list of distinct ones leaves their total as it is.
    pub transfer_total :
        (counter : Text)
        → txn.kind ≡ transfer
        → txn.counter_account_id ≡ some counter
        → counter ≢ txn.account_id
        → In counter accounts
        → sum_over (λ a. signed_for a txn) accounts ≡ pos 0
    transfer_total counter k c apart m =
        sum_over-same _ _ (transfer_as_only counter k c apart) accounts
        ∙ sum_over-+ℤ _ _ accounts
        ∙ rw
            (
              sum_over-only txn.account_id (neg txn.amount) accounts distinct known,
              sum_over-only counter txn.amount accounts distinct m,
            )
            (neg_plus txn.amount)
