-- ===== src/Conversion/Latest.antt =====
-- The quote that `rateFor` of app/src/app/core/money/conversion.ts picks.
use easy_docket.Base.{
  ◌≡◌, ◌≢◌, sym, ◌∙◌, Option, ◌⊎◌, inl, inr, refl, Bool, true, false, none, some, List, [], ◌∷◌,
  arith, In, Bool-cases,
}
use easy_docket.Base.Text.{
  Text, eq_text, eq_text→eq, eq_text_iff, ltb_text, ltb_text_trans, ltb_text_connex,
  ltb_text_irrefl, ltb_text_asym,
}
use easy_docket.Models.Records.{ExchangeRate}
use easy_docket.Money.{upper}
use easy_docket.Conversion.{same_currency, is_usable, better, rate_from, rate_for}

module _ {W : Type 0} (usable : ExchangeRate W → Bool) where
  -- The result of the loop from a best quote so far.
  pub record Best (best : ExchangeRate W) (rates : List (ExchangeRate W)) (r : ExchangeRate W)
      : Type 0 where
    pub origin : (r ≡ best) ⊎ (In r rates × (usable r ≡ true))
    pub above_best : ltb_text r.date best.date ≡ false
    pub above_all :
        (c : ExchangeRate W) → In c rates → usable c ≡ true → ltb_text r.date c.date ≡ false

  not_before_trans :
      (a b c : Text) → ltb_text a b ≡ false → ltb_text b c ≡ false → ltb_text a c ≡ false
  not_before_trans a b c h k =
      ground (arith, ltb_text_trans b a c, ltb_text_connex a b, ltb_text_asym b a)

  rate_from-Best :
      (best : ExchangeRate W) (rates : List (ExchangeRate W))
      → (r : ExchangeRate W) × (rate_from usable (some best) rates ≡ some r) × Best best rates r
  unfolding rate_from better
  rate_from-Best best [] = (
    best,
    refl,
    record {
      origin = inl refl;
      above_best = ltb_text_irrefl best.date;
      above_all = λ c m. absurd m;
    },
  )
  rate_from-Best best (c ∷ rates) = elim (Bool-cases (usable c)) [
    | inl fit ↦ elim (Bool-cases (ltb_text best.date c.date)) [
      | inl newer ↦
          let (r, done, b) = rate_from-Best c rates in
          (
            r,
            ground arith,
            record {
              origin = elim b.origin [
                | inl e ↦ inr (inl e, ground arith)
                | inr (m, u) ↦ inr (inr m, u)
              ];
              above_best =
                  not_before_trans r.date c.date best.date b.above_best
                    (ltb_text_asym best.date c.date newer);
              above_all = λ x m u. elim m [ inl e ↦ rw e b.above_best | inr n ↦ b.above_all x n u ];
            },
          )
      | inr older ↦
          let (r, done, b) = rate_from-Best best rates in
          (
            r,
            ground arith,
            record {
              origin = elim b.origin [ inl e ↦ inl e | inr (m, u) ↦ inr (inr m, u) ];
              above_best = b.above_best;
              above_all = λ x m u. elim m [
                | inl e ↦ rw e (not_before_trans r.date best.date c.date b.above_best older)
                | inr n ↦ b.above_all x n u
              ];
            },
          )
    ]
    | inr unfit ↦
        let (r, done, b) = rate_from-Best best rates in
        (
          r,
          ground arith,
          record {
            origin = elim b.origin [ inl e ↦ inl e | inr (m, u) ↦ inr (inr m, u) ];
            above_best = b.above_best;
            above_all = λ x m u. elim m [ inl e ↦ ground arith | inr n ↦ b.above_all x n u ];
          },
        )
  ]

  -- The quote is one of the rates, usable, and no usable one is of a later date.
  pub record Picked (rates : List (ExchangeRate W)) (r : ExchangeRate W) : Type 0 where
    pub among : In r rates
    pub fits : usable r ≡ true
    pub latest :
        (c : ExchangeRate W) → In c rates → usable c ≡ true → ltb_text r.date c.date ≡ false

  rate_from-Picked :
      (rates : List (ExchangeRate W))
      → ((rate_from usable none rates ≡ none)
          × ((c : ExchangeRate W) → In c rates → usable c ≡ false))
        ⊎ ((r : ExchangeRate W) × (rate_from usable none rates ≡ some r) × Picked rates r)
  unfolding rate_from better
  rate_from-Picked [] = inl (refl, λ c m. absurd m)
  rate_from-Picked (c ∷ rates) = elim (Bool-cases (usable c)) [
    | inl fit ↦
        let (r, done, b) = rate_from-Best c rates in
        inr (
          r,
          ground arith,
          record {
            among = elim b.origin [ inl e ↦ inl e | inr (m, u) ↦ inr m ];
            fits = elim b.origin [ inl e ↦ rw e fit | inr (m, u) ↦ u ];
            latest = λ x m u. elim m [ inl e ↦ rw e b.above_best | inr n ↦ b.above_all x n u ];
          },
        )
    | inr unfit ↦ elim (rate_from-Picked rates) [
      | inl (done, all_unfit) ↦
          inl (ground arith, λ x m. elim m [ inl e ↦ rw e unfit | inr n ↦ all_unfit x n ])
      | inr (r, done, p) ↦ inr (
        r,
        ground arith,
        record {
          among = inr p.among;
          fits = p.fits;
          latest = λ x m u. elim m [ inl e ↦ ground arith | inr n ↦ p.latest x n u ];
        },
      )
    ]
  ]

-- A quote for the pair, the letters' case aside, of the date or an earlier one.
pub record Quotes {W : Type 0} (base quote date : Text) (r : ExchangeRate W) : Type 0 where
  pub same_base : upper r.base ≡ upper base
  pub same_quote : upper r.quote ≡ upper quote
  pub no_later : (r.date ≡ date) ⊎ (ltb_text r.date date ≡ true)

module _ {W : Type 0} (base quote date : Text) where
  is_usable-Quotes :
      (r : ExchangeRate W) → is_usable base quote date r ≡ true → Quotes base quote date r
  unfolding is_usable same_currency
  is_usable-Quotes r h = record {
    same_base = ground (arith, eq_text→eq (upper r.base) (upper base));
    same_quote = ground (arith, eq_text→eq (upper r.quote) (upper quote));
    no_later = ground (arith, ltb_text_connex r.date date);
  }

  Quotes-is_usable :
      (r : ExchangeRate W) → Quotes base quote date r → is_usable base quote date r ≡ true
  unfolding is_usable same_currency
  Quotes-is_usable r h = ground (
    arith,
    (eq_text_iff (upper r.base) (upper base)).1 h.same_base,
    (eq_text_iff (upper r.quote) (upper quote)).1 h.same_quote,
    not_later r.date h.no_later,
  )
    where
      not_later : (d : Text) → (d ≡ date) ⊎ (ltb_text d date ≡ true) → ltb_text date d ≡ false
      not_later d (inl same) = rw same (ltb_text_irrefl date)
      not_later d (inr earlier) = ltb_text_asym d date earlier

-- What `rateFor` should give: nothing within one currency or where no rate quotes the pair on the date
-- or before it, else such a rate, than which no other such rate is of a later date.
pub data Found {W : Type 0} (rates : List (ExchangeRate W)) (base quote date : Text)
    : Option (ExchangeRate W) → Type 0 where
  one_currency : upper base ≡ upper quote → Found rates base quote date none
  no_quote :
      upper base ≢ upper quote
      → ((c : ExchangeRate W) → In c rates → Quotes base quote date c → ⊥)
      → Found rates base quote date none
  quote_found :
      (r : ExchangeRate W)
      → upper base ≢ upper quote
      → In r rates
      → Quotes base quote date r
      → ((c : ExchangeRate W)
          → In c rates
          → Quotes base quote date c
          → (c.date ≡ r.date) ⊎ (ltb_text c.date r.date ≡ true))
      → Found rates base quote date (some r)

-- `rate_for` gives none within one currency, whatever the case of its letters. For two currencies it
-- gives none where no rate of the list is a quote for the pair of the date or an earlier one, and
-- otherwise such a rate of the list, than which no other such rate is of a later date.
pub rate_for-Found :
    {W : Type 0} (rates : List (ExchangeRate W)) (base quote date : Text)
    → Found rates base quote date (rate_for rates base quote date)
unfolding rate_for same_currency
rate_for-Found rates base quote date = elim (Bool-cases (eq_text (upper base) (upper quote))) [
  | inl same ↦ rw same (one_currency (eq_text→eq (upper base) (upper quote) same))
  | inr differ ↦
      (let apart : upper base ≢ upper quote =
          λ e. clash (sym ((eq_text_iff (upper base) (upper quote)).1 e) ∙ differ) in
        rw differ (elim (rate_from-Picked (is_usable base quote date) rates) [
          | inl (done, unfit) ↦ rw done (
              no_quote apart
                (λ c m q. clash (sym (Quotes-is_usable base quote date c q) ∙ unfit c m)))
          | inr (r, done, p) ↦ rw done (
              quote_found r apart p.among (is_usable-Quotes base quote date r p.fits) (λ c m q.
                no_later_than c.date r.date (p.latest c m (Quotes-is_usable base quote date c q))))
        ]))
]
  where
    clash : true ≢ false
    clash e = cc

    no_later_than : (x y : Text) → ltb_text y x ≡ false → (x ≡ y) ⊎ (ltb_text x y ≡ true)
    no_later_than x y h = ground (arith, ltb_text_connex x y)
