-- ===== src/Control/Ledger/Granted.antt =====
-- What a reservation within limits grants (`reserveWithin` of src/execution/control/index.ts).
use mathlib.Core.Path.{subst}
use text.Mathlib.TextPositions.{eq_refl}
use ari_os.Prelude.{
  String, Bool, true, false, not, ◌||◌, List, [], ◌∷◌, ◌++◌, Option, none, some, ◌≡◌, refl, sym,
  ◌∙◌, arith, str_eq, Bool-cases, inl, inr, true_of_not, or_false, and_true, if◌then◌else◌,
}
use ari_os.Prelude.Int.{
  ℤ, pos, ◌+ℤ◌, ◌≤ℤ◌, ltb_ℤ, le_of_not_ltb, le_of_leb, zero-+ℤ, +ℤ-zero, +ℤ_assoc,
}
use ari_os.Prelude.Number.{integer_of}
use ari_os.Control.Ledger.Rows.{
  LedgerEntry, Ledger, LedgerOptions, Reservation, expire, unexpired, has_id, sum_where, is_asset,
  is_malformed, is_bindable, is_row_bindable, plain_row, insert_row, inserted,
}
use ari_os.Control.Ledger.Within.{
  QuoteLimit, Aggregate, unlimited, units, quoted, WithinLimits, checked_decimals, is_valued,
  all_valued, sum_values, valued_row, reserve_plain, reserve_quoted, reserve_units, is_within_asset,
  is_malformed_quote, is_quoted_in, reserve_checked, reserve_as, reserve_within, is_evidence,
  is_known, is_some_text, is_some_ℤ,
}
use ari_os.Control.Ledger.Sums.{sum_where-push, is_asset_self}

-- The aggregate limit, over the rows with the reservation in them. In units it bounds the asset of
-- the entry; in a denomination it bounds every row, each of which is valued in it.
pub data InAggregate (e : LedgerEntry) (rows : List Reservation) : Aggregate → Type 0 where
  no_limit : InAggregate e rows unlimited
  in_units : (max : ℤ) → sum_where (is_asset e.asset) rows ≤ℤ max → InAggregate e rows (units max)
  in_quote :
      (q : QuoteLimit) (decimals : ℤ)
      → checked_decimals (integer_of q.decimals) ≡ some decimals
      → sum_values rows ≤ℤ q.max
      → all_valued q.denomination decimals rows ≡ true
      → InAggregate e rows (quoted q)

-- The ledger `after` a reservation that is granted.
pub record Granted (e : LedgerEntry) (limits : WithinLimits) (l after : Ledger) : Type 0 where
  pub row : Reservation
  pub of_entry : row.entry ≡ e
  pub inserted : after.rows ≡ unexpired e.at l.rows ++ row ∷ []
  pub fresh : has_id e.id (unexpired e.at l.rows) ≡ false
  pub in_asset : sum_where (is_asset e.asset) after.rows ≤ℤ limits.per_asset
  pub in_aggregate : InAggregate e after.rows limits.aggregate

-- Granted, or refused with the ledger as it was, the past reservations removed or not.
pub data Answer (P : Ledger → Type 0) (now : ℤ) (l : Ledger) (r : Bool × Ledger) : Type 0 where
  granted : r.0 ≡ true → P r.1 → Answer P now l r
  unchanged : r.0 ≡ false → r.1 ≡ l → Answer P now l r
  expired : r.0 ≡ false → r.1 ≡ expire now l → Answer P now l r

module _ {P : Ledger → Type 0} {now : ℤ} {l : Ledger} where
  if-Answer :
      (b : Bool) (x y : Bool × Ledger)
      → (b ≡ true → Answer P now l x)
      → (b ≡ false → Answer P now l y)
      → Answer P now l (if b then x else y)
  if-Answer true x y h k = h refl
  if-Answer false x y h k = k refl

  insert-Answer :
      (r : Reservation) (live : Ledger)
      → (has_id r.entry.id live.rows ≡ false → P (record live { rows = live.rows ++ r ∷ [] }))
      → Answer P now l (inserted l (insert_row r live))
  unfolding inserted insert_row
  insert-Answer r live h =
      elim (Bool-cases (has_id r.entry.id live.rows || not (is_row_bindable r))) [
        | inl e ↦ rw e (unchanged refl refl)
        | inr e ↦ rw e (granted refl (h (or_false _ _ e).0))
      ]

-- The sum of an asset with a row of it at the end.
asset_sum :
    (r : Reservation) (rows : List Reservation)
    → sum_where (is_asset r.entry.asset) (rows ++ r ∷ [])
      ≡ sum_where (is_asset r.entry.asset) rows +ℤ r.entry.amount
asset_sum r rows = sum_where-push (is_asset r.entry.asset) rows r (is_asset_self r.entry)

sum_values-push :
    (rows : List Reservation) (r : Reservation) (n : ℤ)
    → r.quote_value ≡ some n
    → sum_values (rows ++ r ∷ []) ≡ sum_values rows +ℤ n
unfolding sum_values
sum_values-push [] r n h = rw h (+ℤ-zero n ∙ sym (zero-+ℤ n))
sum_values-push (x ∷ rows) r n h = simp (sum_values-push rows r n h, +ℤ_assoc)

all_valued-push :
    (d : String) (k : ℤ) (rows : List Reservation) (r : Reservation)
    → all_valued d k rows ≡ true
    → is_valued d k r ≡ true
    → all_valued d k (rows ++ r ∷ []) ≡ true
unfolding all_valued
all_valued-push d k [] r h e = rw e refl
all_valued-push d k (x ∷ rows) r h e =
    let (a, b) = and_true (is_valued d k x) (all_valued d k rows) h in
    rw a (all_valued-push d k rows r b e)

has_evidence : (q : QuoteLimit) → is_malformed_quote q ≡ false → str_eq q.evidence "" ≡ false
unfolding is_malformed_quote
has_evidence q h = ground arith

module _ (o : LedgerOptions) (e : LedgerEntry) (limits : WithinLimits) (l : Ledger) where
  in_asset_of_leb :
      is_within_asset e limits.per_asset (expire e.at l) ≡ true
      → (sum_where (is_asset e.asset) (unexpired e.at l.rows) +ℤ e.amount) ≤ℤ limits.per_asset
  unfolding is_within_asset expire
  in_asset_of_leb h =
      le_of_leb (sum_where (is_asset e.asset) (unexpired e.at l.rows) +ℤ e.amount) limits.per_asset
        h

  plain-Granted :
      is_within_asset e limits.per_asset (expire e.at l) ≡ true
      → InAggregate e (unexpired e.at l.rows ++ plain_row o e ∷ []) limits.aggregate
      → Answer (Granted e limits l) e.at l (reserve_plain o e l (expire e.at l))
  unfolding reserve_plain is_within_asset expire plain_row
  plain-Granted h a = insert-Answer (plain_row o e) (expire e.at l) (λ f. record {
    row = plain_row o e;
    of_entry = refl;
    inserted = refl;
    fresh = f;
    in_asset = rw (asset_sum (plain_row o e) (unexpired e.at l.rows)) (in_asset_of_leb h);
    in_aggregate = a;
  })

  units_in :
      (max : ℤ)
      → ltb_ℤ max (sum_where (is_asset e.asset) (unexpired e.at l.rows) +ℤ e.amount) ≡ false
      → sum_where (is_asset e.asset) (unexpired e.at l.rows ++ plain_row o e ∷ []) ≤ℤ max
  unfolding plain_row
  units_in max h =
      rw (asset_sum (plain_row o e) (unexpired e.at l.rows))
        (le_of_not_ltb max (sum_where (is_asset e.asset) (unexpired e.at l.rows) +ℤ e.amount) h)

  unlimited-Granted :
      limits.aggregate ≡ unlimited
      → is_within_asset e limits.per_asset (expire e.at l) ≡ true
      → Answer (Granted e limits l) e.at l (reserve_plain o e l (expire e.at l))
  unlimited-Granted h k =
      plain-Granted k
        (subst (InAggregate e (unexpired e.at l.rows ++ plain_row o e ∷ [])) (sym h) no_limit)

  units-Granted :
      (max asset : ℤ)
      → asset ≡ sum_where (is_asset e.asset) (unexpired e.at l.rows)
      → limits.aggregate ≡ units max
      → is_within_asset e limits.per_asset (expire e.at l) ≡ true
      → Answer (Granted e limits l) e.at l (reserve_units o e asset (units max) l (expire e.at l))
  unfolding reserve_units expire
  units-Granted max asset s h k =
      if-Answer (ltb_ℤ max (asset +ℤ e.amount)) _ _ (λ b. expired refl refl)
        (λ b. plain-Granted k (
          subst (InAggregate e (unexpired e.at l.rows ++ plain_row o e ∷ [])) (sym h)
            (in_units max (units_in max (rw (sym s) b)))))

  is_valued_row :
      (q : QuoteLimit) (k : ℤ)
      → str_eq q.evidence "" ≡ false
      → is_valued q.denomination k (valued_row o e q k) ≡ true
  unfolding is_valued valued_row is_known is_evidence is_some_text is_some_ℤ
  is_valued_row q k h = rw h (rw (eq_refl q.denomination) (ground arith))

  quoted_in :
      (q : QuoteLimit) (k : ℤ)
      → checked_decimals (integer_of q.decimals) ≡ some k
      → str_eq q.evidence "" ≡ false
      → all_valued q.denomination k (unexpired e.at l.rows) ≡ true
      → ltb_ℤ q.max (sum_values (unexpired e.at l.rows) +ℤ q.value) ≡ false
      → InAggregate e (unexpired e.at l.rows ++ valued_row o e q k ∷ []) (quoted q)
  unfolding valued_row
  quoted_in q k d ev b c =
      let rows = unexpired e.at l.rows in
      in_quote q k d
        (rw (sum_values-push rows (valued_row o e q k) q.value refl)
          (le_of_not_ltb q.max (sum_values rows +ℤ q.value) c))
        (all_valued-push q.denomination k rows (valued_row o e q k) b (is_valued_row q k ev))

  quoted-Granted :
      (q : QuoteLimit) (k : ℤ)
      → limits.aggregate ≡ quoted q
      → checked_decimals (integer_of q.decimals) ≡ some k
      → str_eq q.evidence "" ≡ false
      → is_within_asset e limits.per_asset (expire e.at l) ≡ true
      → Answer (Granted e limits l) e.at l (reserve_quoted o e q k l (expire e.at l))
  unfolding reserve_quoted expire
  quoted-Granted q k a d ev h =
      if-Answer (not (all_valued q.denomination k (unexpired e.at l.rows))) _ _
        (λ b. expired refl refl)
        (λ b.
          if-Answer (ltb_ℤ q.max (sum_values (unexpired e.at l.rows) +ℤ q.value)) _ _
            (λ c. expired refl refl)
            (λ c. insert-Answer (valued_row o e q k) (expire e.at l) (λ f. record {
              row = valued_row o e q k;
              of_entry = unfold valued_row plain_row in refl;
              inserted = refl;
              fresh = unfold valued_row plain_row in f;
              in_asset =
                  unfold valued_row plain_row in
                  rw (asset_sum (valued_row o e q k) (unexpired e.at l.rows)) (in_asset_of_leb h);
              in_aggregate =
                  subst (InAggregate e (unexpired e.at l.rows ++ valued_row o e q k ∷ [])) (sym a)
                    (quoted_in q k d ev (true_of_not _ b) c);
            })))

  checked-Granted :
      (q : QuoteLimit) (decimals : Option ℤ)
      → limits.aggregate ≡ quoted q
      → checked_decimals (integer_of q.decimals) ≡ decimals
      → Answer (Granted e limits l) e.at l (reserve_checked o e limits.per_asset q decimals l)
  unfolding reserve_checked
  checked-Granted q none a d = unchanged refl refl
  checked-Granted q (some k) a d =
      if-Answer (is_malformed_quote q || not (is_quoted_in q.denomination k o.aggregate_quote)) _ _
        (λ b. unchanged refl refl)
        (λ b.
          if-Answer (is_within_asset e limits.per_asset (expire e.at l)) _ _
            (λ h. quoted-Granted q k a d (has_evidence q (or_false (is_malformed_quote q) _ b).0) h)
            (λ h. expired refl refl))

  as-Granted :
      (a : Aggregate)
      → limits.aggregate ≡ a
      → Answer (Granted e limits l) e.at l (reserve_as o e limits.per_asset a l)
  unfolding reserve_as expire
  as-Granted (quoted q) h = checked-Granted q _ h refl
  as-Granted unlimited h =
      if-Answer (is_within_asset e limits.per_asset (expire e.at l)) _ _
        (λ k. unfold reserve_units in unlimited-Granted h k) (λ k. expired refl refl)
  as-Granted (units max) h =
      if-Answer (is_within_asset e limits.per_asset (expire e.at l)) _ _
        (λ k. units-Granted max _ refl h k) (λ k. expired refl refl)

-- A reservation within limits is granted only with a fresh identifier, appended to the live rows, and
-- so that the rows with it in them keep the asset in its limit and the aggregate in its own; when it
-- is refused nothing is reserved, and at most the past reservations are removed.
pub reserve_within_lem :
    (o : LedgerOptions) (e : LedgerEntry) (limits : WithinLimits) (l : Ledger)
    → Answer (Granted e limits l) e.at l (reserve_within o e limits l)
unfolding reserve_within
reserve_within_lem o e limits l =
    if-Answer (is_malformed e || ltb_ℤ limits.per_asset (pos 0) || not (is_bindable e.at)) _ _
      (λ b. unchanged refl refl) (λ b. as-Granted o e limits l limits.aggregate refl)
