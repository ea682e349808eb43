-- ===== src/Signer/Authorization/Vouched.antt =====
-- What an envelope that passes vouches for (`SignerWireVerifier` of src/signer/authorization.ts).
use ari_os.Prelude.Texts.{str_eq-true}
use ari_os.Prelude.{
  String, Bool, true, false, not, ◌&&◌, List, [], ◌∷◌, map, Option, none, some, ◌≡◌, refl, ap,
  arith, true_of_not, or_false, and_true, str_eq,
}
use ari_os.Prelude.Checks.{first_reason_iff, Clean}
use ari_os.Prelude.Int.{ℤ, pos, ◌-ℤ◌, ◌≤ℤ◌, ◌<ℤ◌, leb_ℤ, le_of_not_ltb, lt_of_not_leb, eq_of_eq_ℤ}
use ari_os.Signer.Authorization.{
  Instruction, DecodedTransaction, AuthorizationClaims, AuthorizationEnvelope, WireVerifier,
  authorization_protocol, is_unsafe, value, safe_value, same_texts, same_accounts,
  same_instructions, sorted_set, is_same_transaction, envelope_checks, verify,
}

cons_eq : {A : Type 0} (x y : A) (xs ys : List A) → x ≡ y → xs ≡ ys → (x ∷ xs) ≡ (y ∷ ys)
cons_eq x y xs ys h k = rw h (rw k refl)

same_texts-eq : (xs ys : List String) → same_texts xs ys ≡ true → xs ≡ ys
unfolding same_texts
same_texts-eq [] [] h = refl
same_texts-eq [] (y ∷ ys) h = absurd (cc)
same_texts-eq (x ∷ xs) [] h = absurd (cc)
same_texts-eq (x ∷ xs) (y ∷ ys) h =
    let (a, b) = and_true (str_eq x y) (same_texts xs ys) h in
    cons_eq x y xs ys (str_eq-true x y a) (same_texts-eq xs ys b)

same_accounts-eq : (xs ys : List (Option String)) → same_accounts xs ys ≡ true → xs ≡ ys
unfolding same_accounts
same_accounts-eq [] [] h = refl
same_accounts-eq [] (y ∷ ys) h = absurd (cc)
same_accounts-eq (none ∷ xs) [] h = absurd (cc)
same_accounts-eq (some x ∷ xs) [] h = absurd (cc)
same_accounts-eq (none ∷ xs) (some y ∷ ys) h = absurd (cc)
same_accounts-eq (some x ∷ xs) (none ∷ ys) h = absurd (cc)
same_accounts-eq (none ∷ xs) (none ∷ ys) h = cons_eq none none xs ys refl (same_accounts-eq xs ys h)
same_accounts-eq (some x ∷ xs) (some y ∷ ys) h =
    let (a, b) = and_true (str_eq x y) (same_accounts xs ys) h in
    cons_eq (some x) (some y) xs ys (ap some (str_eq-true x y a)) (same_accounts-eq xs ys b)

instruction_eq :
    (x y : Instruction)
    → x.program_id ≡ y.program_id
    → x.accounts ≡ y.accounts
    → x.data_hex ≡ y.data_hex
    → x ≡ y
instruction_eq x y a b c = cc

all_four :
    (a b c d : Bool)
    → (a && b && c && d) ≡ true
    → (a ≡ true) × ((b ≡ true) × ((c ≡ true) × (d ≡ true)))
all_four a b c d h = (ground arith, (ground arith, (ground arith, ground arith)))

same_instructions-eq : (xs ys : List Instruction) → same_instructions xs ys ≡ true → xs ≡ ys
unfolding same_instructions
same_instructions-eq [] [] h = refl
same_instructions-eq [] (y ∷ ys) h = absurd (cc)
same_instructions-eq (x ∷ xs) [] h = absurd (cc)
same_instructions-eq (x ∷ xs) (y ∷ ys) h =
    let (a, (b, (c, e))) = all_four (str_eq x.program_id y.program_id) _ _ _ h in
    cons_eq x y xs ys
      (instruction_eq x y (str_eq-true _ _ a) (same_accounts-eq x.accounts y.accounts b)
        (str_eq-true _ _ c))
      (same_instructions-eq xs ys e)

-- Every part of the envelope that the signer relies on.
pub record Vouched (v : WireVerifier) (now : ℤ) (d : DecodedTransaction) (e : AuthorizationEnvelope)
    : Type 0 where
  pub issued : ℤ
  pub expires : ℤ
  pub issued_at : safe_value e.claims.issued_at ≡ some issued
  pub expires_at : safe_value e.claims.expires_at ≡ some expires
  pub not_future : issued ≤ℤ now
  pub not_expired : now <ℤ expires
  pub short_lived : (expires -ℤ issued) ≤ℤ v.max_ttl_ms
  pub protocol : e.claims.protocol ≡ authorization_protocol
  pub version : e.claims.version ≡ pos 1
  pub audience : e.claims.audience ≡ v.audience
  pub signed : v.verify_signature e.claims e.signature ≡ true
  pub wire : e.claims.transaction ≡ d.wire_base64
  pub message : e.claims.message ≡ d.message_base64
  pub fee_payer : e.claims.fee_payer ≡ d.fee_payer
  pub blockhash : e.claims.recent_blockhash ≡ d.recent_blockhash
  pub account_keys : e.claims.account_keys ≡ d.static_account_keys
  pub programs : e.claims.program_ids ≡ sorted_set (map (λ i. i.program_id) d.instructions)
  pub lookups : e.claims.address_table_lookups ≡ d.lookup_keys
  pub instructions : e.claims.instructions ≡ d.instructions

known_value : (o : Option ℤ) → is_unsafe o ≡ false → o ≡ some (value o)
unfolding is_unsafe
known_value none h = absurd (cc)
known_value (some n) h = refl

-- The decoded transaction is the one of the claims.
record SameTransaction (c : AuthorizationClaims) (d : DecodedTransaction) : Type 0 where
  wire : str_eq c.transaction d.wire_base64 ≡ true
  message : str_eq c.message d.message_base64 ≡ true
  fee_payer : str_eq c.fee_payer d.fee_payer ≡ true
  blockhash : str_eq c.recent_blockhash d.recent_blockhash ≡ true
  account_keys : same_texts c.account_keys d.static_account_keys ≡ true
  programs : same_texts c.program_ids (sorted_set (map (λ i. i.program_id) d.instructions)) ≡ true
  lookups : same_texts c.address_table_lookups d.lookup_keys ≡ true
  instructions : same_instructions c.instructions d.instructions ≡ true

transaction-SameTransaction :
    (lower : String → String) (c : AuthorizationClaims) (d : DecodedTransaction)
    → is_same_transaction lower c d ≡ true
    → SameTransaction c d
unfolding is_same_transaction
transaction-SameTransaction lower c d h =
    let (h8, instructions) = and_true _ (same_instructions c.instructions d.instructions) h in
    let (h7, lookups) = and_true _ (same_texts c.address_table_lookups d.lookup_keys) h8 in
    let (h6, programs) =
      and_true _ (same_texts c.program_ids (sorted_set (map (λ i. i.program_id) d.instructions)))
        h7 in
    let (h5, account_keys) = and_true _ (same_texts c.account_keys d.static_account_keys) h6 in
    let (h4, blockhash) = and_true _ (str_eq c.recent_blockhash d.recent_blockhash) h5 in
    let (h3, fee_payer) = and_true _ (str_eq c.fee_payer d.fee_payer) h4 in
    let (h2, hash) = and_true _ (str_eq (lower c.message_hash) (lower d.message_hash)) h3 in
    let (wire, message) = and_true (str_eq c.transaction d.wire_base64) _ h2 in
    record {
      wire = wire;
      message = message;
      fee_payer = fee_payer;
      blockhash = blockhash;
      account_keys = account_keys;
      programs = programs;
      lookups = lookups;
      instructions = instructions;
    }

checked :
    (v : WireVerifier) (now : ℤ) (d : DecodedTransaction) (e : AuthorizationEnvelope)
    → Clean (envelope_checks v now d e)
    → Vouched v now d e
unfolding envelope_checks
checked v now d e (h0, (h1, (h2, (h3, (h4, (h5, (h6, (h7, (h8, (h9, (h10, (h11, h12)))))))))))) =
    let c = e.claims in
    let same = transaction-SameTransaction v.lower c d (true_of_not _ h11) in
    let issued = safe_value c.issued_at in
    let expires = safe_value c.expires_at in
    record {
      issued = value issued;
      expires = value expires;
      issued_at = known_value issued (or_false (is_unsafe issued) _ h1).0;
      expires_at = known_value expires (or_false (is_unsafe issued) _ h1).1;
      not_future = le_of_not_ltb now (value issued) h2;
      not_expired = lt_of_not_leb (value expires) now (or_false (leb_ℤ (value expires) now) _ h3).0;
      short_lived =
          le_of_not_ltb v.max_ttl_ms (value expires -ℤ value issued)
            (or_false (leb_ℤ (value expires) now) _ h3).1;
      protocol =
          str_eq-true _ _
            (true_of_not _ (or_false (not (str_eq c.protocol authorization_protocol)) _ h0).0);
      version =
          eq_of_eq_ℤ c.version (pos 1)
            (true_of_not _ (or_false (not (str_eq c.protocol authorization_protocol)) _ h0).1);
      audience = str_eq-true _ _ (true_of_not _ h4);
      signed = true_of_not _ h8;
      wire = str_eq-true _ _ same.wire;
      message = str_eq-true _ _ same.message;
      fee_payer = str_eq-true _ _ same.fee_payer;
      blockhash = str_eq-true _ _ same.blockhash;
      account_keys = same_texts-eq _ _ same.account_keys;
      programs = same_texts-eq _ _ same.programs;
      lookups = same_texts-eq _ _ same.lookups;
      instructions = same_instructions-eq _ _ same.instructions;
    }

-- An envelope that no check refuses was issued by now and has not expired, lives no longer than the
-- limit, is for this audience under the protocol's first version, carries the operator's signature,
-- and describes the decoded transaction exactly: its wire, message, fee payer, blockhash, accounts,
-- programs, lookup tables and instructions.
pub verify-Vouched :
    (v : WireVerifier) (now : ℤ) (d : DecodedTransaction) (e : AuthorizationEnvelope)
    → verify v now d e ≡ none
    → Vouched v now d e
unfolding verify
verify-Vouched v now d e h = checked v now d e ((first_reason_iff (envelope_checks v now d e)).0 h)
