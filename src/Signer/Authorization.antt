-- ===== src/Signer/Authorization.antt =====
-- `SignerWireVerifier` of src/signer/authorization.ts: an envelope's claims, against the transaction
-- that the signer has decoded itself. Decoding, the lower case of a text and the check of the
-- operator's signature are parameters; texts that are sorted are of ASCII characters; versions are whole numbers, and times in milliseconds.
pub mod Vouched
use Prim.Native.Nat.{Ordering}
use Prim.Native.String.{compare}
use ari_os.Prelude.{
  String, Bool, true, false, not, ◌&&◌, ◌||◌, List, [], ◌∷◌, map, Option, none, some, includes,
  str_eq, if◌then◌else◌,
}
use ari_os.Prelude.Checks.{first_reason}
use ari_os.Prelude.Int.{ℤ, pos, ltb_ℤ, leb_ℤ, eq_ℤ, ◌-ℤ◌}
use ari_os.Prelude.Number.{Number, integer_of}
use ari_os.Signer.Replay.{safe_integer}

pub record Instruction : Type 0 where
  pub program_id : String
  pub accounts : List (Option String)
  pub data_hex : String

pub record DecodedTransaction : Type 0 where
  pub fee_payer : String
  pub recent_blockhash : String
  pub static_account_keys : List String
  pub lookup_keys : List String
  pub instructions : List Instruction
  pub message_base64 : String
  pub message_hash : String
  pub wire_base64 : String

pub record AuthorizationClaims : Type 0 where
  pub protocol : String
  pub version : ℤ
  pub id : String
  pub policy_hash : String
  pub policy_version : ℤ
  pub audience : String
  pub signer_key_id : Option String
  pub cluster : String
  pub fee_payer : String
  pub transaction : String
  pub message : String
  pub message_hash : String
  pub recent_blockhash : String
  pub last_valid_block_height : Number
  pub program_ids : List String
  pub account_keys : List String
  pub instructions : List Instruction
  pub address_table_lookups : List String
  pub issued_at : Number
  pub expires_at : Number

pub record AuthorizationEnvelope : Type 0 where
  pub claims : AuthorizationClaims
  pub signature : String

-- What a verifier is set up with.
pub record WireVerifier : Type 0 where
  pub verify_signature : AuthorizationClaims → String → Bool
  pub lower : String → String
  pub audience : String
  pub cluster : Option String
  pub signer_key_id : Option String
  pub authorization_key_ids : Option (List String)
  pub policy_hash : Option String
  pub policy_version : Option ℤ
  pub max_ttl_ms : ℤ

pub data EnvelopeError : Type 0 where
  envelope_version_invalid envelope_issued_in_future envelope_expired : EnvelopeError
  envelope_audience_mismatch envelope_signer_mismatch envelope_policy_mismatch : EnvelopeError
  envelope_authorization_key_unknown envelope_signature_invalid : EnvelopeError
  envelope_cluster_mismatch envelope_blockhash_invalid envelope_transaction_mismatch : EnvelopeError

abbrev pub authorization_protocol : String
authorization_protocol = "ari-solana-execution-authorization"

unfoldable pub is_unsafe : Option ℤ → Bool
is_unsafe none = true
is_unsafe (some n) = false

abbrev pub value : Option ℤ → ℤ
value none = pos 0
value (some n) = n

abbrev pub safe_value : Number → Option ℤ
safe_value n = safe_integer (integer_of n)

unfoldable pub same_key : String → Option String → Bool
same_key key none = false
same_key key (some k) = str_eq k key

-- Configured, not empty, and another than the key of the claims.
unfoldable pub differs_key : Option String → Option String → Bool
unfolding same_key
differs_key none claimed = false
differs_key (some key) claimed = not (str_eq key "") && not (same_key key claimed)

unfoldable pub differs_hash : (String → String) → Option String → String → Bool
differs_hash lower none hash = false
differs_hash lower (some expected) hash =
    not (str_eq expected "") && not (str_eq (lower hash) (lower expected))

unfoldable pub differs_version : Option ℤ → ℤ → Bool
differs_version none version = false
differs_version (some expected) version = not (eq_ℤ version expected)

unfoldable pub is_listed_key : List String → Option String → Bool
is_listed_key keys none = false
is_listed_key keys (some key) = not (str_eq key "") && includes keys key

unfoldable pub is_unknown_key : Option (List String) → Option String → Bool
unfolding is_listed_key
is_unknown_key none claimed = false
is_unknown_key (some keys) claimed = not (is_listed_key keys claimed)

unfoldable pub differs_cluster : Option String → String → Bool
differs_cluster none cluster = false
differs_cluster (some expected) cluster = not (str_eq cluster expected)

unfoldable pub is_bad_height : Option ℤ → Bool
is_bad_height none = true
is_bad_height (some n) = ltb_ℤ n (pos 0)

unfoldable pub same_texts : List String → List String → Bool
same_texts [] [] = true
same_texts (x ∷ xs) (y ∷ ys) = str_eq x y && same_texts xs ys
same_texts _ _ = false

unfoldable pub same_accounts : List (Option String) → List (Option String) → Bool
same_accounts [] [] = true
same_accounts (none ∷ xs) (none ∷ ys) = same_accounts xs ys
same_accounts (some x ∷ xs) (some y ∷ ys) = str_eq x y && same_accounts xs ys
same_accounts _ _ = false

unfoldable pub same_instructions : List Instruction → List Instruction → Bool
unfolding same_accounts
same_instructions [] [] = true
same_instructions (x ∷ xs) (y ∷ ys) =
    str_eq x.program_id y.program_id
    && same_accounts x.accounts y.accounts
    && str_eq x.data_hex y.data_hex
    && same_instructions xs ys
same_instructions _ _ = false

-- `[...new Set(ids)].sort()`.
unfoldable pub is_before : String → String → Bool
is_before s t = elim (compare s t) [ Ordering.gt ↦ false | _ ↦ true ]

unfoldable pub insert_sorted : String → List String → List String
unfolding is_before
insert_sorted x [] = x ∷ []
insert_sorted x (y ∷ ys) =
    let rest = insert_sorted x ys in
    if str_eq x y then y ∷ ys else if is_before x y then x ∷ y ∷ ys else y ∷ rest

unfoldable pub sorted_set : List String → List String
unfolding insert_sorted
sorted_set [] = []
sorted_set (x ∷ xs) = insert_sorted x (sorted_set xs)

unfoldable pub is_same_transaction :
    (String → String) → AuthorizationClaims → DecodedTransaction → Bool
unfolding same_texts same_instructions sorted_set
is_same_transaction lower c d =
    str_eq c.transaction d.wire_base64
    && str_eq c.message d.message_base64
    && str_eq (lower c.message_hash) (lower d.message_hash)
    && str_eq c.fee_payer d.fee_payer
    && str_eq c.recent_blockhash d.recent_blockhash
    && same_texts c.account_keys d.static_account_keys
    && same_texts c.program_ids (sorted_set (map (λ i. i.program_id) d.instructions))
    && same_texts c.address_table_lookups d.lookup_keys
    && same_instructions c.instructions d.instructions

unfoldable pub envelope_checks :
    WireVerifier → ℤ → DecodedTransaction → AuthorizationEnvelope → List (Bool × EnvelopeError)
unfolding safe_integer integer_of is_unsafe differs_key differs_hash differs_version is_unknown_key
    differs_cluster is_bad_height is_same_transaction
envelope_checks v now d e =
    let c = e.claims in
    let issued = safe_value c.issued_at in
    let expires = safe_value c.expires_at in
    (
      not (str_eq c.protocol authorization_protocol) || not (eq_ℤ c.version (pos 1)),
      envelope_version_invalid,
    )
    ∷ (is_unsafe issued || is_unsafe expires, envelope_version_invalid)
    ∷ (ltb_ℤ now (value issued), envelope_issued_in_future)
    ∷ (
      leb_ℤ (value expires) now || ltb_ℤ v.max_ttl_ms (value expires -ℤ value issued),
      envelope_expired,
    )
    ∷ (not (str_eq c.audience v.audience), envelope_audience_mismatch)
    ∷ (differs_key v.signer_key_id c.signer_key_id, envelope_signer_mismatch)
    ∷ (
      differs_hash v.lower v.policy_hash c.policy_hash
          || differs_version v.policy_version c.policy_version,
      envelope_policy_mismatch,
    )
    ∷ (is_unknown_key v.authorization_key_ids c.signer_key_id, envelope_authorization_key_unknown)
    ∷ (not (v.verify_signature c e.signature), envelope_signature_invalid)
    ∷ (differs_cluster v.cluster c.cluster, envelope_cluster_mismatch)
    ∷ (is_bad_height (safe_value c.last_valid_block_height), envelope_blockhash_invalid)
    ∷ (not (is_same_transaction v.lower c d), envelope_transaction_mismatch)
    ∷ []

-- The error that is thrown, if one is. Each check reads only; the first that fails throws.
unfoldable pub verify :
    WireVerifier → ℤ → DecodedTransaction → AuthorizationEnvelope → Option EnvelopeError
unfolding envelope_checks first_reason
verify v now d e = first_reason (envelope_checks v now d e)
