-- ===== src/Signer/Examples.antt =====
-- A few requests to the fence, an envelope, and the theorems on them (src/signer/replay.ts,
-- authorization.ts).
use ari_os.Prelude.{◌≤◌, true, List, [], ◌∷◌, All, none, some, ◌≡◌, refl, includes, if◌then◌else◌}
use ari_os.Prelude.Int.{pos, ◌-ℤ◌}
use ari_os.Prelude.Number.{of_ℕ, integer_of}
use ari_os.Signer.State.{claimed, signed}
use ari_os.Signer.Replay.{ReplayRow, has_row, claimed_row, transition, safe_integer}
use ari_os.Signer.Fence.{Unique, state_at}
use ari_os.Signer.Stores.{
  FenceRequest, consumes, moves, is_well_formed, in_sqlite, in_memory, in_states, answers,
  Implements, empty_map, no_claims, stores_agree,
}
use ari_os.Signer.Once.{FenceCall, asks, recovers, releases_all, releases_once}
use ari_os.Signer.Written.{ReadsBack, transition-ReadsBack}
use ari_os.Signer.Claimed.{claims_all, claims_once}
use ari_os.Signer.Authorization.{
  DecodedTransaction, AuthorizationEnvelope, WireVerifier, Instruction, authorization_protocol,
  verify,
}
use ari_os.Signer.Authorization.Vouched.{Vouched, verify-Vouched}

abbrev requests : List FenceRequest
requests =
    consumes "a" (of_ℕ 900) 1
    ∷ consumes "a" (of_ℕ 900) 2
    ∷ moves "a" claimed signed (some "wire") 3
    ∷ moves "a" claimed signed none 4
    ∷ consumes "b" (of_ℕ 950) 5
    ∷ []

well_formed : All (λ q. is_well_formed q ≡ true) requests
unfolding safe_integer integer_of
well_formed = (refl, (refl, (refl, (refl, (refl, tt)))))

stores_agree_example :
    Implements in_sqlite state_at requests [] no_claims
    × Implements in_memory in_states requests empty_map no_claims
    × (answers in_sqlite requests [] ≡ answers in_memory requests empty_map)
stores_agree_example = stores_agree requests well_formed

abbrev calls : List FenceCall
calls =
    asks (moves "a" claimed signed (some "wire") 3)
    ∷ recovers "a" 4
    ∷ recovers "a" 5
    ∷ asks (consumes "a" (of_ℕ 900) 6)
    ∷ []

abbrev table : List ReplayRow
table = claimed_row "a" (pos 900) 1 ∷ []

table-Unique : Unique table
unfolding Unique has_row
table-Unique = (refl, tt)

releases_once_example : releases_all "a" calls table ≤ 1
releases_once_example = releases_once "a" calls table table-Unique

moves_once : (transition "a" claimed signed (some "wire") 3 table).0 ≡ true
unfolding transition
moves_once = refl

transition-ReadsBack_example :
    ReadsBack "a" signed
      (some "wire")
      3
      table
      (transition "a" claimed signed (some "wire") 3 table).1
transition-ReadsBack_example =
    transition-ReadsBack "a" claimed signed (some "wire") 3 table table-Unique moves_once

claims_once_example : claims_all "b" calls table ≤ (if has_row "b" table then 0 else 1)
claims_once_example = claims_once "b" calls table

abbrev transfer : Instruction
transfer = record { program_id = "prog"; accounts = some "k1" ∷ none ∷ []; data_hex = "00" }

abbrev decoded : DecodedTransaction
decoded = record {
  fee_payer = "k1";
  recent_blockhash = "h";
  static_account_keys = "k1" ∷ "prog" ∷ [];
  lookup_keys = [];
  instructions = transfer ∷ transfer ∷ [];
  message_base64 = "m";
  message_hash = "0x1";
  wire_base64 = "w";
}

abbrev envelope : AuthorizationEnvelope
envelope = record {
  claims = record {
    protocol = authorization_protocol;
    version = pos 1;
    id = "a";
    policy_hash = "p";
    policy_version = pos 3;
    audience = "signer";
    signer_key_id = some "key";
    cluster = "devnet";
    fee_payer = "k1";
    transaction = "w";
    message = "m";
    message_hash = "0x1";
    recent_blockhash = "h";
    last_valid_block_height = of_ℕ 77;
    program_ids = "prog" ∷ [];
    account_keys = "k1" ∷ "prog" ∷ [];
    instructions = transfer ∷ transfer ∷ [];
    address_table_lookups = [];
    issued_at = of_ℕ 1_000;
    expires_at = of_ℕ 31_000;
  };
  signature = "s";
}

abbrev verifier : WireVerifier
verifier = record {
  verify_signature = λ c s. true;
  lower = λ t. t;
  audience = "signer";
  cluster = some "devnet";
  signer_key_id = some "key";
  authorization_key_ids = some ("key" ∷ []);
  policy_hash = some "p";
  policy_version = some (pos 3);
  max_ttl_ms = pos 60_000;
}

passes : verify verifier (pos 2_000) decoded envelope ≡ none
unfolding verify ◌-ℤ◌ includes
passes = refl

verify-Vouched_example : Vouched verifier (pos 2_000) decoded envelope
verify-Vouched_example = verify-Vouched verifier (pos 2_000) decoded envelope passes
