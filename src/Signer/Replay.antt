-- ===== src/Signer/Replay.antt =====
-- `SqliteReplayStore` of src/signer/replay.ts: a row for each authorization, and the operations on the
-- table. `now` is the clock. And `InMemoryReplayStore` of src/signer/authorization.ts, two maps.
use ari_os.Prelude.{
  ℕ, ◌+◌, String, Bool, true, false, not, ◌&&◌, ◌||◌, List, [], ◌∷◌, ◌++◌, map, Option, none, some,
  str_eq, ◌==◌, if◌then◌else◌,
}
use ari_os.Prelude.Int.{ℤ, pos, negsuc, ltb_ℤ, leb_ℤ}
use ari_os.Prelude.Number.{Number, integer_of}
use ari_os.Prelude.Maps.{map_get, map_set}
use ari_os.Signer.State.{ExecutionState, claimed, signed, same_state}

pub record ReplayRow : Type 0 where
  pub id : String
  pub expires_at : ℤ
  pub state : ExecutionState
  pub version : ℕ
  pub data_text : Option String
  pub updated_at : ℕ
  pub recovered : Bool

-- The integer that a number is, when it is a safe one.
unfoldable pub safe_integer : Option ℤ → Option ℤ
safe_integer none = none
safe_integer (some n) =
    if leb_ℤ n (pos 9_007_199_254_740_991) && ltb_ℤ (negsuc 9_007_199_254_740_991) n
    then some n
    else none

unfoldable pub has_row : String → List ReplayRow → Bool
has_row id [] = false
has_row id (r ∷ rs) = str_eq r.id id || has_row id rs

abbrev pub claimed_row : String → ℤ → ℕ → ReplayRow
claimed_row id expires_at now = record {
  id = id;
  expires_at = expires_at;
  state = claimed;
  version = 1;
  data_text = none;
  updated_at = now;
  recovered = false;
}

-- INSERT OR IGNORE, and whether a row was inserted.
unfoldable pub insert_or_ignore : String → ℤ → ℕ → List ReplayRow → Bool × List ReplayRow
unfolding has_row
insert_or_ignore id expires_at now rs =
    if has_row id rs then (false, rs) else (true, rs ++ claimed_row id expires_at now ∷ [])

unfoldable pub consume_until : String → Option ℤ → ℕ → List ReplayRow → Bool × List ReplayRow
unfolding insert_or_ignore
consume_until id none now rs = (false, rs)
consume_until id (some expires_at) now rs =
    if str_eq id "" then (false, rs) else insert_or_ignore id expires_at now rs

unfoldable pub consume : String → Number → ℕ → List ReplayRow → Bool × List ReplayRow
unfolding consume_until safe_integer
consume id expires_at now rs = consume_until id (safe_integer (integer_of expires_at)) now rs

unfoldable pub is_in_state : String → ExecutionState → ReplayRow → Bool
unfolding same_state
is_in_state id from r = str_eq r.id id && same_state r.state from

unfoldable pub moved :
    String → ExecutionState → ExecutionState → Option String → ℕ → ReplayRow → ReplayRow
unfolding is_in_state
moved id from to text now r =
    if is_in_state id from r
    then record r { state = to; data_text = text; version = r.version + 1; updated_at = now }
    else r

unfoldable pub count_in_state : String → ExecutionState → List ReplayRow → ℕ
unfolding is_in_state
count_in_state id from [] = 0
count_in_state id from (r ∷ rs) =
    (if is_in_state id from r then 1 else 0) + count_in_state id from rs

unfoldable pub transition :
    String
    → ExecutionState
    → ExecutionState
    → Option String
    → ℕ
    → List ReplayRow
    → Bool × List ReplayRow
unfolding moved count_in_state
transition id from to text now rs =
    (count_in_state id from rs == 1, map (moved id from to text now) rs)

unfoldable pub get : String → List ReplayRow → Option ReplayRow
get id [] = none
get id (r ∷ rs) = if str_eq r.id id then some r else get id rs

unfoldable pub is_recoverable : String → ReplayRow → Bool
unfolding same_state
is_recoverable id r = str_eq r.id id && same_state r.state signed && not r.recovered

unfoldable pub recovered_row : String → ℕ → ReplayRow → ReplayRow
unfolding is_recoverable
recovered_row id now r =
    if is_recoverable id r
    then record r { recovered = true; version = r.version + 1; updated_at = now }
    else r

unfoldable pub first_recoverable : String → List ReplayRow → Option ReplayRow
unfolding is_recoverable
first_recoverable id [] = none
first_recoverable id (r ∷ rs) = if is_recoverable id r then some r else first_recoverable id rs

abbrev pub data_of : Option ReplayRow → Option (Option String)
data_of none = none
data_of (some r) = some r.data_text

-- UPDATE … RETURNING data.
unfoldable pub recover_signed :
    String → ℕ → List ReplayRow → Option (Option String) × List ReplayRow
unfolding recovered_row first_recoverable
recover_signed id now rs = (data_of (first_recoverable id rs), map (recovered_row id now) rs)

unfoldable pub is_listed : List ExecutionState → ReplayRow → Bool
unfolding same_state
is_listed [] r = false
is_listed (s ∷ states) r = same_state r.state s || is_listed states r

unfoldable pub list : List ExecutionState → List ReplayRow → List ReplayRow
unfolding is_listed
list states [] = []
list states (r ∷ rs) = if is_listed states r then r ∷ list states rs else list states rs

pub record MemoryStore : Type 0 where
  pub states : List (String × ExecutionState)
  pub texts : List (String × String)

abbrev pub is_there {ℓ} : {A : Type ℓ} → Option A → Bool
is_there none = false
is_there (some a) = true

unfoldable pub memory_consume : String → MemoryStore → Bool × MemoryStore
unfolding map_get map_set
memory_consume id s =
    if is_there (map_get id s.states)
    then (false, s)
    else (true, record s { states = map_set id claimed s.states })

abbrev pub is_at : ExecutionState → Option ExecutionState → Bool
is_at from none = false
is_at from (some s) = same_state s from

abbrev pub set_text : String → Option String → List (String × String) → List (String × String)
set_text id none texts = texts
set_text id (some text) texts = map_set id text texts

unfoldable pub memory_transition :
    String → ExecutionState → ExecutionState → Option String → MemoryStore → Bool × MemoryStore
unfolding map_get map_set
memory_transition id from to text s =
    if is_at from (map_get id s.states)
    then (true, record s { states = map_set id to s.states; texts = set_text id text s.texts })
    else (false, s)

pub record MemoryEntry : Type 0 where
  pub state : ExecutionState
  pub text : Option String

abbrev pub entry_with : Option ExecutionState → Option String → Option MemoryEntry
entry_with none text = none
entry_with (some state) text = some (record { state = state; text = text })

unfoldable pub memory_get : String → MemoryStore → Option MemoryEntry
unfolding map_get
memory_get id s = entry_with (map_get id s.states) (map_get id s.texts)
