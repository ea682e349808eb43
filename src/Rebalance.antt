-- ===== src/Rebalance.antt =====
-- The history of rebalances (`RebalanceLedger` of src/pools/rebalance/ledger.ts): for each position the
-- times of its rebalances, as whole milliseconds, pruned from the front. A `Map` is an association list.
pub mod Window
mod Examples
use ari_os.Prelude.Maps.{map_get, map_set}
use ari_os.Prelude.{
  ℕ, zero, suc, ◌+◌, max, String, Bool, List, [], ◌∷◌, ◌++◌, map, length, Option, none, some, ltb,
  if◌then◌else◌,
}

pub record RebalanceHistory : Type 0 where
  pub last_at : Option ℕ
  pub count_in_window : ℕ

abbrev pub empty_history : RebalanceHistory
empty_history = record { last_at = none; count_in_window = 0 }

pub record RebalanceLedger : Type 0 where
  pub window_ms : ℕ
  pub by_position : List (String × List ℕ)

-- `Math.max(1, …)`.
unfoldable pub new_ledger : ℕ → RebalanceLedger
new_ledger window_ms = record { window_ms = max 1 window_ms; by_position = [] }

-- While the first time is before `now - window`, it is dropped.
unfoldable pub prune : ℕ → ℕ → List ℕ → List ℕ
prune window now [] = []
prune window now (at ∷ times) =
    let rest = prune window now times in if ltb (at + window) now then rest else at ∷ times

abbrev pub or_empty : Option (List ℕ) → List ℕ
or_empty none = []
or_empty (some times) = times

unfoldable pub times_of : String → RebalanceLedger → List ℕ
unfolding map_get
times_of position l = or_empty (map_get position l.by_position)

unfoldable pub record_at : String → ℕ → RebalanceLedger → RebalanceLedger
unfolding prune times_of map_set
record_at position at l = record l {
  by_position =
      map_set position (prune l.window_ms at (times_of position l ++ at ∷ [])) l.by_position;
}

unfoldable pub maximum : List ℕ → ℕ
maximum [] = 0
maximum (at ∷ times) = max at (maximum times)

unfoldable pub history_of : List ℕ → RebalanceHistory
unfolding maximum
history_of [] = empty_history
history_of (at ∷ times) = record {
  last_at = some (maximum (at ∷ times));
  count_in_window = length (at ∷ times);
}

-- The list of a position is pruned in place.
unfoldable pub history_from :
    String → ℕ → Option (List ℕ) → RebalanceLedger → RebalanceHistory × RebalanceLedger
unfolding history_of prune map_set
history_from position now none l = (empty_history, l)
history_from position now (some []) l = (empty_history, l)
history_from position now (some (at ∷ times)) l =
    let kept = prune l.window_ms now (at ∷ times) in
    (history_of kept, record l { by_position = map_set position kept l.by_position })

unfoldable pub history : String → ℕ → RebalanceLedger → RebalanceHistory × RebalanceLedger
unfolding history_from map_get
history position now l = history_from position now (map_get position l.by_position) l

-- The keys of the map.
unfoldable pub tracked : RebalanceLedger → List String
tracked l = map (λ e. e.0) l.by_position
