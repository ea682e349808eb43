-- ===== src/Rebalance/Examples.antt =====
-- Three rebalances in a short window (src/pools/rebalance/ledger.ts).
use ari_os.Prelude.{ℕ, max, length, List, [], ◌∷◌, ◌≡◌, refl, arith}
use ari_os.Rebalance.{new_ledger, history}
use ari_os.Rebalance.Window.{Sorted, nothing, next, in_window, records, count-history}

abbrev times : List ℕ
times = 100 ∷ 250 ∷ 300 ∷ []

in_order : Sorted times
in_order =
    next 100 _ (omega arith, (omega arith, tt))
      (next 250 _ (omega arith, tt) (next 300 _ tt nothing))

count-history_example :
    (history "p" 320 (records "p" times (new_ledger 100))).0.count_in_window
    ≡ length (in_window (max 1 100) 320 times)
count-history_example =
    count-history 100 "p" times 320 in_order (omega arith, (omega arith, (omega arith, tt)))

counts_two : length (in_window (max 1 100) 320 times) ≡ 2
unfolding in_window
counts_two = refl
