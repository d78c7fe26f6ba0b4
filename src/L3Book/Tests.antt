-- ===== src/L3Book/Tests.antt =====
-- Runs of the book of src/book/l3_book.cpp over an index that is a list of pairs, and the theorems at them.
use itchcpp.Prelude.{◌≡◌, refl, List, [], ◌∷◌, some, arith}
use itchcpp.L3Book.{
  buy, sell, L3Book, new_book, add_order, execute_order, reduce_order, delete_order, replace_order,
  orders_at, bbo,
}
use itchcpp.L3Book.Pairs.{Pairs, pairs, find_pair, erase_pair}
use itchcpp.L3Book.WellFormed.{WellFormed}
use itchcpp.L3Book.Arrivals.{at}
use itchcpp.L3Book.Sequences.{
  Op, add, execution, reduction, deletion, replacement, arrivals, apply, run, run-arrivals,
  run-WellFormed,
}
use itchcpp.L3Book.Depth.{Quote, bbo-Quote}
use itchcpp.OrderIndex.Laws.{SoundIndex, order_index}

-- Two bids at one price, one of which is executed in part, an ask that is replaced, and a bid that is
-- deleted.
abbrev ops : List Op
ops =
    add 7 buy 100 250
    ∷ add 8 buy 40 250
    ∷ add 9 sell 60 260
    ∷ add 7 buy 1 1
    ∷ execution 7 30
    ∷ add 10 buy 5 249
    ∷ replacement 9 11 20 255
    ∷ deletion 10
    ∷ reduction 8 100
    ∷ []

abbrev book : L3Book Pairs
book = (run ops (new_book [])).0

run_results : (run ops (new_book {T = Pairs} [])).1 ≡ 0 ∷ 0 ∷ 0 ∷ 0 ∷ 30 ∷ 0 ∷ 0 ∷ 0 ∷ 40 ∷ []
unfolding run apply new_book add_order execute_order reduce_order delete_order replace_order
    find_pair erase_pair
run_results = refl

run_bids :
    orders_at book buy 250 ≡ some (record { reference_number = 7; shares = 70; price = 250 } ∷ [])
unfolding run apply new_book add_order execute_order reduce_order delete_order replace_order
    find_pair erase_pair orders_at
run_bids = refl

-- The same operations over the hash table
abbrev hashed : L3Book SoundIndex
hashed = (run ops (new_book [])).0

run-arrivals_example :
    (orders_at hashed buy 250 ≡ some (at buy 250 (arrivals ops []).0))
    × ((run ops (new_book {T = SoundIndex} [])).1 ≡ (arrivals ops []).1)
run-arrivals_example = run-arrivals SoundIndex [] ops buy 250 (omega arith)

run-WellFormed_example : WellFormed hashed
run-WellFormed_example = run-WellFormed SoundIndex [] ops (omega arith)

hashed-WellFormed : WellFormed hashed
hashed-WellFormed = run-WellFormed SoundIndex [] ops (omega arith)

bbo-Quote_example :
    Quote hashed buy (bbo hashed).has_bid (bbo hashed).bid_price (bbo hashed).bid_shares
    × Quote hashed sell (bbo hashed).has_ask (bbo hashed).ask_price (bbo hashed).ask_shares
bbo-Quote_example = bbo-Quote hashed hashed-WellFormed
