-- ===== src/OrderBook/Process.antt =====
-- `process` of src/order_book.cpp on any messages.
use itchcpp.Prelude.{
  ℕ, ◌≡◌, refl, List, [], ◌∷◌, Option, none, some, inl, inr, Bool, true, false, not, Bool-cases,
  Option-cases, if◌then◌else◌,
}
use itchcpp.Text.{text_eq}
use itchcpp.Message.{
  Message, header_of, add_order, add_order_mpid_attribution, order_executed,
  order_executed_with_price, order_cancel, order_delete, order_replace,
}
use itchcpp.OrderBook.{
  Order, LimitOrderBook, find_entry, follow, add_to_book, to_string, handle_add, if_ours,
  with_order, handle_reduction, handle_delete, add_after, handle_replace, handle_message,
  book_messages, process, new_book,
}
use itchcpp.OrderBook.WellFormed.{WellFormed}
use itchcpp.OrderBook.Reduction.{remove_order-WellFormed}
use itchcpp.OrderBook.Placement.{add_to_book-WellFormed}

-- A result that keeps the invariant.
abbrev pub Keeps : Option LimitOrderBook → Type 0
Keeps o = (t : LimitOrderBook) × (o ≡ some t) × WellFormed t

Keeps-if :
    (test : Bool) (x y : Option LimitOrderBook) → Keeps x → Keeps y → Keeps (if test then x else y)
Keeps-if true x y h k = h
Keeps-if false x y h k = k

with_order-Keeps :
    (s : LimitOrderBook) (ref : ℕ) (handle : Order → Option LimitOrderBook)
    → WellFormed s
    → ((order : Order) → Keeps (handle order))
    → Keeps (with_order s ref handle)
unfolding with_order
with_order-Keeps s ref handle w h = elim (Option-cases (find_entry ref s.orders)) [
  | inl absent ↦ (s, rw (with_order, absent), w)
  | inr (it, entry) ↦
      let l = w.leads ref it entry in
      let (t, e, v) =
        Keeps-if (not (text_eq l.holds.order.stock s.stock_symbol)) (some s) (handle l.holds.order)
          (s, refl, w) (h l.holds.order) in
      (t, rw (with_order, entry, follow, l.found, l.holds.node, if_ours) e, v)
]

handle_add-WellFormed :
    (s : LimitOrderBook) (ref side shares price : ℕ) (stock : List ℕ)
    → WellFormed s
    → WellFormed (handle_add s ref side shares price stock)
unfolding handle_add
handle_add-WellFormed s ref side shares price stock w =
    elim (Bool-cases (not (text_eq (to_string stock) s.stock_symbol))) [
      | inl foreign ↦ rw foreign w
      | inr ours ↦ rw ours (add_to_book-WellFormed s ref side shares price (to_string stock) w)
    ]

add_after-Keeps :
    (ref side shares price : ℕ) (stock : List ℕ) (o : Option LimitOrderBook)
    → Keeps o
    → Keeps (add_after ref side shares price stock o)
unfolding add_after
add_after-Keeps ref side shares price stock o (t, e, w) = (
  add_to_book t ref side shares price stock,
  rw (e, add_after),
  add_to_book-WellFormed t ref side shares price stock w,
)

handle_reduction-Keeps :
    (s : LimitOrderBook) (ref shares : ℕ) → WellFormed s → Keeps (handle_reduction s ref shares)
unfolding handle_reduction
handle_reduction-Keeps s ref shares w =
    with_order-Keeps s ref _ w (λ order. remove_order-WellFormed s ref shares w)

handle_message-Keeps :
    (s : LimitOrderBook) (m : Message) → WellFormed s → Keeps (handle_message s m)
unfolding handle_message handle_delete handle_replace
handle_message-Keeps s (add_order m) w = (
  _,
  refl,
  handle_add-WellFormed s m.order_reference_number m.buy_sell_indicator m.shares m.price m.stock w,
)
handle_message-Keeps s (add_order_mpid_attribution m) w = (
  _,
  refl,
  handle_add-WellFormed s m.order_reference_number m.buy_sell_indicator m.shares m.price m.stock w,
)
handle_message-Keeps s (order_executed m) w =
    handle_reduction-Keeps s m.order_reference_number m.executed_shares w
handle_message-Keeps s (order_executed_with_price m) w =
    handle_reduction-Keeps s m.order_reference_number m.executed_shares w
handle_message-Keeps s (order_cancel m) w =
    handle_reduction-Keeps s m.order_reference_number m.cancelled_shares w
handle_message-Keeps s (order_delete m) w =
    with_order-Keeps s m.order_reference_number _ w
      λ order. remove_order-WellFormed s m.order_reference_number order.shares w
handle_message-Keeps s (order_replace m) w =
    with_order-Keeps s m.original_order_reference_number _ w λ order.
      add_after-Keeps _ _ _ _ _ _
        (remove_order-WellFormed s m.original_order_reference_number order.shares w)
handle_message-Keeps s _ w = (s, refl, w)

-- A book that keeps the invariant processes any message without following a dangling iterator, and
-- keeps it.
pub process-Keeps : (s : LimitOrderBook) (m : Message) → WellFormed s → Keeps (process s m)
unfolding process
process-Keeps s m w =
    Keeps-if (not (book_messages (header_of m).message_type)) _ _ (s, refl, w)
      (handle_message-Keeps s m w)

pub new_book-WellFormed : (symbol : List ℕ) → WellFormed (new_book symbol)
unfolding new_book find_entry
new_book-WellFormed symbol = record {
  leads = λ ref it e. cc;
  fresh = λ ref it e. cc;
  distinct = λ r q it jt e f ne. cc;
  bids_ok = tt;
  asks_ok = tt;
}

-- A sequence of messages.
unfoldable pub process_all : LimitOrderBook → List Message → Option LimitOrderBook
process_all s [] = some s
process_all s (m ∷ ms) = elim (process s m) [ none ↦ none | some t ↦ process_all t ms ]

process_all-Keeps :
    (s : LimitOrderBook) (ms : List Message) → WellFormed s → Keeps (process_all s ms)
unfolding process_all
process_all-Keeps s [] w = (s, refl, w)
process_all-Keeps s (m ∷ ms) w =
    let (t, e, v) = process-Keeps s m w in
    let (u, f, x) = process_all-Keeps t ms v in (u, rw (process_all, e) f, x)

-- From an empty book, any sequence of messages is processed to the end: no iterator dangles, and
-- the book that is reached satisfies the invariant: every entry leads to the order of its reference
-- number, and the total of every price level is the sum of the shares of its orders as a 32-bit
-- integer.
pub process_all-WellFormed :
    (symbol : List ℕ) (ms : List Message)
    → (t : LimitOrderBook) × (process_all (new_book symbol) ms ≡ some t) × WellFormed t
process_all-WellFormed symbol ms =
    process_all-Keeps (new_book symbol) ms (new_book-WellFormed symbol)
