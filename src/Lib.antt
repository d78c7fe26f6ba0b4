-- ===== src/Lib.antt =====
-- itchcpp: verification of the NASDAQ TotalView-ITCH 5.0 library.
--
-- The program turns market-data bytes into typed messages and back. Its parts and their models:
--
-- Wire.antt: the byte-order helpers of include/itch/parser.hpp (namespace utils). An integer of
--   `w` bytes is a number below 256 ^ w; its image in memory depends on the byte order of the host,
--   the parameter `Endian` that every reader and writer takes.
-- Message.antt and below: the structs of include/itch/messages.hpp, one record each over the shared
--   `Header`, the variant `Message`, and the registry and wire sizes of include/itch/detail/wire.hpp.
--   A `char` is its code, an array of `char` the list of its codes. `IsTyped` says that each
--   field fits its C++ type, that arrays have their length, that `message_type` is the letter of
--   its struct, and that the timestamp fits the 48 bits that the wire has for it.
-- Encoder.antt and below: src/encoder.cpp. `ByteWriter` is a function from the bytes written so far
--   to those after a call; `write_header`, the overloads of `write_body`, `encode_message` and
--   `encode_frame` keep their names.
-- Parser.antt and below: src/parser.cpp. A pointer with an offset is the list of the bytes from there
--   on; a read past the end of the data is `none` and makes the run `over_read`, which the theorems
--   exclude. `parse_impl` is the loop `parse_loop` of rounds `parse_round`; what the message callback
--   and the error callback are called with, in order, is the list of events of the run. The loop has
--   as much fuel as there are bytes, and a round takes at least one, so it never runs out.
--   Parser/Api.antt has the buffer overloads of `parse` and `try_parse`; the thrown exception is a
--   result. The dispatch table, an array over bytes, is a function.
-- Overlay.antt and below: include/itch/overlay.hpp. A view is the bytes from its frame on; an accessor
--   is a read at an offset, `none` past the end. One file for each view class, Overlay/EachMessage.antt
--   for `build_size_table` and `for_each_message`, whose loop has as much fuel as there are bytes.
-- Transport.antt and below: include/itch/transport and src/transport. Transport/Sequencing.antt is
--   `SequenceTracker`, whose map is a list of pairs; Transport/MoldUdp64.antt and Transport/SoupBin.antt
--   are the decoders, which run the parser and the tracker. What callbacks are called with is returned
--   as a list, in order; whether a callback is set is a flag of the state. The loop of `feed` has as
--   much fuel as there are bytes, and Transport/SoupBin/Chunks.antt shows that more changes nothing.
-- OrderBook.antt and below: include/itch/order_book.hpp and src/order_book.cpp. An order has the number
--   of its allocation; an iterator is that number with the side and the price of its level, and
--   following one that leads nowhere gives `none`. A std::map is the list of its pairs in its order.
--   The invariant is OrderBook/WellFormed.antt; OrderBook/Placement.antt and OrderBook/Reduction.antt
--   carry it through `add_order` and `remove_order`.
-- OrderIndex.antt and below: include/itch/book/order_index.hpp. `m_slots` is a list of slots; its size is
--   a power of two, so that `& m_mask` is the remainder by it. The loops have as much fuel as there are
--   slots, and one is always unused. `insert_within` has fuel for the nesting of `insert` and `rehash`: two
--   levels are enough, since no insertion of `rehash` grows the table. OrderIndex/Table.antt is the
--   invariant, and OrderIndex/Laws.antt fills the interface that the books take.
-- L3Book.antt and below: include/itch/book/l3_book.hpp and src/book/l3_book.cpp. The pool is a list of
--   nodes, an index into it a number, `NIL` is `nil`; a write through a reference is a write at its
--   index. The order index is the interface of L3Book/Interface.antt. L3Book/WellFormed.antt is the
--   invariant, carried through by AddKeeps, DropKeeps and TakeKeeps; L3Book/Arrivals.antt is the
--   abstract book, and L3Book/Refinement.antt and L3Book/Sequences.antt relate the two. `orders_at`
--   follows the links for as many steps as the level counts, and then the queue has ended.
-- BookManager.antt and below: include/itch/book/book_manager.hpp and src/book/book_manager.cpp over the
--   books of L3Book.antt. A null pointer in the vector of books is `none`, the set of symbols is a list,
--   and an assignment through the pointer to an entry is a write at its locate code. What the two
--   callbacks are called with, in order, is the list of events of a call. BookManager/Quotes.antt says
--   what a message announces, BookManager/Universe.antt which books are kept.
-- Bars.antt and below: the bar builder of include/itch/analytics/bars.hpp over the trades of
--   include/itch/tape.hpp. The clock is a parameter, a function to buckets; the bars that the callback
--   gets are a list. Bars/Runs.antt describes the bars apart from the code.
-- Text.antt: the comparison of texts and the trimming of padded fields that these share.
--
-- Not modelled: printing of messages, the stream overloads of `parse` (they only read a stream into a
--   buffer) and of the book, the pcap reader, the other analytics, CSV and Arrow export, replay, the command line tool, the Python bindings.
pub mod Prelude
pub mod Text
pub mod Wire
pub mod Message
pub mod Encoder
pub mod Parser
pub mod Overlay
pub mod Transport
pub mod OrderBook
pub mod OrderIndex
pub mod L3Book
pub mod BookManager
pub mod Bars
