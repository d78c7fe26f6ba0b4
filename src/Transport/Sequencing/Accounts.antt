-- ===== src/Transport/Sequencing/Accounts.antt =====
-- The books of `SequenceTracker` in include/itch/transport/sequencing.hpp: every sequence number
-- from the anchor to the expectation is counted once, as seen or as missing.
use itchcpp.Prelude.{ℕ, ◌+◌, ◌^◌, ◌<◌, ◌≡◌, List, [], ◌∷◌, none, some, max, arith, All}
use itchcpp.Transport.Sequencing.{
  SequenceTracker, note_gap, advance, observe_known, observe_found, observe, expected_next, anchor,
}
use itchcpp.Transport.Sequencing.Laws.{expected_next-observe_same}

-- The packets of one session, one after the other: the first sequence number and the count of each.
unfoldable pub observe_all : SequenceTracker → List ℕ → List (ℕ × ℕ) → SequenceTracker
observe_all t session [] = t
observe_all t session ((first, count) ∷ packets) =
    observe_all (observe t session first count).0 session packets

abbrev pub Fits : ℕ × ℕ → Type 0
Fits (first, count) = first + count < 2 ^ 64

-- What was expected at first, and what was seen or missed since, is what is expected now.
pub record Accounts (start : ℕ) (session : List ℕ) (t : SequenceTracker) : Type 0 where
  pub expected : ℕ
  pub known : expected_next t session ≡ some expected
  pub bound : expected < 2 ^ 64
  pub balance : start + t.messages_seen + t.gap_count ≡ expected

balance-observe_known :
    (t : SequenceTracker) (session : List ℕ) (start expected first count : ℕ)
    → start + t.messages_seen + t.gap_count ≡ expected
    → expected < 2 ^ 64
    → first + count < 2 ^ 64
    → start
        + (observe_known t session expected first count).0.messages_seen
        + (observe_known t session expected first count).0.gap_count
      ≡ max expected (first + count)
unfolding observe_known note_gap advance
balance-observe_known t session start expected first count h b f = ground arith

observe-Accounts :
    (t : SequenceTracker) (session : List ℕ) (start first count : ℕ)
    → first + count < 2 ^ 64
    → Accounts start session t
    → Accounts start session (observe t session first count).0
unfolding observe observe_found expected_next
observe-Accounts t session start first count f a = record {
  expected = max a.expected (first + count);
  known = expected_next-observe_same t session first count (some a.expected) f a.known;
  bound = omega (arith, a.bound);
  balance =
      rw a.known (balance-observe_known t session start a.expected first count a.balance a.bound f);
}

-- If the books of a session balance, they balance after any packets of that session whose ends do
-- not wrap at 64 bits, in any order, lost or repeated: the messages seen and those missing add up to
-- the numbers from the start to the expectation.
pub observe_all-Accounts :
    (t : SequenceTracker) (session : List ℕ) (start : ℕ) (packets : List (ℕ × ℕ))
    → All Fits packets
    → Accounts start session t
    → Accounts start session (observe_all t session packets)
unfolding observe_all
observe_all-Accounts t session start [] f a = a
observe_all-Accounts t session start ((first, count) ∷ packets) f a =
    observe_all-Accounts (observe t session first count).0 session start packets f.1
      (observe-Accounts t session start first count f.0 a)

anchor-Accounts :
    (t : SequenceTracker) (session : List ℕ) (first count : ℕ)
    → first + count < 2 ^ 64
    → expected_next t session ≡ none
    → t.messages_seen ≡ 0
    → t.gap_count ≡ 0
    → Accounts first session (observe t session first count).0
unfolding observe observe_found anchor expected_next
anchor-Accounts t session first count f new seen gap = record {
  expected = first + count;
  known = expected_next-observe_same t session first count none f new;
  bound = f;
  balance = rw new (omega (arith, seen, gap));
}
