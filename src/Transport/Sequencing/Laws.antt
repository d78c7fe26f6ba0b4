-- ===== src/Transport/Sequencing/Laws.antt =====
-- What `SequenceTracker::observe` of include/itch/transport/sequencing.hpp does to the expectations
-- and to the counters, where the 64-bit numbers do not wrap.
use itchcpp.Prelude.{
  ℕ, subst, ◌+◌, ◌^◌, ◌≤◌, ◌<◌, ◌≡◌, refl, List, [], ◌∷◌, Option, none, some, if◌then◌else◌, arith,
  max,
}
use itchcpp.Text.{text_eq, text_eq_refl, eq_of_text_eq}
use itchcpp.Transport.Sequencing.{
  Sessions, find, assign, SequenceTracker, anchor, note_gap, advance, observe_known, observe_found,
  observe, expected_next,
}

pub find-assign :
    (key k : List ℕ) (v x : ℕ) (s : Sessions)
    → find key s ≡ some x
    → find k (assign key v s) ≡ (if text_eq key k then some v else find k s)
unfolding find assign
find-assign key k v x [] h = cc
find-assign key k v x ((j, w) ∷ s) h = ground (
  arith,
  eq_of_text_eq j key,
  eq_of_text_eq j k,
  eq_of_text_eq key k,
  text_eq_refl key,
  find-assign key k v x s,
)

-- Where a session stands after a packet that ends before `end_sequence`.
abbrev pub moved : Option ℕ → ℕ → ℕ
moved none end_sequence = end_sequence
moved (some expected) end_sequence = max expected end_sequence

find-advance :
    (t : SequenceTracker) (s : Sessions) (session k : List ℕ) (expected first count : ℕ)
    → first + count < 2 ^ 64
    → t.expected_by_session ≡ s
    → find session s ≡ some expected
    → find k (advance t session expected first count).expected_by_session
      ≡ (if text_eq session k then some (max expected (first + count)) else find k s)
unfolding advance
find-advance t s session k expected first count h keeps known =
    ground (arith, find-assign session k (first + count) expected s known, eq_of_text_eq session k)

note_gap_keeps :
    (t : SequenceTracker) (session : List ℕ) (expected first : ℕ)
    → (note_gap t session expected first).0.expected_by_session ≡ t.expected_by_session
unfolding note_gap
note_gap_keeps t session expected first = ground arith

find-observe_found :
    (t : SequenceTracker) (session k : List ℕ) (first count : ℕ) (o : Option ℕ)
    → first + count < 2 ^ 64
    → find session t.expected_by_session ≡ o
    → find k (observe_found t session first count o).0.expected_by_session
      ≡ (if text_eq session k then some (moved o (first + count)) else find k t.expected_by_session)
unfolding observe_found anchor observe_known find
find-observe_found t session k first count none h e = ground arith
find-observe_found t session k first count (some expected) h e =
    find-advance (note_gap t session expected first).0 t.expected_by_session session k expected
      first count h (note_gap_keeps t session expected first) e

-- A packet whose end does not wrap at 64 bits moves the expectation of its session to that end,
-- never backwards, and leaves every other session alone.
pub expected_next-observe :
    (t : SequenceTracker) (session k : List ℕ) (first count : ℕ)
    → first + count < 2 ^ 64
    → expected_next (observe t session first count).0 k ≡ (
        if text_eq session k
        then some (moved (expected_next t session) (first + count))
        else expected_next t k)
unfolding observe expected_next
expected_next-observe t session k first count h =
    find-observe_found t session k first count (find session t.expected_by_session) h refl

pub expected_next-observe_same :
    (t : SequenceTracker) (session : List ℕ) (first count : ℕ) (o : Option ℕ)
    → first + count < 2 ^ 64
    → expected_next t session ≡ o
    → expected_next (observe t session first count).0 session ≡ some (moved o (first + count))
expected_next-observe_same t session first count o h known =
    subst
      (λ (o : Option ℕ).
        expected_next (observe t session first count).0 session ≡ some (moved o (first + count)))
      known (rw (text_eq_refl session) at (expected_next-observe t session session first count h))

moved_bound : (o : Option ℕ) (n : ℕ) → n ≤ moved o n
moved_bound none n = omega arith
moved_bound (some m) n = omega arith

observe_known-seen :
    (t : SequenceTracker) (session : List ℕ) (first count expected : ℕ)
    → first + count ≤ expected
    → first + count < 2 ^ 64
    → observe_known t session expected first count ≡ (t, [], 0)
unfolding observe_known note_gap advance
observe_known-seen t session first count expected seen h = ground arith

observe-seen :
    (t : SequenceTracker) (session : List ℕ) (first count expected : ℕ)
    → expected_next t session ≡ some expected
    → first + count ≤ expected
    → first + count < 2 ^ 64
    → observe t session first count ≡ (t, [], 0)
unfolding observe observe_found observe_known expected_next
observe-seen t session first count expected known seen h =
    rw known (observe_known-seen t session first count expected seen h)

-- The same packet again, where its end does not wrap at 64 bits, changes nothing: no notice is
-- given, no gap is returned, and no message is counted.
pub observe-observe :
    (t : SequenceTracker) (session : List ℕ) (first count : ℕ)
    → first + count < 2 ^ 64
    → observe (observe t session first count).0 session first count
      ≡ ((observe t session first count).0, [], 0)
observe-observe t session first count h =
    observe-seen (observe t session first count).0 session first count
      (moved (expected_next t session) (first + count))
      (rw (text_eq_refl session) at (expected_next-observe t session session first count h))
      (moved_bound (expected_next t session) (first + count)) h
