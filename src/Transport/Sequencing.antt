-- ===== src/Transport/Sequencing.antt =====
-- The class `SequenceTracker` of include/itch/transport/sequencing.hpp. The map from sessions to
-- the next expected sequence number is a list of pairs; what the gap callback and the
-- `RetransmitRequester` are called with, in order, is a list of notices.
pub mod Laws
pub mod Accounts
use itchcpp.Prelude.{
  ℕ, ◌+◌, ◌-◌, ◌%◌, ◌^◌, List, [], ◌∷◌, ◌++◌, Option, none, some, Bool, ltb, min, if◌then◌else◌,
}
use itchcpp.Text.{text_eq}

abbrev pub Sessions : Type 0
Sessions = List (List ℕ × ℕ)

-- m_expected_by_session.find
unfoldable pub find : List ℕ → Sessions → Option ℕ
find key [] = none
find key ((k, expected) ∷ sessions) = if text_eq k key then some expected else find key sessions

-- The assignment through the iterator that `find` returned.
unfoldable pub assign : List ℕ → ℕ → Sessions → Sessions
assign key v [] = []
assign key v ((k, expected) ∷ sessions) =
    if text_eq k key then (k, v) ∷ sessions else (k, expected) ∷ assign key v sessions

-- `has_gap_callback` and `has_requester` say whether `m_gap_callback` and `m_requester` are set.
pub record SequenceTracker : Type 0 where
  pub expected_by_session : Sessions
  pub has_gap_callback : Bool
  pub has_requester : Bool
  pub gap_count : ℕ
  pub messages_seen : ℕ

pub data Notice : Type 0 where
  gap_notice : List ℕ → ℕ → ℕ → Notice
  retransmit_request : List ℕ → ℕ → ℕ → Notice

abbrev pub when {ℓ} : {A : Type ℓ} → Bool → A → List A
when test a = if test then a ∷ [] else []

-- The tracker, the notices, and the number of missing messages that is returned.
abbrev pub Observed : Type 0
Observed = SequenceTracker × List Notice × ℕ

-- The session is seen for the first time.
unfoldable pub anchor : SequenceTracker → List ℕ → ℕ → ℕ → Observed
anchor t session first count = (
  record t {
    expected_by_session = (session, (first + count) % 2 ^ 64) ∷ t.expected_by_session;
    messages_seen = (t.messages_seen + count) % 2 ^ 64;
  },
  [],
  0,
)

-- The first half of `observe` for a known session: a packet that starts ahead is a gap.
unfoldable pub note_gap : SequenceTracker → List ℕ → ℕ → ℕ → Observed
note_gap t session expected first =
    if ltb expected first
    then (
      record t { gap_count = (t.gap_count + (first - expected)) % 2 ^ 64 },
      when t.has_gap_callback (gap_notice session expected first)
          ++ when t.has_requester (retransmit_request session expected (first - expected)),
      first - expected,
    )
    else (t, [], 0)

-- The second half: the new messages are counted, and the expectation moves on.
unfoldable pub advance : SequenceTracker → List ℕ → ℕ → ℕ → ℕ → SequenceTracker
advance t session expected first count =
    let end_sequence = (first + count) % 2 ^ 64 in
    let already_seen = if ltb first expected then expected - first else 0 in
    if ltb expected end_sequence
    then record t {
      messages_seen = (t.messages_seen + (count - min count already_seen)) % 2 ^ 64;
      expected_by_session = assign session end_sequence t.expected_by_session;
    }
    else t

unfoldable pub observe_known : SequenceTracker → List ℕ → ℕ → ℕ → ℕ → Observed
unfolding note_gap advance
observe_known t session expected first count =
    let (t', notices, gap) = note_gap t session expected first in
    (advance t' session expected first count, notices, gap)

unfoldable pub observe_found : SequenceTracker → List ℕ → ℕ → ℕ → Option ℕ → Observed
unfolding anchor observe_known
observe_found t session first count none = anchor t session first count
observe_found t session first count (some expected) = observe_known t session expected first count

unfoldable pub observe : SequenceTracker → List ℕ → ℕ → ℕ → Observed
unfolding observe_found
observe t session first count =
    observe_found t session first count (find session t.expected_by_session)

unfoldable pub expected_next : SequenceTracker → List ℕ → Option ℕ
expected_next t session = find session t.expected_by_session

unfoldable pub reset : SequenceTracker → SequenceTracker
reset t = record t { expected_by_session = []; gap_count = 0; messages_seen = 0 }
