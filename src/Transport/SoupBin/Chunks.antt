-- ===== src/Transport/SoupBin/Chunks.antt =====
-- `feed` of src/transport/soupbintcp.cpp on a stream that arrives in pieces.
use itchcpp.Prelude.{
  ℕ, zero, suc, ◌+◌, ◌-◌, ◌≤◌, ◌<◌, ◌≡◌, refl, ap, ◌∙◌, List, [], ◌∷◌, ◌++◌, append_assoc, length,
  length-append, length-drop, drop, take_append, drop_append, ltb, ◌==◌, le→ltb_false, Bool-cases,
  inl, inr, arith,
}
use itchcpp.Wire.{Endian}
use itchcpp.Transport.SoupBin.{
  SoupBinState, SoupBinDecoder, Effect, Front, wait, empty, packet, split_packet, front_of, front,
  Fed, behind, process_packet, consume, feed,
}

-- What is at the front stays there when more bytes arrive, and takes a byte at least.
abbrev Stays : ℕ → List ℕ → Front → Front → Type 0
Stays n more wait f = Unit
Stays n more (empty rest) f = (f ≡ empty (rest ++ more)) × (length rest < n)
Stays n more (packet type payload rest) f =
    (f ≡ packet type payload (rest ++ more)) × (length rest < n)

split_packet-Stays :
    (n size : ℕ) (rest more : List ℕ)
    → 0 < size
    → size ≤ length rest
    → length rest < n
    → Stays n more (split_packet size rest) (split_packet size (rest ++ more))
unfolding split_packet
split_packet-Stays n size [] more positive long short = tt
split_packet-Stays n size (type ∷ bytes) more positive long short = (
  rw (
    take_append (size - 1) bytes more (omega arith),
    drop_append (size - 1) bytes more (omega arith),
  ),
  omega (arith, length-drop (size - 1) bytes),
)

front_of-Stays :
    (n size : ℕ) (rest more : List ℕ)
    → length rest < n
    → Stays n more (front_of size rest) (front_of size (rest ++ more))
unfolding front_of
front_of-Stays n size rest more short = elim (Bool-cases (size == 0)) [
  | inl zero_size ↦ rw zero_size (refl, short)
  | inr positive ↦ rw positive (elim (Bool-cases (ltb (length rest) size)) [
    | inl partial ↦ rw partial tt
    | inr whole ↦
        rw
          (
            whole,
            le→ltb_false (length (rest ++ more)) size (ground (arith, length-append rest more)),
          )
          (split_packet-Stays n size rest more (ground arith) (ground arith) short)
  ])
]

front-Stays :
    (e : Endian) (bytes more : List ℕ)
    → Stays (length bytes) more (front e bytes) (front e (bytes ++ more))
unfolding front
front-Stays e bytes more = elim (Bool-cases (ltb (length bytes) 2)) [
  | inl partial ↦ rw partial tt
  | inr whole ↦
      rw
        (
          whole,
          le→ltb_false (length (bytes ++ more)) 2 (ground (arith, length-append bytes more)),
          take_append 2 bytes more (ground arith),
          drop_append 2 bytes more (ground arith),
        )
        (front_of-Stays (length bytes) _ (drop 2 bytes) more (ground (arith, length-drop 2 bytes)))
]

-- A round for each byte is enough.
consume-fuel :
    (e : Endian) (f g : ℕ) (d : SoupBinState) (bytes : List ℕ)
    → length bytes ≤ f
    → length bytes ≤ g
    → consume e f d bytes ≡ consume e g d bytes
unfolding consume
consume-fuel e zero zero d bytes hf hg = refl
consume-fuel e zero (suc g) d [] hf hg = unfold front in refl
consume-fuel e zero (suc g) d (b ∷ bytes) hf hg = absurd (omega arith)
consume-fuel e (suc f) zero d [] hf hg = unfold front in refl
consume-fuel e (suc f) zero d (b ∷ bytes) hf hg = absurd (omega arith)
consume-fuel e (suc f) (suc g) d bytes hf hg =
    go (front e bytes) (front e (bytes ++ [])) (front-Stays e bytes [])
      (λ d rest short. consume-fuel e f g d rest (omega arith) (omega arith))
  where
    go :
        (r s : Front)
        → Stays (length bytes) [] r s
        → ((d : SoupBinState) (rest : List ℕ)
            → length rest < length bytes
            → consume e f d rest ≡ consume e g d rest)
        → ◌≡◌ {A = Fed}
            (elim r [
              | wait ↦ record { state = d; effects = []; rest = bytes }
              | empty rest ↦ consume e f d rest
              | packet type payload rest ↦
                  let (d', effects) = process_packet e d type payload in
                  behind effects (consume e f d' rest)
            ])
            (elim r [
              | wait ↦ record { state = d; effects = []; rest = bytes }
              | empty rest ↦ consume e g d rest
              | packet type payload rest ↦
                  let (d', effects) = process_packet e d type payload in
                  behind effects (consume e g d' rest)
            ])
    go wait s stays again = refl
    go (empty rest) s stays again = again d rest stays.1
    go (packet type payload rest) s stays again =
        ap (behind (process_packet e d type payload).1)
          (again (process_packet e d type payload).0 rest stays.1)

-- The bytes that are left go on with those that follow.
abbrev goes_on : Endian → Fed → List ℕ → Fed
goes_on e x more = behind x.effects (consume e (length (x.rest ++ more)) x.state (x.rest ++ more))

behind-behind :
    (e : Endian) (x : Fed) (more : List ℕ) (effects : List Effect)
    → behind effects (goes_on e x more) ≡ goes_on e (behind effects x) more
unfolding behind
behind-behind e x more effects = rw append_assoc

consume-append :
    (e : Endian) (f g : ℕ) (d : SoupBinState) (bytes more : List ℕ)
    → length bytes ≤ f
    → length bytes + length more ≤ g
    → consume e g d (bytes ++ more) ≡ goes_on e (consume e f d bytes) more
unfolding consume
consume-append e zero g d [] more hf hg =
    unfold behind in consume-fuel e g (length more) d more (omega arith) (omega arith)
consume-append e zero g d (b ∷ bytes) more hf hg = absurd (omega arith)
consume-append e (suc f) zero d [] more hf hg =
    unfold front behind in consume-fuel e zero (length more) d more (omega arith) (omega arith)
consume-append e (suc f) zero d (b ∷ bytes) more hf hg = absurd (omega arith)
consume-append e (suc f) (suc g) d bytes more hf hg =
    go (front e bytes) (front e (bytes ++ more)) refl (front-Stays e bytes more)
      (λ d rest short. consume-append e f g d rest more (omega arith) (omega arith))
  where
    go :
        (r s : Front)
        → front e (bytes ++ more) ≡ s
        → Stays (length bytes) more r s
        → ((d : SoupBinState) (rest : List ℕ)
            → length rest < length bytes
            → consume e g d (rest ++ more) ≡ goes_on e (consume e f d rest) more)
        → consume e (suc g) d (bytes ++ more)
          ≡ goes_on e
              (elim r [
                | wait ↦ record { state = d; effects = []; rest = bytes }
                | empty rest ↦ consume e f d rest
                | packet type payload rest ↦
                    let (d', effects) = process_packet e d type payload in
                    behind effects (consume e f d' rest)
              ])
              more
    go wait s same stays again =
        unfold behind in
        consume-fuel e (suc g) (length (bytes ++ more)) d (bytes ++ more)
          (omega (arith, length-append bytes more)) (omega arith)
    go (empty rest) s same stays again = rw (same ∙ stays.0, consume) (again d rest stays.1)
    go (packet type payload rest) s same stays again =
        rw (same ∙ stays.0, consume)
          (ap (behind (process_packet e d type payload).1)
              (again (process_packet e d type payload).0 rest stays.1)
            ∙ behind-behind e (consume e f (process_packet e d type payload).0 rest) more
                (process_packet e d type payload).1)

-- A stream may arrive in any pieces: feeding it in two calls leads to the same decoder, and to the
-- same effects in the same order, as feeding it in one.
pub feed-append :
    (e : Endian) (d : SoupBinDecoder) (first second : List ℕ)
    → feed e d (first ++ second) ≡ (
        let (d', effects) = feed e d first in
        let (d'', effects') = feed e d' second in (d'', effects ++ effects'))
unfolding feed behind
feed-append e d first second =
    ap (λ (f : Fed). (record { state = f.state; buffer = f.rest }, f.effects))
      (rw (← append_assoc d.buffer first second) (
        consume-append e (length (d.buffer ++ first)) (length ((d.buffer ++ first) ++ second))
          d.state (d.buffer ++ first) second (omega arith)
          (omega (arith, length-append (d.buffer ++ first) second))))
