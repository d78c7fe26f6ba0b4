-- ===== src/L3Book/Unlinking.antt =====
-- `unlink_node` of src/book/l3_book.cpp on the links: the nodes before and behind are joined.
use itchcpp.Prelude.{
  ℕ, ◌<◌, ◌≤◌, ◌≡◌, refl, sym, ◌∙◌, subst, List, [], ◌∷◌, ◌++◌, true, false, ◌==◌, if◌then◌else◌,
  length, arith,
}
use itchcpp.L3Book.{OrderNode, Level, nil, node_at, blank_node, unlink_prev, unlink_next}
use itchcpp.L3Book.Vectors.{set, length-set, get_or-set}
use itchcpp.L3Book.Segments.{
  has, has_ne, Cells, Seg, Split, has-append, Seg-frame, Seg-append, Seg-Split, tail-has,
  Seg-set_last, Seg-set_first,
}
use itchcpp.L3Book.Queues.{SameOrder, Relinked, InPool}

-- One of the two writes: only nodes of `part` have other links.
record Joined (part : List ℕ) (pool pool' : List OrderNode) (level level' : Level) : Type 0 where
  orders_same : (j : ℕ) → SameOrder (node_at pool j) (node_at pool' j)
  others_same : (j : ℕ) → has j part ≡ false → node_at pool' j ≡ node_at pool j
  size_same : length pool' ≡ length pool
  price_same : level'.price ≡ level.price
  total_same : level'.total_shares ≡ level.total_shares
  count_same : level'.order_count ≡ level.order_count

record Front (xs : List ℕ) (mid next : ℕ) (pool pool' : List OrderNode) (level level' : Level)
    : Type 0 where
  links : Seg (node_at pool') nil xs level'.head mid next
  joined : Joined xs pool pool' level level'
  tail_same : level'.tail ≡ level.tail

record Back (zs : List ℕ) (mid next : ℕ) (pool pool' : List OrderNode) (level level' : Level)
    : Type 0 where
  links : Seg (node_at pool') mid zs next level'.tail nil
  joined : Joined zs pool pool' level level'
  head_same : level'.head ≡ level.head

module _ (pool : List OrderNode) (i : ℕ) (level : Level) (room : length pool ≤ nil) where
  unlink_prev-Front :
      (xs : List ℕ) (mid : ℕ)
      → InPool pool xs
      → (node_at pool i).prev ≡ mid
      → Seg (node_at pool) nil xs level.head mid i
      → Front xs mid
          (node_at pool i).next
          pool
          (unlink_prev pool i level).0
          level
          (unlink_prev pool i level).1
  unfolding unlink_prev
  unlink_prev-Front [] mid inside e (h, t) =
      let first : ((node_at pool i).prev == nil) ≡ true = ground arith in
      rw first record {
        links = (refl, t);
        joined = record {
          orders_same = λ j. ground arith;
          others_same = λ j o. refl;
          size_same = refl;
          price_same = refl;
          total_same = refl;
          count_same = refl;
        };
        tail_same = refl;
      }
  unlink_prev-Front (x ∷ xs) mid inside e s =
      let next : ℕ = (node_at pool i).next in
      let last : has mid (x ∷ xs) ≡ true = tail-has (node_at pool) nil x xs level.head mid i s in
      let bound : mid < length pool = inside mid last in
      let more : (mid == nil) ≡ false = ground arith in
      let pool' : List OrderNode = set pool mid (record (node_at pool mid) { next = next }) in
      let same : (j : ℕ)
          → node_at pool' j
            ≡ (if mid == j then record (node_at pool j) { next = next } else node_at pool j) =
        λ j. ground (
          arith,
          get_or-set pool mid j (record (node_at pool mid) { next = next }) blank_node bound,
        ) in
      let links : Seg (node_at pool') nil (x ∷ xs) level.head mid next =
        Seg-set_last (node_at pool) (node_at pool') nil x xs level.head mid i next same s in
      let run : unlink_prev pool i level ≡ (pool', level) = rw (e, more) in
      subst (λ (r : List OrderNode × Level). Front (x ∷ xs) mid next pool r.0 level r.1) (sym run)
        record {
          links = links;
          joined = record {
            orders_same = λ j. rw (same j) (ground arith);
            others_same = λ j o. ground (arith, same j, has_ne j mid (x ∷ xs) o last);
            size_same = length-set pool mid _;
            price_same = refl;
            total_same = refl;
            count_same = refl;
          };
          tail_same = refl;
        }

  unlink_next-Back :
      (zs : List ℕ) (mid : ℕ)
      → InPool pool zs
      → (node_at pool i).prev ≡ mid
      → Seg (node_at pool) i zs (node_at pool i).next level.tail nil
      → Back zs mid
          (node_at pool i).next
          pool
          (unlink_next pool i level).0
          level
          (unlink_next pool i level).1
  unfolding unlink_next
  unlink_next-Back [] mid inside e (h, t) =
      let end : ((node_at pool i).next == nil) ≡ true = ground arith in
      rw end record {
        links = (h, e);
        joined = record {
          orders_same = λ j. ground arith;
          others_same = λ j o. refl;
          size_same = refl;
          price_same = refl;
          total_same = refl;
          count_same = refl;
        };
        head_same = refl;
      }
  unlink_next-Back (z ∷ zs) mid inside e s =
      let next : ℕ = (node_at pool i).next in
      let bound : next < length pool = ground (arith, inside z) in
      let more : (next == nil) ≡ false = ground arith in
      let pool' : List OrderNode = set pool next (record (node_at pool next) { prev = mid }) in
      let same : (j : ℕ)
          → node_at pool' j
            ≡ (if next == j then record (node_at pool j) { prev = mid } else node_at pool j) =
        λ j. ground (
          arith,
          get_or-set pool next j (record (node_at pool next) { prev = mid }) blank_node bound,
        ) in
      let links : Seg (node_at pool') mid (z ∷ zs) next level.tail nil =
        Seg-set_first (node_at pool) (node_at pool') i mid z zs next level.tail nil same s in
      let run : unlink_next pool i level ≡ (pool', level) = rw (more, e) in
      subst (λ (r : List OrderNode × Level). Back (z ∷ zs) mid next pool r.0 level r.1) (sym run)
        record {
          links = links;
          joined = record {
            orders_same = λ j. rw (same j) (ground arith);
            others_same = λ j o. ground (arith, same j, s.0);
            size_same = length-set pool next _;
            price_same = refl;
            total_same = refl;
            count_same = refl;
          };
          head_same = refl;
        }

-- Both writes
abbrev pub unlinked : List OrderNode → ℕ → Level → List OrderNode × Level
unlinked pool i level = unlink_next (unlink_prev pool i level).0 i (unlink_prev pool i level).1

Joined-outside :
    (xs zs : List ℕ) (i j : ℕ)
    → has j (xs ++ i ∷ zs) ≡ false
    → (has j xs ≡ false) × (has j zs ≡ false)
Joined-outside xs zs i j o = ground (arith, has-append j xs (i ∷ zs))

pub unlinked-Relinked :
    (pool : List OrderNode) (i : ℕ) (level : Level) (xs zs : List ℕ)
    → length pool ≤ nil
    → InPool pool (xs ++ i ∷ zs)
    → Seg (node_at pool) nil (xs ++ i ∷ zs) level.head level.tail nil
    → Relinked i
        (xs ++ i ∷ zs)
        (xs ++ zs)
        pool
        (unlinked pool i level).0
        level
        (unlinked pool i level).1
unlinked-Relinked pool i level xs zs room inside s =
    let f : Cells = node_at pool in
    let sp : Split f nil xs (i ∷ zs) level.head level.tail nil =
      Seg-Split f nil xs (i ∷ zs) level.head level.tail nil s in
    let mid : ℕ = sp.mid_tail in
    let (at_i, out, prev, behind) = sp.back in
    let apart : (j : ℕ) → has j xs ≡ true → has j zs ≡ false =
      λ j m. ground (arith, sp.apart j m) in
    let apart' : (j : ℕ) → has j zs ≡ true → has j xs ≡ false = λ j m. ground (arith, sp.apart j) in
    let not_front : has i xs ≡ false = ground (arith, sp.apart i) in
    let pool1 : List OrderNode = (unlink_prev pool i level).0 in
    let level1 : Level = (unlink_prev pool i level).1 in
    let fr : Front xs mid (f i).next pool pool1 level level1 =
      unlink_prev-Front pool i level room xs mid
        (λ j m. inside j (ground (arith, has-append j xs (i ∷ zs)))) prev
        (rw (sym at_i) sp.front) in
    let still : node_at pool1 i ≡ f i = fr.joined.others_same i not_front in
    let behind1 : Seg (node_at pool1) i zs (node_at pool1 i).next level1.tail nil =
      rw (still, fr.tail_same)
        (Seg-frame f (node_at pool1) i zs (f i).next level.tail nil
          (λ j m. fr.joined.others_same j (apart' j m)) behind) in
    let pool2 : List OrderNode = (unlink_next pool1 i level1).0 in
    let level2 : Level = (unlink_next pool1 i level1).1 in
    let bk : Back zs mid (node_at pool1 i).next pool1 pool2 level1 level2 =
      unlink_next-Back pool1 i level1 (rw (fr.joined.size_same) room) zs mid
        (λ j m. rw (fr.joined.size_same) (inside j (ground (arith, has-append j xs (i ∷ zs)))))
        (rw still prev) behind1 in
    let front2 : Seg (node_at pool2) nil xs level2.head mid (f i).next = rw (bk.head_same) (
      Seg-frame (node_at pool1) (node_at pool2) nil xs level1.head mid (f i).next
        (λ j m. bk.joined.others_same j (apart j m)) fr.links) in
    record {
      links =
          Seg-append (node_at pool2) nil xs zs level2.head mid (f i).next level2.tail nil front2
            (subst (λ (n : OrderNode). Seg (node_at pool2) mid zs n.next level2.tail nil) still
              bk.links)
            apart;
      orders_same = λ j. ground (arith, fr.joined.orders_same j, bk.joined.orders_same j);
      others_same = λ j o.
          let o' : (has j xs ≡ false) × (has j zs ≡ false) =
            Joined-outside xs zs i j (ground arith) in
          bk.joined.others_same j o'.1 ∙ fr.joined.others_same j o'.0;
      size_same = bk.joined.size_same ∙ fr.joined.size_same;
      price_same = bk.joined.price_same ∙ fr.joined.price_same;
      total_same = bk.joined.total_same ∙ fr.joined.total_same;
      count_same = bk.joined.count_same ∙ fr.joined.count_same;
    }
