-- ===== src/LockFreeQueue/Loop.antt =====
-- The loop of Enqueue (LockFreeQueue.h).
use new_name_auction.Prelude.{
  ℕ, zero, suc, ◌^◌, ◌<◌, ◌≡◌, ◌≢◌, refl, sym, ap, subst, ◌∙◌, false, some, List, [], ◌∷◌, ◌++◌,
  map, append_assoc, arith, ◌==◌, length,
}
use new_name_auction.LockFreeStack.{ptr_of, pop_word}
use new_name_auction.LockFreeStack.Chain.{NotIn, Distinct, Linked}
use new_name_auction.MemoryPool.{}
use new_name_auction.MemoryPool.Blocks.{}
use new_name_auction.LockFreeQueue.{Queue, exchange_rear, link, enqueue_loop}
use new_name_auction.LockFreeQueue.Chain.{
  exchange_rear-moved, IsChain, data_at, ptr_of-pop_word, pop_word-lt, Distinct-append,
  NotIn-append_right, Linked-at, Linked-link, map-store_next,
}

-- The loop after any number of rounds: the new node is linked behind the last, and nothing else moves.
pub record IsLinked (q q' : Queue) (chain : List ℕ) (a : ℕ) : Type 0 where
  pub is : IsChain q' (chain ++ (a ∷ []))
  pub pool_same : q'.pool ≡ q.pool
  pub count_same : q'.node_count ≡ q.node_count
  pub data_same : (xs : List ℕ) → map (data_at q'.nodes) xs ≡ map (data_at q.nodes) xs

module _ (a : ℕ) (q : Queue) (chain before : List ℕ) where
  enqueue_loop-link :
      (fuel : ℕ)
      → (q.nodes (ptr_of q.rear)).next ≡ 0
      → enqueue_loop (suc fuel) a q ≡ some (exchange_rear a q.rear (link (ptr_of q.rear) a q))
  unfolding enqueue_loop
  enqueue_loop-link fuel last = rw last refl

  enqueue_loop-move :
      (fuel : ℕ)
      → ((q.nodes (ptr_of q.rear)).next == 0) ≡ false
      → enqueue_loop (suc fuel) a q
        ≡ enqueue_loop fuel a (exchange_rear (q.nodes (ptr_of q.rear)).next q.rear q)
  unfolding enqueue_loop
  enqueue_loop-move fuel more = rw more refl

  -- The last round.
  IsLinked-last :
      IsChain q chain
      → chain ≡ before ++ (ptr_of q.rear ∷ [])
      → a ≢ 0
      → a < 2 ^ 48
      → NotIn a chain
      → (q.nodes a).next ≡ 0
      → IsLinked q (exchange_rear a q.rear (link (ptr_of q.rear) a q)) chain a
  IsLinked-last is at some_node low out end =
      let r = ptr_of q.rear in
      let l = subst (Linked q.nodes (ptr_of q.front)) at is.linked in
      let d = subst Distinct at is.distinct in
      let out' = subst (NotIn a) at out in
      let differ : a ≢ r = (NotIn-append_right a before (r ∷ []) out').0 in
      subst (λ q'. IsLinked q q' chain a) (sym (exchange_rear-moved a (link r a q)))
        (record {
          is = record {
            linked =
                subst (λ xs. Linked (link r a q).nodes (ptr_of q.front) (xs ++ (a ∷ []))) (sym at)
                  (Linked-link q.nodes (ptr_of q.front) r a before l d some_node low differ end);
            distinct = Distinct-append chain a is.distinct out;
            front_word = is.front_word;
            rear_word = pop_word-lt a q.rear low;
            before = chain;
            behind = [];
            rear_at = ap (λ x. chain ++ (x ∷ [])) (sym (ptr_of-pop_word a q.rear low));
          };
          pool_same = refl;
          count_same = refl;
          data_same = map-store_next r a q.nodes;
        })

-- `rear` moved on by one node.
moved-IsChain :
    (q : Queue) (chain before : List ℕ) (z : ℕ) (zs : List ℕ)
    → IsChain q chain
    → chain ≡ before ++ (ptr_of q.rear ∷ z ∷ zs)
    → z < 2 ^ 48
    → (chain ≡ (before ++ (ptr_of q.rear ∷ [])) ++ (ptr_of (pop_word z q.rear) ∷ zs))
      × IsChain (record q { rear = pop_word z q.rear }) chain
moved-IsChain q chain before z zs is at low =
    let eq : chain ≡ (before ++ (ptr_of q.rear ∷ [])) ++ (ptr_of (pop_word z q.rear) ∷ zs) =
      at
      ∙ (sym (append_assoc before (ptr_of q.rear ∷ []) (z ∷ zs))
          ∙ ap (λ x. (before ++ (ptr_of q.rear ∷ [])) ++ (x ∷ zs))
              (sym (ptr_of-pop_word z q.rear low))) in
    (
      eq,
      record {
        linked = is.linked;
        distinct = is.distinct;
        front_word = is.front_word;
        rear_word = pop_word-lt z q.rear low;
        before = before ++ (ptr_of q.rear ∷ []);
        behind = zs;
        rear_at = eq;
      },
    )

-- The loop of Enqueue ends with one round more than there are nodes behind `rear`.
pub enqueue_loop-IsLinked :
    (behind : List ℕ) (fuel a : ℕ) (q : Queue) (chain before : List ℕ)
    → IsChain q chain
    → chain ≡ before ++ (ptr_of q.rear ∷ behind)
    → length behind < fuel
    → a ≢ 0
    → a < 2 ^ 48
    → NotIn a chain
    → (q.nodes a).next ≡ 0
    → (q' : Queue) × (enqueue_loop fuel a q ≡ some q') × IsLinked q q' chain a
enqueue_loop-IsLinked behind zero a q chain before is at h some_node low out end =
    absurd (omega (arith, h))
enqueue_loop-IsLinked [] (suc fuel) a q chain before is at h some_node low out end =
    let l = subst (Linked q.nodes (ptr_of q.front)) at is.linked in
    let (_, _, last) = Linked-at q.nodes (ptr_of q.front) (ptr_of q.rear) before [] l in
    (
      _,
      enqueue_loop-link a q chain before fuel last,
      IsLinked-last a q chain before is at some_node low out end,
    )
enqueue_loop-IsLinked (z ∷ zs) (suc fuel) a q chain before is at h some_node low out end =
    let l = subst (Linked q.nodes (ptr_of q.front)) at is.linked in
    let (_, _, rest) = Linked-at q.nodes (ptr_of q.front) (ptr_of q.rear) before (z ∷ zs) l in
    let more : ((q.nodes (ptr_of q.rear)).next == 0) ≡ false = ground (arith, rest.0, rest.1) in
    let (at', is') = moved-IsChain q chain before z zs is at rest.2 in
    let (q', run, linked) =
      enqueue_loop-IsLinked zs fuel a (record q { rear = pop_word z q.rear }) chain
        (before ++ (ptr_of q.rear ∷ [])) is' at' (omega (arith, h)) some_node low out end in
    (
      q',
      enqueue_loop-move a q chain before fuel more
          ∙ (ap (λ x. enqueue_loop fuel a (exchange_rear x q.rear q)) rest.0
              ∙ (ap (enqueue_loop fuel a) (exchange_rear-moved z q) ∙ run)),
      record {
        is = linked.is;
        pool_same = linked.pool_same;
        count_same = linked.count_same;
        data_same = linked.data_same;
      },
    )
