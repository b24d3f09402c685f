-- ===== src/LockFreeStack/Pop.antt =====
-- The exchange of pop (LockFreeStack.h) where other threads come between its reads and it.
use new_name_auction.Prelude.{
  ℕ, suc, ◌+◌, ◌%◌, ◌^◌, ◌<◌, ◌≡◌, ◌≢◌, refl, sym, ap, subst, ◌∙◌, true, List, [], ◌∷◌, ◌++◌, arith,
  ◌==◌, append_assoc,
}
use new_name_auction.LockFreeStack.{
  Node, Stack, ptr_of, stamp_of, store, compare_exchange, push_word, pop_word, push_link, push_try,
  pop_try,
}
use new_name_auction.LockFreeStack.Chain.{
  NotIn, Distinct, Linked, IsStack, Linked-store, first_of, first_of-Linked, Linked-next, not-NotIn,
}

-- What the other threads do in the meantime, with the number of their pops that succeed: exchanges of
-- push and pop, and any write to a node that is not in the stack or to the counter. The node of a push is
-- one that is not in the stack, as the pool promises.
pub data Others (s : Stack) : ℕ → Stack → Type 0 where
  no_other : Others s 0 s
  other_push :
      (k : ℕ) (t : Stack) (a : ℕ)
      → Others s k t
      → a ≢ 0
      → a < 2 ^ 48
      → ((xs : List ℕ) → IsStack t xs → NotIn a xs)
      → (t.heap a).next ≡ ptr_of t.top
      → Others s k (push_try a t.top t).1
  other_pop :
      (k : ℕ) (t : Stack)
      → Others s k t
      → ptr_of t.top ≢ 0
      → Others s (suc k) (pop_try t.top (t.heap (ptr_of t.top)).next t).1
  other_write :
      (k : ℕ) (t : Stack) (a : ℕ) (node : Node)
      → Others s k t
      → ((xs : List ℕ) → IsStack t xs → NotIn a xs)
      → Others s k (record t { heap = store a node t.heap })
  other_count :
      (k : ℕ) (t : Stack) (count : ℕ) → Others s k t → Others s k (record t { node_count = count })

pub exchanged :
    (expected word : ℕ) (s : Stack)
    → s.top ≡ expected
    → compare_exchange expected word s ≡ (true, record s { top = word })
unfolding compare_exchange
exchanged expected word s e =
    let same : (s.top == expected) ≡ true = ground (arith, e) in rw same refl

-- The write of push to its own node.
pub push_link-IsStack :
    (a temp : ℕ) (s : Stack) (xs : List ℕ)
    → IsStack s xs
    → NotIn a xs
    → IsStack (push_link a temp s) xs
unfolding push_link
push_link-IsStack a temp s xs is out = record {
  linked = Linked-store a _ s.heap (ptr_of s.top) xs out is.linked;
  distinct = is.distinct;
  word = is.word;
}

pub push_link_next : (a temp : ℕ) (s : Stack) → ((push_link a temp s).heap a).next ≡ ptr_of temp
unfolding push_link
push_link_next a temp s = let same : (a == a) ≡ true = ground arith in rw same refl

pub push_try-IsStack :
    (a : ℕ) (s : Stack) (xs : List ℕ)
    → IsStack s xs
    → a ≢ 0
    → a < 2 ^ 48
    → NotIn a xs
    → (s.heap a).next ≡ ptr_of s.top
    → IsStack (push_try a s.top s).1 (a ∷ xs)
      × (stamp_of (push_try a s.top s).1.top ≡ stamp_of s.top)
unfolding push_try
push_try-IsStack a s xs is some_node low out next =
    rw (exchanged s.top (push_word a s.top) s refl) (
      let w = is.word in
      (
        record {
          linked = (omega (arith, low), some_node, low, rw next is.linked);
          distinct = (out, is.distinct);
          word = omega (arith, low, w);
        },
        omega (arith, low, w),
      ))

-- A whole round of push that nobody disturbs.
pub push_round-IsStack :
    (a : ℕ) (s : Stack) (xs : List ℕ)
    → IsStack s xs
    → a ≢ 0
    → a < 2 ^ 48
    → NotIn a xs
    → IsStack (push_try a s.top (push_link a s.top s)).1 (a ∷ xs)
unfolding push_link
push_round-IsStack a s xs is some_node low out =
    (push_try-IsStack a (push_link a s.top s) xs (push_link-IsStack a s.top s xs is out) some_node
      low out (push_link_next a s.top s)).0

first_of-lt : (heap : ℕ → Node) (p : ℕ) (xs : List ℕ) → Linked heap p xs → p < 2 ^ 48
first_of-lt heap p [] l = omega (arith, l)
first_of-lt heap p (x ∷ xs) l = omega (arith, l.0, l.2)

pub pop_try-IsStack :
    (a next : ℕ) (s : Stack) (xs : List ℕ)
    → IsStack s (a ∷ xs)
    → (s.heap a).next ≡ next
    → ((pop_try s.top next s).0 ≡ true)
      × IsStack (pop_try s.top next s).1 xs
      × (stamp_of (pop_try s.top next s).1.top ≡ (stamp_of s.top + 1) % 2 ^ 16)
unfolding pop_try
pop_try-IsStack a next s xs is e =
    let l : Linked s.heap next xs = subst (λ p. Linked s.heap p xs) e is.linked.3 in
    let low = first_of-lt s.heap next xs l in
    let at : ptr_of (pop_word next s.top) ≡ next = omega (arith, low) in
    rw (exchanged s.top (pop_word next s.top) s refl) (
      refl,
      record { linked = rw at l; distinct = is.distinct.1; word = omega (arith, low) },
      omega (arith, low),
    )

-- What the others leave of the stack `xs`.
record Left (s : Stack) (xs : List ℕ) (k : ℕ) (t : Stack) : Type 0 where
  nodes : List ℕ
  is : IsStack t nodes
  stamps : stamp_of t.top ≡ (stamp_of s.top + k) % 2 ^ 16
  above : k ≡ 0 → (ys : List ℕ) × (nodes ≡ ys ++ xs)

Others-Left : (s t : Stack) (xs : List ℕ) (k : ℕ) → IsStack s xs → Others s k t → Left s xs k t
Others-Left s _ xs _ is no_other = record {
  nodes = xs;
  is = is;
  stamps = omega (arith, is.word);
  above = λ _. ([], refl);
}
Others-Left s _ xs _ is (other_push k t a others some_node low out next) =
    let left = Others-Left s t xs k is others in
    let (is', same) =
      push_try-IsStack a t left.nodes left.is some_node low (out left.nodes left.is) next in
    record {
      nodes = a ∷ left.nodes;
      is = is';
      stamps = same ∙ left.stamps;
      above = λ e. (let (ys, eq) = left.above e in (a ∷ ys, ap (◌∷◌ a) eq));
    }
Others-Left s _ xs _ is (other_pop k t others some_node) =
    let left = Others-Left s t xs k is others in popped left.nodes left.is left.stamps some_node
  where
    popped :
        (nodes : List ℕ)
        → IsStack t nodes
        → stamp_of t.top ≡ (stamp_of s.top + k) % 2 ^ 16
        → ptr_of t.top ≢ 0
        → Left s xs (suc k) (pop_try t.top (t.heap (ptr_of t.top)).next t).1
    popped [] is' stamps some_node = absurd (some_node is'.linked)
    popped (a ∷ nodes) is' stamps some_node =
        let at : ptr_of t.top ≡ a = is'.linked.0 in
        let (_, is'', raised) =
          pop_try-IsStack a (t.heap (ptr_of t.top)).next t nodes is'
            (ap (λ p. (t.heap p).next) (sym at)) in
        record {
          nodes = nodes;
          is = is'';
          stamps = raised ∙ omega (arith, stamps);
          above = λ e. absurd (omega (arith, e));
        }
Others-Left s _ xs _ is (other_write k t a node others out) =
    let left = Others-Left s t xs k is others in
    record {
      nodes = left.nodes;
      is = record {
        linked =
            Linked-store a node t.heap (ptr_of t.top) left.nodes (out left.nodes left.is)
              left.is.linked;
        distinct = left.is.distinct;
        word = left.is.word;
      };
      stamps = left.stamps;
      above = left.above;
    }
Others-Left s _ xs _ is (other_count k t count others) =
    let left = Others-Left s t xs k is others in
    record {
      nodes = left.nodes;
      is = record { linked = left.is.linked; distinct = left.is.distinct; word = left.is.word };
      stamps = left.stamps;
      above = left.above;
    }

no_pops :
    (stamp stamp' k k' : ℕ)
    → stamp < 2 ^ 16
    → stamp' ≡ (stamp + k) % 2 ^ 16
    → stamp ≡ (stamp' + k') % 2 ^ 16
    → k + k' < 2 ^ 16
    → (k ≡ 0) × (k' ≡ 0)
no_pops stamp stamp' k k' low e e' few =
    (omega (arith, low, e, e', few), omega (arith, low, e, e', few))

-- If the top is the same node as before, nothing is above it.
nothing_above :
    (heap : ℕ → Node) (p a : ℕ) (ys xs : List ℕ)
    → p ≡ a
    → Linked heap p (ys ++ (a ∷ xs))
    → Distinct (ys ++ (a ∷ xs))
    → ys ≡ []
nothing_above heap p a [] xs e l d = refl
nothing_above heap p a (y ∷ ys) xs e l d =
    absurd (not-NotIn a ys xs (subst (λ z. NotIn z (ys ++ (a ∷ xs))) (sym l.0 ∙ e) d.0))

-- A round of pop reads the top in `s0`, the next of its node in `s1`, also if the node has been given back
-- by then, and exchanges in `s2`; other threads pop fewer than 2 ^ 16 times in between. If `s2` has the
-- top that was read, the exchange takes place, and takes the first node off the stack that is there.
pub pop_try_lem :
    (s0 s1 s2 : Stack) (xs : List ℕ) (k k' : ℕ)
    → IsStack s0 xs
    → ptr_of s0.top ≢ 0
    → Others s0 k s1
    → Others s1 k' s2
    → k + k' < 2 ^ 16
    → s2.top ≡ s0.top
    → let r = pop_try s0.top (s1.heap (ptr_of s0.top)).next s2 in
      (r.0 ≡ true) × (ys : List ℕ) × IsStack s2 (ptr_of s0.top ∷ ys) × IsStack r.1 ys
pop_try_lem s0 s1 s2 [] k k' is some_node others others' few same = absurd (some_node is.linked)
pop_try_lem s0 s1 s2 (a ∷ xs) k k' is some_node others others' few same =
    let at : ptr_of s0.top ≡ a = is.linked.0 in
    let left = Others-Left s0 s1 (a ∷ xs) k is others in
    let left' = Others-Left s1 s2 left.nodes k' left.is others' in
    let low : stamp_of s0.top < 2 ^ 16 = omega (arith, is.word) in
    let (none_popped, none_popped') =
      no_pops (stamp_of s0.top) (stamp_of s1.top) k k' low left.stamps
        (ap stamp_of (sym same) ∙ left'.stamps) few in
    let (ys, e) = left.above none_popped in
    let (ys', e') = left'.above none_popped' in
    let next : (s1.heap a).next ≡ first_of xs = first_of-Linked s1.heap (s1.heap a).next xs (
      Linked-next s1.heap (ptr_of s1.top) a ys xs
        (subst (Linked s1.heap (ptr_of s1.top)) e left.is.linked)) in
    let all : left'.nodes ≡ (ys' ++ ys) ++ (a ∷ xs) =
      e' ∙ (ap (◌++◌ ys') e ∙ sym (append_assoc ys' ys (a ∷ xs))) in
    let is2 : IsStack s2 ((ys' ++ ys) ++ (a ∷ xs)) = subst (IsStack s2) all left'.is in
    let none_above : ys' ++ ys ≡ [] =
      nothing_above s2.heap (ptr_of s2.top) a (ys' ++ ys) xs (ap ptr_of same ∙ at) is2.linked
        is2.distinct in
    let is3 : IsStack s2 (a ∷ xs) = subst (λ zs. IsStack s2 (zs ++ (a ∷ xs))) none_above is2 in
    let read : (s2.heap a).next ≡ (s1.heap (ptr_of s0.top)).next =
      first_of-Linked s2.heap (s2.heap a).next xs is3.linked.3
      ∙ (sym next ∙ ap (λ p. (s1.heap p).next) (sym at)) in
    let done = pop_try-IsStack a (s1.heap (ptr_of s0.top)).next s2 xs is3 read in
    let moved =
      subst
        (λ w.
          ((pop_try w (s1.heap (ptr_of s0.top)).next s2).0 ≡ true)
          × IsStack (pop_try w (s1.heap (ptr_of s0.top)).next s2).1 xs)
        same (done.0, done.1) in
    (moved.0, xs, subst (λ p. IsStack s2 (p ∷ xs)) (sym at) is3, moved.1)
