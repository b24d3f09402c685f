-- ===== src/LockFreeStack/PushPop.antt =====
-- push and pop of LockFreeStack.h with nobody between.
use new_name_auction.Prelude.{
  ℕ, ◌-◌, ◌^◌, ◌<◌, ◌≡◌, ◌≢◌, refl, sym, ap, subst, ◌∙◌, true, false, List, ◌∷◌, some, arith, ◌==◌,
  add32, sub32, sle32,
}
use new_name_auction.LockFreeStack.{
  Stack, ptr_of, store, push_link, push_try, pop_try, push, pop, compare_exchange,
}
use new_name_auction.LockFreeStack.Chain.{NotIn, IsStack, Linked-store}
use new_name_auction.LockFreeStack.Pop.{push_try-IsStack, pop_try-IsStack}

IsStack-count :
    (s : Stack) (xs : List ℕ) (count : ℕ)
    → IsStack s xs
    → IsStack (record s { node_count = count }) xs
IsStack-count s xs count is = record { linked = is.linked; distinct = is.distinct; word = is.word }

-- The node after both writes of push.
abbrev filled : ℕ → ℕ → Stack → Stack
filled a value s =
    push_link a s.top (record s { heap = store a (record (s.heap a) { data_of = value }) s.heap })

filled_node :
    (a value : ℕ) (s : Stack)
    → (filled a value s).heap a ≡ record { next = ptr_of s.top; data_of = value }
unfolding push_link
filled_node a value s = let same : (a == a) ≡ true = ground arith in rw same refl

filled-IsStack :
    (a value : ℕ) (s : Stack) (xs : List ℕ)
    → IsStack s xs
    → NotIn a xs
    → IsStack (filled a value s) xs
unfolding push_link
filled-IsStack a value s xs is out = record {
  linked =
      Linked-store a _ _ (ptr_of s.top) xs out
        (Linked-store a _ s.heap (ptr_of s.top) xs out is.linked);
  distinct = is.distinct;
  word = is.word;
}

module _ (a value : ℕ) (s : Stack) (xs : List ℕ) (is : IsStack s xs) (some_node : a ≢ 0)
    (low : a < 2 ^ 48) (out : NotIn a xs) where
  pub push-IsStack : IsStack (push a value s) (a ∷ xs)
  unfolding push push_link
  push-IsStack =
      IsStack-count (push_try a s.top (filled a value s)).1 (a ∷ xs) _
        (push_try-IsStack a (filled a value s) xs (filled-IsStack a value s xs is out) some_node low
          out (ap (λ n. n.next) (filled_node a value s))).0

  push_count : (push a value s).node_count ≡ add32 s.node_count 1
  unfolding push push_link push_try compare_exchange
  push_count = let same : (s.top == s.top) ≡ true = ground arith in rw same refl

  push_heap : (push a value s).heap ≡ (filled a value s).heap
  unfolding push push_link push_try compare_exchange
  push_heap = let same : (s.top == s.top) ≡ true = ground arith in rw (push, same) refl

  push_data : ((push a value s).heap a).data_of ≡ value
  push_data = ap (λ heap. (heap a).data_of) push_heap ∙ ap (λ n. n.data_of) (filled_node a value s)

pop-run :
    (s : Stack)
    → sle32 s.node_count 0 ≡ false
    → (ptr_of s.top == 0) ≡ false
    → pop s ≡ (
      some (s.heap (ptr_of s.top)).data_of,
      (pop_try s.top
          (s.heap (ptr_of s.top)).next
          (record s { node_count = sub32 s.node_count 1 })).1,
    )
unfolding pop
pop-run s counted some_node = rw (counted, some_node) refl

pub pop-IsStack :
    (a : ℕ) (s : Stack) (xs : List ℕ)
    → IsStack s (a ∷ xs)
    → sle32 s.node_count 0 ≡ false
    → (s' : Stack) × (pop s ≡ (some (s.heap a).data_of, s')) × IsStack s' xs
pop-IsStack a s xs is counted =
    let at : ptr_of s.top ≡ a = is.linked.0 in
    let some_node : (ptr_of s.top == 0) ≡ false = ground (arith, at, is.linked.1) in
    let taken = record s { node_count = sub32 s.node_count 1 } in
    let (_, is', _) =
      pop_try-IsStack a (s.heap (ptr_of s.top)).next taken xs
        (IsStack-count s (a ∷ xs) (sub32 s.node_count 1) is) (ap (λ p. (s.heap p).next) (sym at)) in
    (
      _,
      subst
          (λ p.
            pop s ≡ (some (s.heap p).data_of, (pop_try s.top (s.heap (ptr_of s.top)).next taken).1))
          at (pop-run s counted some_node),
      is',
    )

-- A push on a node that is not in the stack, with a counter that does not overflow, and a pop after it:
-- the pop returns the value that was pushed, and the nodes are those from before.
pub pop-push :
    (a value : ℕ) (s : Stack) (xs : List ℕ)
    → IsStack s xs
    → a ≢ 0
    → a < 2 ^ 48
    → NotIn a xs
    → s.node_count < 2 ^ 31 - 1
    → (s' : Stack) × (pop (push a value s) ≡ (some value, s')) × IsStack s' xs
pop-push a value s xs is some_node low out small =
    let count = push_count a value s xs is some_node low out in
    let counted : sle32 (push a value s).node_count 0 ≡ false = ground (arith, count) in
    let (s', run, is') =
      pop-IsStack a (push a value s) xs (push-IsStack a value s xs is some_node low out) counted in
    (s', run ∙ ap (λ v. (some v, s')) (push_data a value s xs is some_node low out), is')
