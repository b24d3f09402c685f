-- ===== src/Tests/Rings.antt =====
-- The ring buffer, with four bytes that go round its end.
use new_name_auction.Prelude.{◌≡◌, refl, arith, [], ◌∷◌, some}
use new_name_auction.Ring.{Ring, enqueue, dequeue}
use new_name_auction.Ring.Contents.{IsRing, held}
use new_name_auction.Ring.Sizes.{}
use new_name_auction.Ring.Enqueue.{enqueue_lem}
use new_name_auction.Ring.Dequeue.{dequeue_lem}
use new_name_auction.Ring.Peek.{}

abbrev pub four : Ring
four = record { size = 8; cells = 0 ∷ 21 ∷ 22 ∷ 0 ∷ 0 ∷ 0 ∷ 11 ∷ 12 ∷ []; front = 5; rear = 2 }

pub four-IsRing : IsRing four
four-IsRing = record {
  sized = refl;
  small = omega arith;
  some_room = omega arith;
  front_in = omega arith;
  rear_in = omega arith;
  begun = omega arith;
}

enqueue_lem_example :
    IsRing (enqueue (1 ∷ 2 ∷ []) 2 four).1
    × ((enqueue (1 ∷ 2 ∷ []) 2 four).0 ≡ 2)
    × (held (enqueue (1 ∷ 2 ∷ []) 2 four).1 ≡ 11 ∷ 12 ∷ 21 ∷ 22 ∷ 1 ∷ 2 ∷ [])
enqueue_lem_example =
    enqueue_lem (1 ∷ 2 ∷ []) 2 four four-IsRing (omega arith) (omega arith) (omega arith)

dequeue_lem_example :
    IsRing (dequeue 3 four).2
    × ((dequeue 3 four).0 ≡ 3)
    × ((dequeue 3 four).1 ≡ some (11 ∷ 12 ∷ 21 ∷ []))
    × (held (dequeue 3 four).2 ≡ 22 ∷ [])
dequeue_lem_example = dequeue_lem 3 four four-IsRing (omega arith) (omega arith)
