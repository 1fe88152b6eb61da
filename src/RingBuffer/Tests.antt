-- ===== src/RingBuffer/Tests.antt =====
-- Runs of the ring buffer, and the theorems at concrete buffers.
use nexus_smarttrading.Prelude.{ℕ, ◌≡◌, refl, some, [], ◌∷◌, arith, ok}
use nexus_smarttrading.Prelude.Int.{negsuc}
use nexus_smarttrading.RingBuffer.{RingBuffer, append, iterate, iter, to_list, get_item, at, newest}
use nexus_smarttrading.RingBuffer.Queue.{
  IsValid, push_bounded, element, append-push_bounded, to_list-iter, get_item-element,
}

program : Unit {0}
unfolding append iterate iter to_list at get_item newest
program = tt

-- 2, 3 and 4 after 1, 2, 3, 4 were appended to a buffer of three slots.
abbrev wrapped : RingBuffer ℕ
wrapped = record { capacity = 3; buffer = some 4 ∷ some 2 ∷ some 3 ∷ []; start = 1; size = 3 }

appended : to_list (append (some 5) wrapped) ≡ some 3 ∷ some 4 ∷ some 5 ∷ []
unfolding program
appended = refl

last : get_item wrapped (negsuc 0) ≡ ok (some 4)
unfolding program
last = refl

wrapped-IsValid : IsValid wrapped
wrapped-IsValid = omega arith

append-push_bounded_example :
    (iter (append (some 5) wrapped) ≡ push_bounded 3 (some 5) (iter wrapped))
    × IsValid (append (some 5) wrapped)
append-push_bounded_example = append-push_bounded (some 5) wrapped wrapped-IsValid

to_list-iter_example : to_list wrapped ≡ iter wrapped
to_list-iter_example = to_list-iter wrapped wrapped-IsValid

get_item-element_example : get_item wrapped (negsuc 1) ≡ element (iter wrapped) (negsuc 1)
get_item-element_example = get_item-element wrapped (negsuc 1)
