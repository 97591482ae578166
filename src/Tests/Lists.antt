-- ===== src/Tests/Lists.antt =====
-- The list operations on the lists of the small kernel.
use disastr_os_message_queue.Base.{◌≡◌, refl, [], ◌∷◌, arith, ◌==◌, update, ok}
use disastr_os_message_queue.LinkedList.{ListMemory, list_insert, list_detach, list_find, walk}
use disastr_os_message_queue.LinkedList.Walk.{find_first, walk-find_first, list_find-has}
use disastr_os_message_queue.LinkedList.Memory.{
  Represents, list_insert-Represents, list_detach-Represents,
}
use disastr_os_message_queue.Tests.Machine.{
  small_lists, contents, small_lists-IsList, small_lists-Represents,
}

-- The item 61 goes between the items 13 and 29 of the list 81.
list_insert-Represents_example :
    (m' : ListMemory) × (list_insert (small_lists 232) 81 13 61 ≡ ok (61, m'))
    × Represents m' (update (contents 232) 81 (13 ∷ 61 ∷ 29 ∷ 45 ∷ []))
list_insert-Represents_example =
    list_insert-Represents 81 61 (13 ∷ []) (29 ∷ 45 ∷ []) (small_lists-Represents 232 (omega arith))
      refl (omega arith) (λ h. ground arith)

-- The item 29 leaves it.
list_detach-Represents_example :
    (m' : ListMemory) × (list_detach (small_lists 232) 81 29 ≡ ok (29, m'))
    × Represents m' (update (contents 232) 81 (13 ∷ 45 ∷ []))
list_detach-Represents_example =
    list_detach-Represents 81 29 (13 ∷ []) (45 ∷ []) (small_lists-Represents 232 (omega arith)) refl

walk-find_first_example : walk 4 (small_lists 232) (λ a. ok (a == 45)) 13 ≡ ok 45
unfolding find_first
walk-find_first_example =
    walk-find_first (small_lists 232) (λ a. ok (a == 45)) (λ a. a == 45) 81 (13 ∷ 29 ∷ 45 ∷ []) 4
      (small_lists-IsList 232 81 (omega arith)) (λ a i. refl) (omega arith)

list_find-has_example : list_find 4 (small_lists 232) 81 29 ≡ ok 29
list_find-has_example =
    list_find-has (small_lists 232) 81 29 (13 ∷ 29 ∷ 45 ∷ []) 4
      (small_lists-IsList 232 81 (omega arith)) (omega arith)
