-- ===== src/Tests/Rename.antt =====
-- The free list of src/rename.cpp from reset.
use boom.Base.{◌≡◌, arith, [], ◌∷◌, ◌++◌, ◌+◌, ◌%◌, get_or, refl}
use boom.State.{RenameFreeListState, rename_free_list_state_init}
use boom.Rename.{allocate, next_free}
use boom.Rob.Retire.{release}
use boom.Rename.FreeList.{
  IsLagging, reset-IsLagging, free, but_last, allocate_refines, release_refines,
}

abbrev reset_list : RenameFreeListState
reset_list = rename_free_list_state_init

allocate_refines_example :
    (free reset_list ≡ next_free reset_list ∷ free (allocate reset_list))
    × IsLagging (allocate reset_list)
allocate_refines_example = allocate_refines reset-IsLagging (omega arith)

-- Register 7 is released at once: it takes the place of register 51, and register 0 is free.
release_refines_example :
    (free (release reset_list 7)
      ≡ but_last (free reset_list)
        ++ 7 ∷ get_or reset_list.free_list ((reset_list.head + reset_list.count) % 52) 0 ∷ [])
    × IsLagging (release reset_list 7)
release_refines_example = release_refines 7 reset-IsLagging (omega arith) (omega arith)

zero_is_free : get_or reset_list.free_list ((reset_list.head + reset_list.count) % 52) 0 ≡ 0
zero_is_free = refl
