-- ===== src/RefPtr/Examples.antt =====
-- A run with the RefPtr of include/dbus-c++/util.h: an object with two owners, and a null pointer.
use dbus_cplusplus.Common.{ℕ, ◌≡◌, ◌≢◌, refl, List, [], ◌∷◌, Option, none, some, inl, inr}
use dbus_cplusplus.RefPtr.{
  Store, RefPtr, new_ref_ptr, new_counter, unref, unref_from, one, get, let_go, destroy, assign,
}
use dbus_cplusplus.RefPtr.Program.{Program, Reach, start, times, makes, here, then_step}
use dbus_cplusplus.RefPtr.Counts.{uses, owners}
use dbus_cplusplus.RefPtr.Invariant.{Ends}
use dbus_cplusplus.RefPtr.Release.{release}
use dbus_cplusplus.RefPtr.Refinement.{
  IsAccounted, Reach-IsAccounted, Reach-destroy, Reach-assign, Reach-get,
}

abbrev sole : RefPtr
sole = record { ptr = 7; cnt = 0 }

abbrev null : RefPtr
null = record { ptr = 0; cnt = 1 }

abbrev made_one : Program
made_one = record {
  store = (new_ref_ptr 7 start.store).0;
  pointers = (new_ref_ptr 7 start.store).1 ∷ [];
  made = 7 ∷ [];
}

abbrev made_two : Program
made_two = record {
  store = (new_ref_ptr 0 made_one.store).0;
  pointers = (new_ref_ptr 0 made_one.store).1 ∷ made_one.pointers;
  made = 0 ∷ 7 ∷ [];
}

made_two-Reach : Reach made_two
unfolding times new_ref_ptr new_counter
made_two-Reach = then_step (then_step here (makes 7 (inr refl) refl)) (makes 0 (inl refl) refl)

Reach-IsAccounted_example : IsAccounted made_two
Reach-IsAccounted_example = Reach-IsAccounted made_two made_two-Reach

Reach-destroy_example :
    Ends (destroy sole made_two.store) (λ c. uses c (null ∷ [])) (7 ∷ []) made_two.store.next
unfolding new_ref_ptr new_counter release owners
Reach-destroy_example = Reach-destroy made_two sole (null ∷ []) [] made_two-Reach refl

Reach-assign_example :
    Ends
      (assign sole null made_two.store)
      (λ c. uses c (null ∷ null ∷ []))
      (7 ∷ [])
      made_two.store.next
unfolding new_ref_ptr new_counter release owners
Reach-assign_example = Reach-assign made_two sole null (null ∷ []) [] [] [] made_two-Reach refl refl

Reach-get_example :
    (get sole made_two.store ≡ some 7) × (sole.ptr ≢ 0 → times 7 made_two.store.deleted ≡ 0)
unfolding new_ref_ptr new_counter
Reach-get_example = Reach-get made_two sole (null ∷ []) [] made_two-Reach refl

-- Once the last pointer to a counter has gone the counter is freed, and a second destructor would
-- meet freed memory.
destroyed_twice :
    elim (destroy sole made_two.store) as (λ x. Option Store) [
      | none ↦ none
      | some s ↦ destroy sole s
    ]
    ≡ none
unfolding destroy let_go unref unref_from one new_ref_ptr new_counter
destroyed_twice = refl

-- Two pointers that are made from one object delete it twice: here each has a counter of its own.
given_twice :
    (let (first, p) = new_ref_ptr 7 start.store in
      let (second, q) = new_ref_ptr 7 first in
      elim (destroy p second) as (λ x. Option (List ℕ)) [
        | none ↦ none
        | some s ↦ elim (destroy q s) as (λ x. Option (List ℕ)) [
          | none ↦ none
          | some t ↦ some t.deleted
        ]
      ])
    ≡ some (7 ∷ 7 ∷ [])
unfolding destroy let_go unref unref_from one new_ref_ptr new_counter
given_twice = refl
