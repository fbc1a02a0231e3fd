-- ===== src/RefPtr/Program.antt =====
-- A program that uses the RefPtr of include/dbus-c++/util.h: its live pointers, in any order, and
-- what it may do with them.
use dbus_cplusplus.Common.{ℕ, suc, ◌≡◌, ◌⊎◌, List, [], ◌∷◌, ◌++◌, none, some, ◌==◌, if◌then◌else◌}
use dbus_cplusplus.RefPtr.{Store, RefPtr, new_ref_ptr, copy, destroy, assign}

-- `made` are the objects that the program has given to a RefPtr.
pub record Program : Type 0 where
  pub store : Store
  pub pointers : List RefPtr
  pub made : List ℕ

unfoldable pub times : ℕ → List ℕ → ℕ
times n [] = 0
times n (m ∷ ms) = let rest = times n ms in if m == n then suc rest else rest

-- No pointer, no counter and no object yet.
abbrev pub start : Program
start = record {
  store = record { counters = λ c. none; next = 0; deleted = [] };
  pointers = [];
  made = [];
}

-- An assignment of a pointer to itself does nothing, and is no step.
pub data Step (s s' : Program) : Type 0 where
  -- A RefPtr from the result of a new, or from the null pointer.
  makes :
      (object : ℕ)
      → (object ≡ 0) ⊎ (times object s.made ≡ 0)
      → s' ≡ record {
        store = (new_ref_ptr object s.store).0;
        pointers = (new_ref_ptr object s.store).1 ∷ s.pointers;
        made = object ∷ s.made;
      }
      → Step s s'
  copies :
      (p : RefPtr) (xs ys : List RefPtr) (store : Store)
      → s.pointers ≡ xs ++ p ∷ ys
      → copy p s.store ≡ some store
      → s' ≡ record s { store = store; pointers = p ∷ s.pointers }
      → Step s s'
  destroys :
      (p : RefPtr) (xs ys : List RefPtr) (store : Store)
      → s.pointers ≡ xs ++ p ∷ ys
      → destroy p s.store ≡ some store
      → s' ≡ record s { store = store; pointers = xs ++ ys }
      → Step s s'
  assigns :
      (p q : RefPtr) (xs ys us vs : List RefPtr) (store : Store)
      → s.pointers ≡ xs ++ p ∷ ys
      → xs ++ ys ≡ us ++ q ∷ vs
      → assign p q s.store ≡ some store
      → s' ≡ record s { store = store; pointers = xs ++ q ∷ ys }
      → Step s s'

pub data Reach : Program → Type 0 where
  here : Reach start
  then_step : {s s' : Program} → Reach s → Step s s' → Reach s'
