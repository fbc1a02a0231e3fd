-- ===== src/RefPtr/Refinement.antt =====
-- What RefPtr (include/dbus-c++/util.h) promises: an object is deleted with its last owner, and not
-- before.
use dbus_cplusplus.Common.{
  ℕ, ◌+◌, ◌≤◌, ◌≡◌, ◌≢◌, refl, ap, List, ◌∷◌, ◌++◌, some, ◌==◌, ==_iff, false, arith,
}
use dbus_cplusplus.RefPtr.{RefPtr, destroy, assign, noref, get}
use dbus_cplusplus.RefPtr.Program.{Program, Reach, times}
use dbus_cplusplus.RefPtr.Counts.{uses, owners, owners-middle}
use dbus_cplusplus.RefPtr.Invariant.{shown, shown_used, more, Ends}
use dbus_cplusplus.RefPtr.Release.{release}
use dbus_cplusplus.RefPtr.Sound.{owned}
use dbus_cplusplus.RefPtr.Reachable.{Reach-IsSound, destroy_sound, assign_sound, Counted-middle}

-- Each counter counts the live pointers that use it, and is freed when there are none; each object
-- that was made is deleted once if no live pointer points to it, and otherwise not.
pub record IsAccounted (s : Program) : Type 0 where
  pub counts : (c : ℕ) → s.store.counters c ≡ shown (uses c s.pointers)
  pub objects : (o : ℕ) → o ≢ 0 → times o s.store.deleted + owned o s.pointers ≡ times o s.made
  pub once : (o : ℕ) → o ≢ 0 → times o s.made ≤ 1

-- In every reachable state each counter counts the live pointers that use it, and has been freed if
-- there are none; each object that was made has been deleted once if no live pointer points to
-- it, and otherwise not at all.
pub Reach-IsAccounted : (s : Program) → Reach s → IsAccounted s
Reach-IsAccounted s r =
    let h = Reach-IsSound r in record { counts = h.counted; objects = h.deletions; once = h.once }

-- In a reachable state the destructor of a live pointer meets no freed counter; it deletes the
-- object if and only if none of the other live pointers points to it, although it reads only
-- one counter, and every counter counts the pointers that are left.
pub Reach-destroy :
    (s : Program) (p : RefPtr) (xs ys : List RefPtr)
    → Reach s
    → s.pointers ≡ xs ++ p ∷ ys
    → Ends
        (destroy p s.store)
        (λ c. uses c (xs ++ ys))
        (release p.ptr (xs ++ ys) s.store.deleted)
        s.store.next
Reach-destroy s p xs ys r at = destroy_sound s (Reach-IsSound r) p xs ys at

-- In a reachable state the assignment of a live pointer from another meets no freed counter; it
-- deletes the object that was pointed to if and only if none of the other live pointers points
-- to it, and every counter counts the live pointers, the one assigned to with the other's counter.
pub Reach-assign :
    (s : Program) (p q : RefPtr) (xs ys us vs : List RefPtr)
    → Reach s
    → s.pointers ≡ xs ++ p ∷ ys
    → xs ++ ys ≡ us ++ q ∷ vs
    → Ends
        (assign p q s.store)
        (λ c. uses c (xs ++ q ∷ ys))
        (release p.ptr (xs ++ ys) s.store.deleted)
        s.store.next
Reach-assign s p q xs ys us vs r at member =
    assign_sound s (Reach-IsSound r) p xs ys at q us vs member

-- In a reachable state get gives the object of a live pointer, which has not been deleted.
pub Reach-get :
    (s : Program) (p : RefPtr) (xs ys : List RefPtr)
    → Reach s
    → s.pointers ≡ xs ++ p ∷ ys
    → (get p s.store ≡ some p.ptr) × (p.ptr ≢ 0 → times p.ptr s.store.deleted ≡ 0)
unfolding get noref owned owners
Reach-get s p xs ys r at =
    let h = Reach-IsSound r in
    let counted = Counted-middle s h p xs ys at p.cnt in
    let middle = owners-middle p.ptr xs p ys in
    let there = ap (owners p.ptr) at in
    let n : ℕ = more p.cnt (λ c. uses c (xs ++ ys)) p.cnt in
    let used : n ≢ 0 = ground (arith, ==_iff p.cnt p.cnt) in
    let some_left : (n == 0) ≡ false = ground (arith) in
    (
      rw (get, noref, counted, shown_used n used, some_left) refl,
      λ nz.
          let d = h.deletions p.ptr nz in
          let o = h.once p.ptr nz in ground (arith, d, o, middle, there),
    )
