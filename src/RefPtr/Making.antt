-- ===== src/RefPtr/Making.antt =====
-- A new RefPtr takes the next counter (include/dbus-c++/util.h).
use dbus_cplusplus.Common.{
  ℕ, ◌≡◌, ◌≢◌, ◌⊎◌, refl, sym, ap, ◌∙◌, true, List, [], ◌∷◌, ◌==◌, ==_iff, if◌then◌else◌, arith,
  Bool-cases, inl, inr,
}
use dbus_cplusplus.RefPtr.{RefPtr, new_counter, new_ref_ptr}
use dbus_cplusplus.RefPtr.Program.{Program, times}
use dbus_cplusplus.RefPtr.Counts.{uses, owners, Given}
use dbus_cplusplus.RefPtr.Invariant.{shown}
use dbus_cplusplus.RefPtr.Release.{Apart}
use dbus_cplusplus.RefPtr.Sound.{owned, IsSound}

-- The obj of a program in which the next counter is given an object.
abbrev given_next : ℕ → ℕ → (ℕ → ℕ) → ℕ → ℕ
given_next c object obj d = if d == c then object else obj d

Given-next :
    (c object : ℕ) (obj : ℕ → ℕ) (ps : List RefPtr)
    → uses c ps ≡ 0
    → Given obj ps
    → Given (given_next c object obj) ps
unfolding Given uses
Given-next c object obj [] h g = tt
Given-next c object obj (p ∷ ps) h (g, gs) =
    (ground (arith, g), Given-next c object obj ps (ground (arith)) gs)

not_fresh :
    (s : Program) (object : ℕ)
    → (object ≡ 0) ⊎ (times object s.made ≡ 0)
    → (h : IsSound s) (c : ℕ) → object ≢ 0
    → object ≢ h.obj c
not_fresh s object fresh h c nz e = elim fresh [
  | inl null ↦ nz null
  | inr none_made ↦ h.known c (λ z. nz (e ∙ z)) (ap (λ o. times o s.made) (sym e) ∙ none_made)
]

next-Apart :
    (s : Program) (object : ℕ)
    → (object ≡ 0) ⊎ (times object s.made ≡ 0)
    → (h : IsSound s) → Apart (given_next s.store.next object h.obj)
next-Apart s object fresh h a b nz e =
    let n = s.store.next in
    elim (Bool-cases (a == n)) [
      | inl l ↦ elim (Bool-cases (b == n)) [
        | inl r ↦ ground (arith)
        | inr r ↦ absurd (not_fresh s object fresh h b (ground (arith, nz)) (ground (arith, e)))
      ]
      | inr l ↦ elim (Bool-cases (b == n)) [
        | inl r ↦ absurd (not_fresh s object fresh h a (ground (arith, nz, e)) (ground (arith, e)))
        | inr r ↦ ground (arith, h.apart a b)
      ]
    ]

next_counted :
    (s : Program) (object c : ℕ)
    → (h : IsSound s)
    → (new_ref_ptr object s.store).0.counters c
      ≡ shown (uses c ((new_ref_ptr object s.store).1 ∷ s.pointers))
unfolding new_ref_ptr new_counter uses shown
next_counted s object c h =
    let n = s.store.next in
    let free = h.unused n (omega arith) in
    elim (Bool-cases (c == n)) [
      | inl hit ↦
          let none_yet : uses c s.pointers ≡ 0 =
            ap (λ k. uses k s.pointers) ((==_iff c n).0 hit) ∙ free in
          let same : (n == c) ≡ true = (==_iff n c).1 (sym ((==_iff c n).0 hit)) in
          rw (hit, same, none_yet) refl
      | inr miss ↦ ground (arith, h.counted c, miss)
    ]

next_known :
    (s : Program) (object : ℕ) (h : IsSound s) (c : ℕ)
    → given_next s.store.next object h.obj c ≢ 0
    → times (given_next s.store.next object h.obj c) (object ∷ s.made) ≢ 0
unfolding times
next_known s object h c nz = ground (arith, h.known c)

pub makes-IsSound :
    (s : Program) (object : ℕ)
    → (object ≡ 0) ⊎ (times object s.made ≡ 0)
    → IsSound s
    → IsSound (record {
      store = (new_ref_ptr object s.store).0;
      pointers = (new_ref_ptr object s.store).1 ∷ s.pointers;
      made = object ∷ s.made;
    })
unfolding Given uses times owned owners shown new_ref_ptr new_counter
makes-IsSound s object fresh h =
    let n = s.store.next in
    let free = h.unused n (omega arith) in
    record {
      obj = given_next n object h.obj;
      apart = λ a b nz e. next-Apart s object fresh h a b nz e;
      given = (ground (arith, ==_iff n n), Given-next n object h.obj s.pointers free h.given);
      counted = λ c. next_counted s object c h;
      unused = λ c le. ground (arith, h.unused c);
      known = λ c nz. next_known s object h c nz;
      once = λ o nz. ground (arith, h.once o nz, fresh);
      deletions = λ o nz. ground (arith, h.deletions o nz);
    }
