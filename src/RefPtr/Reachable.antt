-- ===== src/RefPtr/Reachable.antt =====
-- Every run of a program that uses RefPtr (include/dbus-c++/util.h) keeps its pointers sound.
use dbus_cplusplus.Common.{
  ℕ, ◌+◌, ◌≤◌, ◌≡◌, sym, ap, subst, ◌∙◌, List, [], ◌∷◌, ◌++◌, Option, none, some, arith,
}
use dbus_cplusplus.RefPtr.{Store, RefPtr, copy, destroy, assign}
use dbus_cplusplus.RefPtr.Program.{
  Program, times, Step, makes, copies, destroys, assigns, Reach, here, then_step,
}
use dbus_cplusplus.RefPtr.Counts.{uses, Given, uses-middle, Given-middle, Given-insert}
use dbus_cplusplus.RefPtr.Invariant.{shown, Counted, more, Ends, recount, ref-Ends}
use dbus_cplusplus.RefPtr.Release.{release, destroy-Ends, assign-Ends}
use dbus_cplusplus.RefPtr.Sound.{
  owned, Deletions, IsSound, start-IsSound, release-Deletions, owned_again,
}
use dbus_cplusplus.RefPtr.Making.{makes-IsSound}

-- The run that was taken is the one that ends.
pub run-Ends :
    {o : Option Store} {u : ℕ → ℕ} {deleted : List ℕ} {next : ℕ} {store : Store}
    → o ≡ some store
    → Ends o u deleted next
    → Counted store u × (store.deleted ≡ deleted) × (store.next ≡ next)
run-Ends {u = u} {deleted} {next} {store} run r =
    let same : r.store ≡ store =
      ap (λ x. elim x [ none ↦ r.store | some t ↦ t ]) (sym r.ends ∙ run) in
    subst (λ t. Counted t u × (t.deleted ≡ deleted) × (t.next ≡ next)) same
      (r.counted, r.same_deleted, r.same_next)

uses_middle_more :
    (c : ℕ) (p : RefPtr) (xs ys : List RefPtr)
    → uses c (xs ++ p ∷ ys) ≡ more p.cnt (λ d. uses d (xs ++ ys)) c
unfolding uses
uses_middle_more c p xs ys = let m = uses-middle c xs p ys in ground (arith, m)

unused_again :
    (c : ℕ) (q : RefPtr) (zs us vs : List RefPtr)
    → zs ≡ us ++ q ∷ vs
    → uses c zs ≡ 0
    → uses c (q ∷ zs) ≡ 0
unfolding uses
unused_again c q zs us vs e free =
    let m = uses_middle_more c q us vs in
    let there = ap (uses c) e in ground (arith, m, there, free)

module _ (s : Program) (h : IsSound s) (p : RefPtr) (xs ys : List RefPtr)
    (at : s.pointers ≡ xs ++ p ∷ ys) where
  pub Counted-middle : Counted s.store (more p.cnt (λ c. uses c (xs ++ ys)))
  Counted-middle c = h.counted c ∙ ap shown (ap (uses c) at ∙ uses_middle_more c p xs ys)

  middle-Given : (p.ptr ≡ h.obj p.cnt) × Given h.obj (xs ++ ys)
  middle-Given = Given-middle h.obj xs p ys (subst (Given h.obj) at h.given)

  pub copy-Ends : Ends (copy p s.store) (λ c. uses c (p ∷ s.pointers)) s.store.deleted s.store.next
  unfolding copy uses
  copy-Ends =
      let m = uses_middle_more p.cnt p xs ys in
      let there = ap (uses p.cnt) at in
      recount (λ c. ground (arith))
        (ref-Ends p.cnt s.store (λ c. uses c s.pointers) h.counted
          (λ z. ground (arith, m, there, z)))

  pub destroy_sound :
      Ends
        (destroy p s.store)
        (λ c. uses c (xs ++ ys))
        (release p.ptr (xs ++ ys) s.store.deleted)
        s.store.next
  destroy_sound =
      destroy-Ends h.obj h.apart p (xs ++ ys) middle-Given.0 middle-Given.1 s.store Counted-middle

  pub assign_sound :
      (q : RefPtr) (us vs : List RefPtr)
      → xs ++ ys ≡ us ++ q ∷ vs
      → Ends
          (assign p q s.store)
          (λ c. uses c (xs ++ q ∷ ys))
          (release p.ptr (xs ++ ys) s.store.deleted)
          s.store.next
  assign_sound q us vs member =
      recount (λ c. sym (uses_middle_more c q xs ys))
        (assign-Ends h.obj h.apart p (xs ++ ys) middle-Given.0 middle-Given.1 s.store Counted-middle
          q
          (λ z.
            let m = uses_middle_more q.cnt q us vs in
            let there = ap (uses q.cnt) member in ground (arith, m, there, z)))

  unused_rest : (c : ℕ) → s.store.next ≤ c → uses c (xs ++ ys) ≡ 0
  unused_rest c le =
      let m = uses_middle_more c p xs ys in
      let there = ap (uses c) at in let free = h.unused c le in ground (arith, m, there, free)

  Deletions-rest : Deletions (release p.ptr (xs ++ ys) s.store.deleted) (xs ++ ys) s.made
  Deletions-rest =
      release-Deletions p xs ys s.store.deleted s.made
        (subst (λ ps. Deletions s.store.deleted ps s.made) at h.deletions)

copies-IsSound :
    (s : Program) (p : RefPtr) (xs ys : List RefPtr) (store : Store)
    → s.pointers ≡ xs ++ p ∷ ys
    → copy p s.store ≡ some store
    → IsSound s
    → IsSound (record s { store = store; pointers = p ∷ s.pointers })
unfolding Given
copies-IsSound s p xs ys store e run h =
    let (c, d, n) = run-Ends run (copy-Ends s h p xs ys e) in
    record {
      obj = h.obj;
      apart = h.apart;
      given = ((middle-Given s h p xs ys e).0, h.given);
      counted = c;
      unused = λ k le. unused_again k p s.pointers xs ys e (h.unused k (subst (λ m. m ≤ k) n le));
      known = h.known;
      once = h.once;
      deletions = λ o nz.
          ap (λ ds. times o ds + owned o (p ∷ s.pointers)) d
          ∙ (ap (λ k. times o s.store.deleted + k) (owned_again p [] s.pointers xs ys o e)
              ∙ h.deletions o nz);
    }

destroys-IsSound :
    (s : Program) (p : RefPtr) (xs ys : List RefPtr) (store : Store)
    → s.pointers ≡ xs ++ p ∷ ys
    → destroy p s.store ≡ some store
    → IsSound s
    → IsSound (record s { store = store; pointers = xs ++ ys })
destroys-IsSound s p xs ys store e run h =
    let (c, d, n) = run-Ends run (destroy_sound s h p xs ys e) in
    record {
      obj = h.obj;
      apart = h.apart;
      given = (middle-Given s h p xs ys e).1;
      counted = c;
      unused = λ k le. unused_rest s h p xs ys e k (subst (λ m. m ≤ k) n le);
      known = h.known;
      once = h.once;
      deletions =
          subst (λ ds. Deletions ds (xs ++ ys) s.made) (sym d) (Deletions-rest s h p xs ys e);
    }

assigns-IsSound :
    (s : Program) (p q : RefPtr) (xs ys us vs : List RefPtr) (store : Store)
    → s.pointers ≡ xs ++ p ∷ ys
    → xs ++ ys ≡ us ++ q ∷ vs
    → assign p q s.store ≡ some store
    → IsSound s
    → IsSound (record s { store = store; pointers = xs ++ q ∷ ys })
assigns-IsSound s p q xs ys us vs store e member run h =
    let (c, d, n) = run-Ends run (assign_sound s h p xs ys e q us vs member) in
    let (own, given) = middle-Given s h p xs ys e in
    record {
      obj = h.obj;
      apart = h.apart;
      given =
          Given-insert h.obj xs q ys
            (Given-middle h.obj us q vs (subst (Given h.obj) member given)).0 given;
      counted = c;
      unused = λ k le.
          uses-middle k xs q ys
          ∙ unused_again k q (xs ++ ys) us vs member
              (unused_rest s h p xs ys e k (subst (λ m. m ≤ k) n le));
      known = h.known;
      once = h.once;
      deletions = λ o nz.
          ap (λ k. times o store.deleted + k) (owned_again q xs ys us vs o member)
          ∙ (ap (λ ds. times o ds + owned o (xs ++ ys)) d ∙ Deletions-rest s h p xs ys e o nz);
    }

Step-IsSound : (s s' : Program) → IsSound s → Step s s' → IsSound s'
Step-IsSound s s' h (makes object fresh e) = subst IsSound (sym e) (makes-IsSound s object fresh h)
Step-IsSound s s' h (copies p xs ys store at run e) =
    subst IsSound (sym e) (copies-IsSound s p xs ys store at run h)
Step-IsSound s s' h (destroys p xs ys store at run e) =
    subst IsSound (sym e) (destroys-IsSound s p xs ys store at run h)
Step-IsSound s s' h (assigns p q xs ys us vs store at member run e) =
    subst IsSound (sym e) (assigns-IsSound s p q xs ys us vs store at member run h)

pub Reach-IsSound : {s : Program} → Reach s → IsSound s
Reach-IsSound here = start-IsSound
Reach-IsSound (then_step r t) = Step-IsSound _ _ (Reach-IsSound r) t
