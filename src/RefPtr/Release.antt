-- ===== src/RefPtr/Release.antt =====
-- The destructor and the assignments of RefPtr (include/dbus-c++/util.h) as what they do to the
-- users of counters and to objects, where every counter has an object of its own.
use dbus_cplusplus.Common.{
  ℕ, ◌≡◌, ◌≢◌, refl, ◌∙◌, Bool, true, false, List, ◌∷◌, Option, none, some, ◌==◌, ==_iff,
  if◌then◌else◌, arith, Bool-cases, inl, inr,
}
use dbus_cplusplus.RefPtr.{
  Store, RefPtr, ref, unref, delete, let_go, destroy, assign_counter, assign,
}
use dbus_cplusplus.RefPtr.Counts.{uses, owners, Given, owners-uses}
use dbus_cplusplus.RefPtr.Invariant.{Counted, more, Ends, recount, ref-Ends, unref-Ends, let_go_lem}

-- What happens to an object when one of its owners lets it go, and these pointers are left: it is
-- deleted when none of them points to it.
unfoldable pub release : ℕ → List RefPtr → List ℕ → List ℕ
unfolding owners
release object rest deleted =
    if object == 0 then deleted else if owners object rest == 0 then object ∷ deleted else deleted

-- Each counter is for one object, and no two are for the same.
abbrev pub Apart : (ℕ → ℕ) → Type 0
Apart obj = (a b : ℕ) → obj a ≢ 0 → obj a ≡ obj b → a ≡ b

bind-Ends :
    {o : Option Store} {u v : ℕ → ℕ} {deleted : List ℕ} {next : ℕ} (f : Store → Option Store)
    → (r : Ends o u deleted next) → Ends (f r.store) v r.store.deleted r.store.next
    → Ends (elim o [ none ↦ none | some s ↦ f s ]) v deleted next
bind-Ends f r t = record {
  store = t.store;
  ends = rw (r.ends) t.ends;
  counted = t.counted;
  same_deleted = t.same_deleted ∙ r.same_deleted;
  same_next = t.same_next ∙ r.same_next;
}

-- The branches of a deletion under a test.
gone-counters :
    (b : Bool) (o : ℕ) (s : Store) (c : ℕ) → (if b then delete o s else s).counters c ≡ s.counters c
gone-counters true o s c = elim (Bool-cases (o == 0)) [ inl h ↦ rw h refl | inr h ↦ rw h refl ]
gone-counters false o s c = refl

gone-next : (b : Bool) (o : ℕ) (s : Store) → (if b then delete o s else s).next ≡ s.next
gone-next true o s = elim (Bool-cases (o == 0)) [ inl h ↦ rw h refl | inr h ↦ rw h refl ]
gone-next false o s = refl

gone-deleted :
    (b : Bool) (o : ℕ) (s : Store)
    → (if b then delete o s else s).deleted
      ≡ (if o == 0 then s.deleted else if b then o ∷ s.deleted else s.deleted)
gone-deleted true o s = elim (Bool-cases (o == 0)) [ inl h ↦ rw h refl | inr h ↦ rw h refl ]
gone-deleted false o s = elim (Bool-cases (o == 0)) [ inl h ↦ rw h refl | inr h ↦ rw h refl ]

more_last : (c : ℕ) (u : ℕ → ℕ) → (more c u c == 1) ≡ (u c == 0)
more_last c u = ground (arith, ==_iff (more c u c) 1, ==_iff (u c) 0, ==_iff c c)

more_used : (c d : ℕ) (u : ℕ → ℕ) → u d ≢ 0 → more c u d ≢ 0
more_used c d u h = ground (arith)

more-more : (c d e : ℕ) (u : ℕ → ℕ) → more d (more c u) e ≡ more c (more d u) e
more-more c d e u = ground (arith)

module _ (obj : ℕ → ℕ) (apart : Apart obj) (p : RefPtr) (rest : List RefPtr)
    (own : p.ptr ≡ obj p.cnt) (given : Given obj rest) (s : Store)
    (counted : Counted s (more p.cnt (λ c. uses c rest))) where
  let_go-Ends :
      Ends (let_go p s) (more p.cnt (λ c. uses c rest)) (release p.ptr rest s.deleted) s.next
  unfolding release
  let_go-Ends =
      let used : more p.cnt (λ c. uses c rest) p.cnt ≢ 0 = ground (arith, ==_iff p.cnt p.cnt) in
      record {
        store = if uses p.cnt rest == 0 then delete p.ptr s else s;
        ends =
            let_go_lem p s (more p.cnt (λ c. uses c rest)) counted used
            ∙ rw (more_last p.cnt (λ c. uses c rest)) refl;
        counted = λ c. gone-counters (uses p.cnt rest == 0) p.ptr s c ∙ counted c;
        same_deleted =
            gone-deleted (uses p.cnt rest == 0) p.ptr s ∙ elim (Bool-cases (p.ptr == 0)) [
              | inl null ↦ rw (release, null) refl
              | inr object ↦
                  rw
                    (
                      release,
                      object,
                      owners-uses obj p rest apart (λ e. ground (arith, object)) own given,
                    )
                    refl
            ];
        same_next = gone-next (uses p.cnt rest == 0) p.ptr s;
      }

  pub destroy-Ends : Ends (destroy p s) (λ c. uses c rest) (release p.ptr rest s.deleted) s.next
  unfolding destroy
  destroy-Ends =
      bind-Ends (unref p.cnt) let_go-Ends
        (unref-Ends p.cnt let_go-Ends.store (λ c. uses c rest) let_go-Ends.counted)

  pub assign-Ends :
      (q : RefPtr)
      → uses q.cnt rest ≢ 0
      → Ends (assign p q s) (more q.cnt (λ c. uses c rest)) (release p.ptr rest s.deleted) s.next
  unfolding assign assign_counter
  assign-Ends q used =
      let u : ℕ → ℕ = λ c. uses c rest in
      let first = let_go-Ends in
      let taken : Ends (ref q.cnt first.store) (more p.cnt (more q.cnt u)) first.store.deleted
          first.store.next =
        recount (λ c. more-more p.cnt q.cnt c u)
          (ref-Ends q.cnt first.store (more p.cnt u) first.counted
            (more_used p.cnt q.cnt u used)) in
      bind-Ends (assign_counter p.cnt q.cnt) first
        (bind-Ends (unref p.cnt) taken (unref-Ends p.cnt taken.store (more q.cnt u) taken.counted))
