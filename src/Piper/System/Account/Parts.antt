-- ===== src/Piper/System/Account/Parts.antt =====
-- Lemmas about the parts of the account: lists of tags, responses and continuations.
use dbus_cplusplus.Common.{
  ℕ, zero, suc, ◌≡◌, ◌≢◌, refl, ap, List, [], ◌∷◌, ◌++◌, some, length, arith, ◌==◌, Bool-cases, inl,
  inr,
}
use dbus_cplusplus.Common.Dict.{find, erase}
use dbus_cplusplus.Message.{CallMessage, Message, new_return}
use dbus_cplusplus.Object.{Continuation, Outgoing, reply, signal}
use dbus_cplusplus.Message.{reply_serial}
use dbus_cplusplus.Piper.System.{reply_serials}
use dbus_cplusplus.Piper.System.Account.{tags, marks, pair, Built}

pub tags-append_tag : (ts : List ℕ) (t : ℕ) → t ≢ 0 → tags (ts ++ t ∷ []) ≡ tags ts ++ t ∷ []
tags-append_tag [] zero h = absurd (h refl)
tags-append_tag [] (suc t) h = refl
tags-append_tag (zero ∷ ts) t h = tags-append_tag ts t h
tags-append_tag (suc s ∷ ts) t h = ap (◌∷◌ (suc s)) (tags-append_tag ts t h)

pub tags-append_mark : (ts : List ℕ) → tags (ts ++ 0 ∷ []) ≡ tags ts
tags-append_mark [] = refl
tags-append_mark (zero ∷ ts) = tags-append_mark ts
tags-append_mark (suc s ∷ ts) = ap (◌∷◌ (suc s)) (tags-append_mark ts)

pub marks-append_tag : (ts : List ℕ) (t : ℕ) → t ≢ 0 → marks (ts ++ t ∷ []) ≡ marks ts
marks-append_tag [] zero h = absurd (h refl)
marks-append_tag [] (suc t) h = refl
marks-append_tag (zero ∷ ts) t h = ap suc (marks-append_tag ts t h)
marks-append_tag (suc s ∷ ts) t h = marks-append_tag ts t h

pub marks-append_mark : (ts : List ℕ) → marks (ts ++ 0 ∷ []) ≡ suc (marks ts)
marks-append_mark [] = refl
marks-append_mark (zero ∷ ts) = ap suc (marks-append_mark ts)
marks-append_mark (suc s ∷ ts) = marks-append_mark ts

pub pair-append :
    (ts : List ℕ) (rs : List (CallMessage × Message)) (t : ℕ) (c : CallMessage) (m : Message)
    → length ts ≡ length rs
    → pair (ts ++ t ∷ []) (rs ++ (c, m) ∷ []) ≡ pair ts rs ++ (t, c) ∷ []
pair-append [] [] t c m h = refl
pair-append [] (r ∷ rs) t c m h = absurd (omega arith)
pair-append (s ∷ ts) [] t c m h = absurd (omega arith)
pair-append (s ∷ ts) ((d, n) ∷ rs) t c m h = ap (◌∷◌ (s, d)) (pair-append ts rs t c m (omega arith))

pub Built-append :
    (cs : List (ℕ × Continuation)) (t : ℕ) (c : Continuation)
    → Built cs
    → c.return_ ≡ new_return c.call
    → Built (cs ++ (t, c) ∷ [])
Built-append [] t c b e = (e, tt)
Built-append (d ∷ cs) t c b e = (b.0, Built-append cs t c b.1 e)

pub Built-erase : (t : ℕ) (cs : List (ℕ × Continuation)) → Built cs → Built (erase t cs)
unfolding erase
Built-erase t [] b = tt
Built-erase t ((s, d) ∷ cs) b = elim (Bool-cases (s == t)) [
  | inl hit ↦ rw hit b.1
  | inr miss ↦ rw miss (b.0, Built-erase t cs b.1)
]

pub Built-find :
    (t : ℕ) (cs : List (ℕ × Continuation)) (c : Continuation)
    → Built cs
    → find t cs ≡ some c
    → c.return_ ≡ new_return c.call
unfolding find
Built-find t [] c b e = cc
Built-find t ((s, d) ∷ cs) c b e = elim (Bool-cases (s == t)) [
  | inl hit ↦ let same : d ≡ c = ground (arith, hit) in rw same at b.0
  | inr miss ↦ Built-find t cs c b.1 (ground (arith, miss))
]

pub reply_serials-append :
    (xs ys : List Outgoing) → reply_serials (xs ++ ys) ≡ reply_serials xs ++ reply_serials ys
reply_serials-append [] ys = refl
reply_serials-append (reply m ∷ xs) ys = ap (◌∷◌ (reply_serial m)) (reply_serials-append xs ys)
reply_serials-append (signal m ∷ xs) ys = reply_serials-append xs ys
