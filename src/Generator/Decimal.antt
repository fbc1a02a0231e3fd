-- ===== src/Generator/Decimal.antt =====
-- Numbers in decimal, and the names that the generators number with them.
use dbus_cplusplus.Common.{
  ℕ, zero, suc, ◌+◌, ◌-◌, ◌*◌, ◌/◌, ◌%◌, ◌<◌, ◌≡◌, refl, sym, ap, ◌∙◌, inl, inr, [], ◌∷◌, ◌++◌, ltb,
  drop, arith, Bool-cases, ltb→le,
}
use dbus_cplusplus.Xml.{Bytes}
use dbus_cplusplus.Generator.Text.{digits, decimal}

-- The number that some digits stand for, behind others that stand for `n`.
unfoldable pub value_from : ℕ → Bytes → ℕ
value_from n [] = n
value_from n (c ∷ cs) = value_from (n * 10 + (c - b'0')) cs

value_from-append :
    (n c : ℕ) (cs : Bytes) → value_from n (cs ++ c ∷ []) ≡ value_from n cs * 10 + (c - b'0')
unfolding value_from
value_from-append n c [] = refl
value_from-append n c (d ∷ cs) = value_from-append (n * 10 + (d - b'0')) c cs

value-digits : (fuel n : ℕ) → n < fuel → value_from 0 (digits fuel n) ≡ n
unfolding digits value_from
value-digits zero n h = absurd (omega (arith, h))
value-digits (suc fuel) n h = elim (Bool-cases (ltb n 10)) [
  | inl e ↦ rw (digits, e) (omega arith)
  | inr e ↦
      let large = ltb→le n 10 e in
      let above = value-digits fuel (n / 10) (omega (arith, large, h)) in
      rw (digits, e, value_from-append 0 (b'0' + n % 10) (digits fuel (n / 10)), above)
        (omega arith)
]

-- A number that is written in decimal is read back.
pub value-decimal : (n : ℕ) → value_from 0 (decimal n) ≡ n
unfolding decimal
value-decimal n = value-digits (suc n) n (omega arith)

append_cancel : (t u v : Bytes) → t ++ u ≡ t ++ v → u ≡ v
append_cancel [] u v h = h
append_cancel (c ∷ t) u v h = append_cancel t u v (ap (drop 1) h)

pub numbered_differ : (prefix : Bytes) (m n : ℕ) → prefix ++ decimal m ≡ prefix ++ decimal n → m ≡ n
numbered_differ prefix m n h =
    sym (value-decimal m)
    ∙ (ap (value_from 0) (append_cancel prefix (decimal m) (decimal n) h) ∙ value-decimal n)
