-- ===== src/Marshal/Copy.antt =====
-- MessageIter::copy_data (src/message.cpp): the copy is the original.
use dbus_cplusplus.Common.{
  ℕ, suc, ◌≡◌, refl, ◌==◌, ◌∙◌, true, false, List, [], ◌∷◌, ◌++◌, append-nil, append_assoc, some,
}
use dbus_cplusplus.Marshal.{
  Libdbus, Chars, type_array, type_variant, type_struct, type_dict_entry, is_basic_type,
  opened_with, copy_loop, copy_item, copy_data,
}

module _ (lib : Libdbus) where
  open lib use {
    Value, Item, basic, container, arg_type, basic_value, contents, inner_signature, arg_type-basic,
    arg_type-container, basic_value-basic, contents-container, contents-variant,
    inner_signature-array, inner_signature-variant,
  }

  -- The type of a container other than a variant, and the signature that it must be opened with.
  pub data Opens : ℕ → Chars → Type 0 where
    opens_array : (s : Chars) → Opens type_array s
    opens_struct : Opens type_struct []
    opens_dict_entry : Opens type_dict_entry []

  -- Items that were appended: values that libdbus accepts, variants of one item, with containers nested less deep than a bound.
  mutual
    pub data Built : ℕ → Item → Type 0 where
      built_basic :
          (n c : ℕ) (v : Value)
          → is_basic_type c ≡ true
          → lib.accepts c v ≡ true
          → Built (suc n) (basic c v)
      built_variant :
          (n : ℕ) (s : Chars) (x : Item)
          → Built n x
          → Built (suc n) (container type_variant s (x ∷ []))
      built_container :
          (n c : ℕ) (s : Chars) (xs : List Item)
          → Opens c s
          → AllBuilt n xs
          → Built (suc n) (container c s xs)

    pub data AllBuilt : ℕ → List Item → Type 0 where
      none_built : (n : ℕ) → AllBuilt n []
      next_built :
          (n : ℕ) (x : Item) (xs : List Item) → Built n x → AllBuilt n xs → AllBuilt n (x ∷ xs)

  no_variant : (c : ℕ) (s : Chars) → Opens c s → (c == type_variant) ≡ false
  no_variant _ _ (opens_array s) = refl
  no_variant _ _ opens_struct = refl
  no_variant _ _ opens_dict_entry = refl

  opened_with-variant :
      (s : Chars) (xs : List Item) → opened_with lib (container type_variant s xs) ≡ s
  opened_with-variant s xs =
      rw (arg_type-container type_variant s xs) (inner_signature-variant s xs)

  not_basic : (c : ℕ) (s : Chars) → Opens c s → is_basic_type c ≡ false
  unfolding is_basic_type
  not_basic _ _ (opens_array s) = refl
  not_basic _ _ opens_struct = refl
  not_basic _ _ opens_dict_entry = refl

  opened_with-container :
      (c : ℕ) (s : Chars) (xs : List Item) → Opens c s → opened_with lib (container c s xs) ≡ s
  opened_with-container _ _ xs (opens_array s) =
      rw (arg_type-container type_array s xs) (inner_signature-array s xs)
  opened_with-container _ _ xs opens_struct = rw (arg_type-container type_struct [] xs) refl
  opened_with-container _ _ xs opens_dict_entry = rw (arg_type-container type_dict_entry [] xs) refl

  mutual
    unfolding copy_item copy_loop is_basic_type

    copy_item-Built : (n : ℕ) (x : Item) → Built n x → copy_item lib n x ≡ some x
    copy_item-Built _ _ (built_basic n c v h k) =
        rw (arg_type-basic c v, h, basic_value-basic c v k) refl
    copy_item-Built _ _ (built_variant n s x inside) =
        rw
          (
            arg_type-container type_variant s (x ∷ []),
            contents-variant s x,
            copy_item-Built n x inside,
            opened_with-variant s (x ∷ []),
            arg_type-container type_variant s (x ∷ []),
          )
          refl
    copy_item-Built _ _ (built_container n c s xs opens inside) =
        rw
          (
            arg_type-container c s xs,
            not_basic c s opens,
            contents-container c s xs (no_variant c s opens),
            copy_loop-Built n xs [] inside,
            opened_with-container c s xs opens,
            arg_type-container c s xs,
          )
          refl

    copy_loop-Built :
        (n : ℕ) (xs to : List Item)
        → AllBuilt n xs
        → copy_loop lib (copy_item lib n) xs to ≡ some (to ++ xs)
    copy_loop-Built _ _ to (none_built n) = simp append-nil
    copy_loop-Built _ _ to (next_built n x xs h hs) =
        rw (copy_loop, copy_item-Built n x h)
          (copy_loop-Built n xs (to ++ x ∷ []) hs ∙ simp append_assoc)

  -- Items that were appended (values that libdbus accepts, and variants of one item), with containers
  -- nested less deep than the fuel, are copied whole, in their order, behind what is there already.
  pub copy_data-Built :
      (fuel : ℕ) (from to : List Item)
      → AllBuilt fuel from
      → copy_data lib fuel from to ≡ some (to ++ from)
  unfolding copy_data
  copy_data-Built fuel from to h = copy_loop-Built fuel from to h
