-- ===== src/Common/Sublists.antt =====
-- Lists of which some elements are left out, the others in order.
use mathlib.Core.Path.{◌≡◌, subst}
use mathlib.Core.List.{List, [], ◌∷◌, ◌++◌}

pub data Sublist {ℓ} {A : Type ℓ} : List A → List A → Type ℓ where
  nothing : Sublist [] []
  keep : {xs ys : List A} (a : A) → Sublist xs ys → Sublist (a ∷ xs) (a ∷ ys)
  skip : {xs ys : List A} (a : A) → Sublist xs ys → Sublist xs (a ∷ ys)

module _ {ℓ} {A : Type ℓ} where
  pub Sublist_refl : (xs : List A) → Sublist xs xs
  Sublist_refl [] = nothing
  Sublist_refl (x ∷ xs) = keep x (Sublist_refl xs)

  pub Sublist_of : {xs ys : List A} → xs ≡ ys → Sublist xs ys
  Sublist_of {xs = xs} e = subst (λ l. Sublist xs l) e (Sublist_refl xs)

  pub Sublist_nil : (xs : List A) → Sublist [] xs
  Sublist_nil [] = nothing
  Sublist_nil (x ∷ xs) = skip x (Sublist_nil xs)

  within : {ys zs : List A} → Sublist ys zs → {xs : List A} → Sublist xs ys → Sublist xs zs
  within nothing s = s
  within (skip a t) s = skip a (within t s)
  within (keep a t) (keep _ s) = keep a (within t s)
  within (keep a t) (skip _ s) = skip a (within t s)

  pub Sublist_trans : {xs ys zs : List A} → Sublist xs ys → Sublist ys zs → Sublist xs zs
  Sublist_trans s t = within t s

  -- The same list before or behind.
  pub Sublist-append :
      (xs : List A) {ys zs : List A} → Sublist ys zs → Sublist (xs ++ ys) (xs ++ zs)
  Sublist-append [] s = s
  Sublist-append (x ∷ xs) s = keep x (Sublist-append xs s)

  pub Sublist_behind :
      {xs ys : List A} (zs : List A) → Sublist xs ys → Sublist (xs ++ zs) (ys ++ zs)
  Sublist_behind zs nothing = Sublist_refl zs
  Sublist_behind zs (keep a s) = keep a (Sublist_behind zs s)
  Sublist_behind zs (skip a s) = skip a (Sublist_behind zs s)

  pub Sublist_more : {xs ys : List A} (zs : List A) → Sublist xs ys → Sublist xs (ys ++ zs)
  Sublist_more zs nothing = Sublist_nil zs
  Sublist_more zs (keep a s) = keep a (Sublist_more zs s)
  Sublist_more zs (skip a s) = skip a (Sublist_more zs s)
