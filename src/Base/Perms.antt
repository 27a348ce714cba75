-- ===== src/Base/Perms.antt =====
-- Tests that all elements pass, through the operations on lists.
use Prim.Native.Nat.{ℕ, zero, suc}
use mathlib.Core.Path.{◌≡◌, refl, ◌∙◌}
use mathlib.Core.Logic.{inl, inr, ∥∥₁_elim}
use mathlib.Core.Bool.{Bool, true, false, ◌&&◌, ◌||◌, Bool-set}
use mathlib.Core.List.{List, [], ◌∷◌, map, Perm, Permᴰ}
use easytask.Base.Tests.{Bool-cases, &&-split}
use easytask.Base.Lists.{all, any, take, drop, select}

&&-swap : (a b c : Bool) → (a && (b && c)) ≡ (b && (a && c))
&&-swap true true c = refl
&&-swap true false c = refl
&&-swap false true c = refl
&&-swap false false c = refl

||-swap : (a b c : Bool) → (a || (b || c)) ≡ (b || (a || c))
||-swap true true c = refl
||-swap true false c = refl
||-swap false true c = refl
||-swap false false c = refl

||-true : (a : Bool) {b : Bool} → b ≡ true → (a || b) ≡ true
||-true true h = refl
||-true false h = h

module _ {ℓ} {A : Type ℓ} (p : A → Bool) where
  all-Permᴰ : {xs ys : List A} → Permᴰ xs ys → all p xs ≡ all p ys
  all-Permᴰ Permᴰ.nil = refl
  all-Permᴰ (Permᴰ.cons e d) = rw (e, all-Permᴰ d) refl
  all-Permᴰ (Permᴰ.swap {a} {b} {l = l} e e') = rw (← e, ← e') (&&-swap (p a) (p b) (all p l))
  all-Permᴰ (Permᴰ.trans d d') = all-Permᴰ d ∙ all-Permᴰ d'

  pub all-Perm : {xs ys : List A} → Perm xs ys → all p xs ≡ all p ys
  all-Perm {xs} {ys} d = ∥∥₁_elim d (Bool-set (all p xs) (all p ys)) (λ e. all-Permᴰ e)

  any-Permᴰ : {xs ys : List A} → Permᴰ xs ys → any p xs ≡ any p ys
  any-Permᴰ Permᴰ.nil = refl
  any-Permᴰ (Permᴰ.cons e d) = rw (e, any-Permᴰ d) refl
  any-Permᴰ (Permᴰ.swap {a} {b} {l = l} e e') = rw (← e, ← e') (||-swap (p a) (p b) (any p l))
  any-Permᴰ (Permᴰ.trans d d') = any-Permᴰ d ∙ any-Permᴰ d'

  pub any-Perm : {xs ys : List A} → Perm xs ys → any p xs ≡ any p ys
  any-Perm {xs} {ys} d = ∥∥₁_elim d (Bool-set (any p xs) (any p ys)) (λ e. any-Permᴰ e)

  -- What is selected, of an element that passes both tests.
  pub any-select_of :
      (q r : A → Bool) (xs : List A)
      → ((x : A) → r x ≡ true → (q x ≡ true) × (p x ≡ true))
      → any r xs ≡ true
      → any p (select q xs) ≡ true
  any-select_of q r [] h k = cc
  any-select_of q r (x ∷ xs) h k = elim (Bool-cases (r x)) [
    | inl hit ↦ (let (kept, passes) = h x hit in rw (kept, passes) refl)
    | inr miss ↦
        let later = any-select_of q r xs h (rw miss at k) in
        elim (Bool-cases (q x)) [
          | inl kept ↦ rw kept (||-true (p x) later)
          | inr dropped ↦ rw dropped later
        ]
  ]

  pub all-drop : (n : ℕ) (xs : List A) → all p xs ≡ true → all p (drop n xs) ≡ true
  all-drop zero xs h = h
  all-drop (suc n) [] h = h
  all-drop (suc n) (x ∷ xs) h = all-drop n xs ((&&-split (p x) (all p xs) h).1)

  pub all-take : (n : ℕ) (xs : List A) → all p xs ≡ true → all p (take n xs) ≡ true
  all-take zero xs h = refl
  all-take (suc n) [] h = refl
  all-take (suc n) (x ∷ xs) h =
      let (first, rest) = &&-split (p x) (all p xs) h in rw (first, all-take n xs rest) refl

  -- The elements selected by a stronger test.
  pub all-select :
      (q : A → Bool) (xs : List A)
      → ((x : A) → q x ≡ true → p x ≡ true)
      → all p (select q xs) ≡ true
  all-select q [] h = refl
  all-select q (x ∷ xs) h = elim (Bool-cases (q x)) [
    | inl hit ↦ rw (hit, h x hit, all-select q xs h) refl
    | inr miss ↦ rw miss (all-select q xs h)
  ]

  pub all-select_of : (q : A → Bool) (xs : List A) → all p xs ≡ true → all p (select q xs) ≡ true
  all-select_of q [] h = refl
  all-select_of q (x ∷ xs) h =
      let (first, rest) = &&-split (p x) (all p xs) h in
      elim (Bool-cases (q x)) [
        | inl hit ↦ rw (hit, first, all-select_of q xs rest) refl
        | inr miss ↦ rw miss (all-select_of q xs rest)
      ]

  pub all-map :
      {B : Type ℓ} (f : B → A) (q : B → Bool) (xs : List B)
      → ((x : B) → q x ≡ true → p (f x) ≡ true)
      → all q xs ≡ true
      → all p (map f xs) ≡ true
  all-map f q [] h k = refl
  all-map f q (x ∷ xs) h k =
      let (first, rest) = &&-split (q x) (all q xs) k in rw (h x first, all-map f q xs h rest) refl
