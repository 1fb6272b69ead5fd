-- ===== src/Store/Sorting/Unique.antt =====
-- Lists with the same elements that are both strictly sorted are equal, so a sort by a key that differs
-- from element to element does not depend on the order it starts from.
use mathlib.Core.Path.{subst}
use mathlib.Core.List.{Permᴰ}
use mathlib.Core.List.Permᴰ
use go_saga_orchestration.Prelude.{
  ℕ, ◌≡◌, ◌≢◌, ◌<◌, ◌≤◌, ◌⊎◌, inl, inr, refl, sym, Bool, true, false, List, [], ◌∷◌, All,
  Bool-cases, select, arith,
}
use go_saga_orchestration.Store.Sorting.{Ordered}

module _ {A : Type 0} where
  pub Perm-All : (P : A → Type 0) {l k : List A} → Permᴰ l k → All P l → All P k
  Perm-All P Permᴰ.nil h = tt
  Perm-All P (Permᴰ.cons e p) h = (subst P e h.0, Perm-All P p h.1)
  Perm-All P (Permᴰ.swap e e') h = (subst P e' h.1.0, (subst P e h.0, h.1.1))
  Perm-All P (Permᴰ.trans p q) h = Perm-All P q (Perm-All P p h)

  pub select-Perm : (p : A → Bool) {l k : List A} → Permᴰ l k → Permᴰ (select p l) (select p k)
  select-Perm p Permᴰ.nil = Permᴰ.nil
  select-Perm p (Permᴰ.cons {a} {b} e q) = elim (Bool-cases (p a)) [
    | inl holds ↦ rw (holds, subst (λ x. p x ≡ true) e holds) (Permᴰ.cons e (select-Perm p q))
    | inr fails ↦ rw (fails, subst (λ x. p x ≡ false) e fails) (select-Perm p q)
  ]
  select-Perm p (Permᴰ.swap {a} {b} {a'} {b'} {l} e e') = elim (Bool-cases (p a)) [
    | inl holds ↦ elim (Bool-cases (p b)) [
      | inl also ↦
          rw (holds, also, subst (λ x. p x ≡ true) e holds, subst (λ x. p x ≡ true) e' also)
            (Permᴰ.swap e e')
      | inr only ↦
          rw (holds, only, subst (λ x. p x ≡ true) e holds, subst (λ x. p x ≡ false) e' only)
            (Permᴰ.cons e (Permᴰ.refl (select p l)))
    ]
    | inr fails ↦ elim (Bool-cases (p b)) [
      | inl only ↦
          rw (fails, only, subst (λ x. p x ≡ false) e fails, subst (λ x. p x ≡ true) e' only)
            (Permᴰ.cons e' (Permᴰ.refl (select p l)))
      | inr neither ↦
          rw (fails, neither, subst (λ x. p x ≡ false) e fails, subst (λ x. p x ≡ false) e' neither)
            (Permᴰ.refl (select p l))
    ]
  ]
  select-Perm p (Permᴰ.trans q r) = Permᴰ.trans (select-Perm p q) (select-Perm p r)

module _ {A : Type 0} (key : A → ℕ) where
  -- No two elements of the list have the same key.
  abbrev pub Apart : List A → Type 0
  Apart = Ordered (λ x y. key x ≢ key y)

  -- The keys fall from each element to all behind it.
  abbrev Falling : List A → Type 0
  Falling = Ordered (λ x y. key y < key x)

  pub Perm-Apart : {l k : List A} → Permᴰ l k → Apart l → Apart k
  Perm-Apart Permᴰ.nil h = tt
  Perm-Apart (Permᴰ.cons {a} {b} {l₁} e p) h = (
    Perm-All (λ y. key b ≢ key y) p (subst (λ x. All (λ y. key x ≢ key y) l₁) e h.0),
    Perm-Apart p h.1,
  )
  Perm-Apart (Permᴰ.swap {a} {b} {a'} {b'} {l} e e') h = (
    (
      subst (λ x. key x ≢ key b') e' (subst (λ x. key b ≢ key x) e (λ q. h.0.0 (sym q))),
      subst (λ x. All (λ y. key x ≢ key y) l) e' h.1.0,
    ),
    (subst (λ x. All (λ y. key x ≢ key y) l) e h.0.1, h.1.1),
  )
  Perm-Apart (Permᴰ.trans p q) h = Perm-Apart q (Perm-Apart p h)

  All-strict :
      (x : A) (l : List A)
      → All (λ y. key y ≤ key x) l
      → All (λ y. key x ≢ key y) l
      → All (λ y. key y < key x) l
  All-strict x [] h n = tt
  All-strict x (y ∷ l) h n = (omega (arith, h.0, n.0), All-strict x l h.1 n.1)

  strict : (l : List A) → Ordered (λ x y. key y ≤ key x) l → Apart l → Falling l
  strict [] h n = tt
  strict (x ∷ l) h n = (All-strict x l h.0 n.0, strict l h.1 n.1)

  -- The head, or below it.
  abbrev FromHead : A → A → Type 0
  FromHead x z = (z ≡ x) ⊎ (key z < key x)

  All-below : (x : A) (l : List A) → All (λ y. key y < key x) l → All (FromHead x) l
  All-below x [] h = tt
  All-below x (y ∷ l) h = (inr h.0, All-below x l h.1)

  same_head : (x y : A) → FromHead x y → FromHead y x → x ≡ y
  same_head x y (inl e) other = sym e
  same_head x y (inr h) (inl e) = e
  same_head x y (inr h) (inr k) = absurd (omega (arith, h, k))

  All-under :
      (P : A → Type 0) (x : A) (l : List A)
      → All (λ z. key z < key x → P z) l
      → All (λ z. key z < key x) l
      → All P l
  All-under P x [] f h = tt
  All-under P x (z ∷ l) f h = (f.0 h.0, All-under P x l f.1 h.1)

  All-weaken : (P : A → Type 0) (x : A) (l : List A) → All P l → All (λ z. key z < key x → P z) l
  All-weaken P x [] h = tt
  All-weaken P x (z ∷ l) h = (λ _. h.0, All-weaken P x l h.1)

  -- What holds of all of one list's tail holds of all of the other's.
  tail-All :
      (x : A) (l k : List A)
      → All (λ z. key z < key x) k
      → ((P : A → Type 0) → All P (x ∷ l) → All P (x ∷ k))
      → (P : A → Type 0) → All P l
      → All P k
  tail-All x l k below f P h =
      All-under P x k
        (f (λ z. key z < key x → P z) (λ less. absurd (omega (arith, less)), All-weaken P x l h)).1
        below

  head_under :
      (u : A) (m : List A)
      → All (λ z. key z < key u) m
      → (v : A) (n : List A) → ((P : A → Type 0) → All P (u ∷ m) → All P (v ∷ n))
      → FromHead u v
  head_under u m low v n h = (h (FromHead u) (inl refl, All-below u m low)).0

  same_elements :
      (l k : List A)
      → Falling l
      → Falling k
      → ((P : A → Type 0) → All P l → All P k)
      → ((P : A → Type 0) → All P k → All P l)
      → l ≡ k
  same_elements [] [] hl hk f g = refl
  same_elements [] (y ∷ k) hl hk f g = absurd ((f (λ _. ⊥) tt).0)
  same_elements (x ∷ l) [] hl hk f g = absurd ((g (λ _. ⊥) tt).0)
  same_elements (x ∷ l) (y ∷ k) hl hk f g =
      let same : x ≡ y = same_head x y (head_under x l hl.0 y k f) (head_under y k hk.0 x l g) in
      let f' = subst (λ v. (P : A → Type 0) → All P (x ∷ l) → All P (v ∷ k)) (sym same) f in
      let g'' = subst (λ v. (P : A → Type 0) → All P (v ∷ k) → All P (x ∷ l)) (sym same) g in
      let below = subst (λ v. All (λ z. key z < key v) k) (sym same) hk.0 in
      rw (same, same_elements l k hl.1 hk.1 (tail-All x l k below f') (tail-All x k l hl.0 g''))
        refl

  -- Two lists with the same elements that are sorted by a key of which no two agree are equal.
  pub sorted_once :
      {l k : List A}
      → Ordered (λ x y. key y ≤ key x) l
      → Ordered (λ x y. key y ≤ key x) k
      → Apart l
      → Permᴰ l k
      → l ≡ k
  sorted_once {l} {k} hl hk apart p =
      same_elements l k (strict l hl apart) (strict k hk (Perm-Apart p apart)) (λ P. Perm-All P p)
        (λ P. Perm-All P (Permᴰ.symm p))
