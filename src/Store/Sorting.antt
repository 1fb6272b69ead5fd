-- ===== src/Store/Sorting.antt =====
-- The insertion sort that ListUserTasksByRun and ListRuns of store/memory/store.go both write out as
-- a loop of swaps, on any order.
pub mod Unique
use go_saga_orchestration.Prelude.{
  ◌≡◌, refl, Bool, true, false, List, [], ◌∷◌, ◌++◌, reverse, All, Bool-cases, inl, inr,
  if◌then◌else◌,
}
use mathlib.Core.List.{Permᴰ, append-nil, reverse_aux}
use mathlib.Core.List.Permᴰ

module _ {ℓ} {A : Type ℓ} (before : A → A → Bool) where
  -- The inner loop swaps the new element down the sorted prefix while it comes before its
  -- neighbour. The prefix is held backwards, so its last element is the head.
  unfoldable pub sink : A → List A → List A
  sink x [] = x ∷ []
  sink x (y ∷ prefix) = if before x y then y ∷ sink x prefix else x ∷ y ∷ prefix

  unfoldable pub sort_onto : List A → List A → List A
  sort_onto prefix [] = prefix
  sort_onto prefix (x ∷ rest) = sort_onto (sink x prefix) rest

  unfoldable pub insertion_sort : List A → List A
  unfolding sink sort_onto
  insertion_sort xs = reverse (sort_onto [] xs)

-- Every element stands in the relation to all that follow it.
abbrev pub Ordered : {A : Type 0} → (A → A → Type 0) → List A → Type 0
Ordered R [] = Unit
Ordered R (x ∷ l) = All (λ y. R x y) l × Ordered R l

module _ {A : Type 0} (before : A → A → Bool) where
  sink-perm : (x : A) (l : List A) → Permᴰ (sink before x l) (x ∷ l)
  unfolding sink
  sink-perm x [] = Permᴰ.cons refl Permᴰ.nil
  sink-perm x (y ∷ l) = elim (Bool-cases (before x y)) [
    | inl less ↦ rw less (Permᴰ.trans (Permᴰ.cons refl (sink-perm x l)) (Permᴰ.swap refl refl))
    | inr more ↦ rw more (Permᴰ.refl _)
  ]

  move-perm : (x : A) (p l : List A) → Permᴰ (x ∷ (p ++ l)) (p ++ x ∷ l)
  move-perm x [] l = Permᴰ.refl (x ∷ l)
  move-perm x (y ∷ p) l = Permᴰ.trans (Permᴰ.swap refl refl) (Permᴰ.cons refl (move-perm x p l))

  sort_onto-perm : (p l : List A) → Permᴰ (sort_onto before p l) (p ++ l)
  unfolding sort_onto
  sort_onto-perm p [] = rw append-nil (Permᴰ.refl p)
  sort_onto-perm p (x ∷ l) =
      Permᴰ.trans (sort_onto-perm (sink before x p) l)
        (Permᴰ.trans (Permᴰ.append_right l (sink-perm x p)) (move-perm x p l))

  pub insertion_sort-perm : (l : List A) → Permᴰ (insertion_sort before l) l
  unfolding insertion_sort
  insertion_sort-perm l = Permᴰ.trans (Permᴰ.reverse (sort_onto before [] l)) (sort_onto-perm [] l)

-- An order that the test decides.
module _ {A : Type 0} (before : A → A → Bool) (R : A → A → Type 0)
    (trans : (x y z : A) → R x y → R y z → R x z) (swaps : (x y : A) → before x y ≡ true → R x y)
    (stays : (x y : A) → before x y ≡ false → R y x) where
  Descending : List A → Type 0
  Descending = Ordered (λ x y. R y x)

  All-below : (a b : A) (l : List A) → R a b → All (λ y. R y a) l → All (λ y. R y b) l
  All-below a b [] h p = tt
  All-below a b (x ∷ l) h p = (trans x a b p.0 h, All-below a b l h p.1)

  All-above : (a b : A) (l : List A) → R a b → All (λ y. R b y) l → All (λ y. R a y) l
  All-above a b [] h p = tt
  All-above a b (x ∷ l) h p = (trans a b x h p.0, All-above a b l h p.1)

  sink-All :
      (b x : A) (l : List A) → R x b → All (λ y. R y b) l → All (λ y. R y b) (sink before x l)
  unfolding sink
  sink-All b x [] h p = (h, tt)
  sink-All b x (y ∷ l) h p = elim (Bool-cases (before x y)) [
    | inl less ↦ rw less (p.0, sink-All b x l h p.1)
    | inr more ↦ rw more (h, p)
  ]

  sink-Descending : (x : A) (l : List A) → Descending l → Descending (sink before x l)
  unfolding sink Descending
  sink-Descending x [] d = (tt, tt)
  sink-Descending x (y ∷ l) d = elim (Bool-cases (before x y)) [
    | inl less ↦ rw less (sink-All y x l (swaps x y less) d.0, sink-Descending x l d.1)
    | inr more ↦ rw more ((stays x y more, All-below y x l (stays x y more) d.0), d)
  ]

  sort_onto-Descending : (p l : List A) → Descending p → Descending (sort_onto before p l)
  unfolding sort_onto
  sort_onto-Descending p [] d = d
  sort_onto-Descending p (x ∷ l) d =
      sort_onto-Descending (sink before x p) l (sink-Descending x p d)

  -- The elements are not behind the first one of an ordered list.
  abbrev IsBelow : List A → List A → Type 0
  IsBelow l [] = Unit
  IsBelow l (a ∷ acc) = All (λ y. R y a) l

  cons-Ordered :
      (x : A) (l acc : List A) → IsBelow (x ∷ l) acc → Ordered R acc → Ordered R (x ∷ acc)
  cons-Ordered x l [] b a = (tt, tt)
  cons-Ordered x l (y ∷ acc) b a = ((b.0, All-above x y acc b.0 a.0), a)

  reverse_aux-Ordered :
      (l acc : List A)
      → Descending l
      → IsBelow l acc
      → Ordered R acc
      → Ordered R (reverse_aux l acc)
  unfolding Descending
  reverse_aux-Ordered [] acc d b a = a
  reverse_aux-Ordered (x ∷ l) acc d b a =
      reverse_aux-Ordered l (x ∷ acc) d.1 d.0 (cons-Ordered x l acc b a)

  pub insertion_sort-Ordered : (l : List A) → Ordered R (insertion_sort before l)
  unfolding insertion_sort Descending
  insertion_sort-Ordered l =
      reverse_aux-Ordered (sort_onto before [] l) [] (sort_onto-Descending [] l tt) tt tt
