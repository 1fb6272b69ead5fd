-- ===== src/Verbs/Join/Order.antt =====
-- The join condition does not depend on the order of the children, which the store reads from a map.
use mathlib.Core.List.{Perm, Permᴰ}
use mathlib.Core.Logic.{∥∥₁_elim}
use go_saga_orchestration.Prelude.{
  ◌≡◌, refl, ◌∙◌, ap, Bool, List, ℤ, Result, ok, err, arith, all, count,
}
use go_saga_orchestration.Domain
use go_saga_orchestration.Domain.{Fields, SagaRun}
use go_saga_orchestration.Runtime.{Env}
use go_saga_orchestration.Verbs.Join.{join_condition_met, quorum_n, quorum_met, is_nil}

module _ {ℓ} {A : Type ℓ} (p : A → Bool) where
  all-Permᴰ : {xs ys : List A} → Permᴰ xs ys → all p xs ≡ all p ys
  all-Permᴰ Permᴰ.nil = refl
  all-Permᴰ (Permᴰ.cons e h) = ground (arith, all-Permᴰ h, ap p e)
  all-Permᴰ (Permᴰ.swap e f) = ground (arith, ap p e, ap p f)
  all-Permᴰ (Permᴰ.trans h k) = all-Permᴰ h ∙ all-Permᴰ k

  count-Permᴰ : {xs ys : List A} → Permᴰ xs ys → count p xs ≡ count p ys
  count-Permᴰ Permᴰ.nil = refl
  count-Permᴰ (Permᴰ.cons e h) = ground (arith, count-Permᴰ h, ap p e)
  count-Permᴰ (Permᴰ.swap e f) = ground (arith, ap p e, ap p f)
  count-Permᴰ (Permᴰ.trans h k) = count-Permᴰ h ∙ count-Permᴰ k

is_nil-Permᴰ {ℓ} : {A : Type ℓ} {xs ys : List A} → Permᴰ xs ys → is_nil xs ≡ is_nil ys
is_nil-Permᴰ Permᴰ.nil = refl
is_nil-Permᴰ (Permᴰ.cons e h) = refl
is_nil-Permᴰ (Permᴰ.swap e f) = refl
is_nil-Permᴰ (Permᴰ.trans h k) = is_nil-Permᴰ h ∙ is_nil-Permᴰ k

quorum_met-Permᴰ :
    (q : Result ℤ) (g g' : List SagaRun) → Permᴰ g g' → quorum_met g q ≡ quorum_met g' q
quorum_met-Permᴰ (err e) g g' h = all-Permᴰ _ h
quorum_met-Permᴰ (ok n) g g' h = ground (
  arith,
  all-Permᴰ (λ (r : SagaRun). Domain.is_terminal r.state) h,
  count-Permᴰ (λ (r : SagaRun). Domain.is_succeeded r.state) h,
)

met-Permᴰ :
    (env : Env) (inputs vars : Fields) (g g' : List SagaRun)
    → Permᴰ g g'
    → join_condition_met env inputs vars g ≡ join_condition_met env inputs vars g'
unfolding join_condition_met
met-Permᴰ env inputs vars g g' h = ground (
  arith,
  is_nil-Permᴰ h,
  all-Permᴰ (λ (r : SagaRun). Domain.is_terminal r.state) h,
  quorum_met-Permᴰ (quorum_n env inputs vars) g g' h,
)

-- In whatever order the store lists the children, the join condition is the same.
pub join_condition_met-perm :
    (env : Env) (inputs vars : Fields) (g g' : List SagaRun)
    → Perm g g'
    → join_condition_met env inputs vars g ≡ join_condition_met env inputs vars g'
join_condition_met-perm env inputs vars g g' h =
    ∥∥₁_elim h (hlevel) (met-Permᴰ env inputs vars g g')
