-- ===== src/Store/Listings/Paging.antt =====
-- The pages of ListRuns (store/memory/store.go) add up to the whole listing.
use go_saga_orchestration.Store.Sorting.Unique.{Apart, Perm-Apart, sorted_once, select-Perm}
use go_saga_orchestration.Prelude.{
  ℕ, zero, suc, ◌+◌, ◌-◌, ◌*◌, ◌≡◌, ◌≤◌, ◌<◌, refl, sym, inl, inr, List, [], ◌++◌, pos, Result, ok,
  err, arith, leb, ltb, length, take, drop, take-drop, take-past, drop-past, drop-drop, Bool-cases,
  ◌∙◌, ap, take-nil, length-drop, values,
}
use mathlib.Core.List.{Permᴰ}
use mathlib.Core.List.Permᴰ
use native.Mathlib.Nat.{suc-mul}
use go_saga_orchestration.Domain.{SagaRun}
use go_saga_orchestration.Store.{Store}
use go_saga_orchestration.Store.Sorting.{
  insertion_sort, Ordered, insertion_sort-perm, insertion_sort-Ordered,
}
use go_saga_orchestration.Store.Listings.{
  RunFilter, newer, filter_runs, page, list_runs, count_runs, limit_of, run_matches, Visit,
  build_trigger_type_map,
}

rest_of : (n o : ℕ) → o + n - o ≡ n
rest_of n o = omega arith

zero_times : (n : ℕ) → 0 ≡ 0 * n
zero_times n = omega arith

suc_times : (m n : ℕ) → n + m * n ≡ suc m * n
suc_times m n = omega (arith, suc-mul m n)

limit_pos : (n : ℕ) → 0 < n → limit_of (pos n) ≡ n
limit_pos zero h = absurd (omega (arith, h))
limit_pos (suc n) h = refl

-- A page is the stretch of the list from the offset on, of the length of the limit.
page-slice : {A : Type 0} (n o : ℕ) (l : List A) → page n o l ≡ take n (drop o l)
unfolding page
page-slice n o l = elim (Bool-cases (leb (length l) o)) [
  | inl past ↦ rw (past, drop-past o l (ground (arith, past))) (sym (take-nil n))
  | inr inside ↦ rw inside (elim (Bool-cases (ltb (length l) (o + n))) [
    | inl short ↦ rw short (
        take-past _ (drop o l) (omega (arith, length-drop o l))
        ∙ sym (take-past n (drop o l) (ground (arith, length-drop o l, short))))
    | inr full ↦ rw full (ap (λ k. take k (drop o l)) (rest_of n o))
  ])
]

abbrev runs_in : Result (List SagaRun) → List SagaRun
runs_in (ok l) = l
runs_in (err e) = []

-- What a client gets that asks for so many pages of the limit, one after the other. The range over the
-- map visits the runs in another order in each call.
abbrev pub fetch : (ℕ → Visit) → ℕ → ℕ → ℕ → RunFilter → Store → List SagaRun
fetch visits zero limit offset filter s = []
fetch visits (suc pages) limit offset filter s =
    runs_in
      (list_runs (visits pages) (record filter { limit = pos limit; offset = pos offset }) s).0
    ++ fetch visits pages limit (offset + limit) filter s

-- The runs that match, as the table holds them.
abbrev pub matching : RunFilter → Store → List SagaRun
matching filter s = filter_runs (λ l. l) filter s

abbrev pub IsVisit : Visit → Type 0
IsVisit visit = (l : List SagaRun) → Permᴰ (visit l) l

visited-perm :
    (visit : Visit) (filter : RunFilter) (s : Store)
    → IsVisit visit
    → Permᴰ (filter_runs visit filter s) (matching filter s)
unfolding filter_runs
visited-perm visit filter s ok_visit =
    select-Perm (run_matches filter (build_trigger_type_map s.triggers)) (ok_visit (values s.runs))

sorted : (l : List SagaRun) → Ordered (λ x y. y.started_at ≤ x.started_at) (insertion_sort newer l)
sorted l =
    insertion_sort-Ordered newer (λ x y. y.started_at ≤ x.started_at)
      (λ x y z h k. omega (arith, h, k)) (λ x y e. ground (arith, e)) (λ x y e. ground (arith, e)) l

module _ (n : ℕ) (positive : 0 < n) (filter : RunFilter) (s : Store)
    (apart : Apart (λ r. r.started_at) (matching filter s)) where
  abbrev listing : List SagaRun
  listing = insertion_sort newer (matching filter s)

  -- The sorted listing does not depend on the order of the visit.
  one_listing :
      (visit : Visit) → IsVisit visit → insertion_sort newer (filter_runs visit filter s) ≡ listing
  one_listing visit ok_visit =
      let there = visited-perm visit filter s ok_visit in
      sorted_once (λ r. r.started_at) (sorted (filter_runs visit filter s))
        (sorted (matching filter s))
        (Perm-Apart (λ r. r.started_at)
          (Permᴰ.symm (Permᴰ.trans (insertion_sort-perm newer (filter_runs visit filter s)) there))
          apart)
        (Permᴰ.trans (insertion_sort-perm newer (filter_runs visit filter s))
          (Permᴰ.trans there (Permᴰ.symm (insertion_sort-perm newer (matching filter s)))))

  limit-pos : limit_of (pos n) ≡ n
  limit-pos = limit_pos n positive

  one_page :
      (visit : Visit) (o : ℕ)
      → IsVisit visit
      → runs_in (list_runs visit (record filter { limit = pos n; offset = pos o }) s).0
        ≡ take n (drop o listing)
  unfolding list_runs filter_runs run_matches
  one_page visit o ok_visit = rw limit-pos (
      page-slice n o (insertion_sort newer (filter_runs visit filter s))
      ∙ ap (λ l. take n (drop o l)) (one_listing visit ok_visit))

  fetch-take :
      (visits : ℕ → Visit)
      → ((i : ℕ) → IsVisit (visits i))
      → (pages o : ℕ) → fetch visits pages n o filter s ≡ take (pages * n) (drop o listing)
  fetch-take visits ok_visits zero o = ap (λ k. take k (drop o listing)) (zero_times n)
  fetch-take visits ok_visits (suc pages) o =
      rw
        (
          one_page (visits pages) o (ok_visits pages),
          fetch-take visits ok_visits pages (o + n),
          sym (drop-drop o n listing),
        )
        (take-drop n (pages * n) (drop o listing)
          ∙ ap (λ k. take k (drop o listing)) (suc_times pages n))

counted_total : (m n : ℕ) → ok m ≡ ok n → m ≡ n
counted_total m n e = cc

perm-length : {A : Type 0} {l k : List A} → Permᴰ l k → length l ≡ length k
perm-length Permᴰ.nil = refl
perm-length (Permᴰ.cons e p) = omega (arith, perm-length p)
perm-length (Permᴰ.swap e e') = refl
perm-length (Permᴰ.trans p q) = perm-length p ∙ perm-length q

few :
    (pages n : ℕ) (visit : Visit) (filter : RunFilter) (s : Store) (total : ℕ)
    → IsVisit visit
    → (count_runs visit filter s).0 ≡ ok total
    → total ≤ pages * n
    → length (insertion_sort newer (matching filter s)) ≤ pages * n
unfolding count_runs
few pages n visit filter s total ok_visit counted enough = omega (
  arith,
  enough,
  perm-length (insertion_sort-perm newer (matching filter s)),
  perm-length (visited-perm visit filter s ok_visit),
  counted_total (length (filter_runs visit filter s)) total counted,
)

-- A client that asks for one page of ListRuns after the other, until it has asked for as many runs as
-- CountRuns reports, gets every matching run exactly as often as the table holds it, newest first, in
-- whatever order each of the calls visits the table, if no two of the matching runs have started at the
-- same time.
pub list_runs-pages :
    (visits : ℕ → Visit) (pages n : ℕ) (filter : RunFilter) (s : Store)
    → ((i : ℕ) → IsVisit (visits i))
    → Apart (λ r. r.started_at) (matching filter s)
    → 0 < n
    → (total : ℕ) → (count_runs (visits pages) filter s).0 ≡ ok total
    → total ≤ pages * n
    → Ordered (λ x y. y.started_at ≤ x.started_at) (fetch visits pages n 0 filter s)
      × Permᴰ (fetch visits pages n 0 filter s) (matching filter s)
list_runs-pages visits pages n filter s ok_visits apart positive total counted enough =
    rw
      (fetch-take n positive filter s apart visits ok_visits pages 0
        ∙ take-past (pages * n) (insertion_sort newer (matching filter s))
            (few pages n (visits pages) filter s total (ok_visits pages) counted enough))
      (sorted (matching filter s), insertion_sort-perm newer (matching filter s))
