-- ===== src/Rollouts/Feedbacks/Answers.antt =====
-- `calculate_rewards` returns, for every sample, the answer of the environment of its own task.
use ne_mo_rl_enhanced_math_r.Common.{
  ℕ, zero, suc, ◌+◌, ◌<◌, ◌≡◌, refl, sym, ap, ◌∙◌, List, [], ◌∷◌, ◌++◌, map, Option, none, some,
  arith, Result, ok, Dict, get_elem?, length, length-map, sort_by, sort_by-range, map-sort_by,
  All-sort_by, All, All-append, range_from, range, sum_of, sum_of-append, sum_of-map, perm-range,
  Same,
}
use ne_mo_rl_enhanced_math_r.Rollouts.Feedbacks.{
  Sample, group_from, infos_of, submit, with_places, collect, le_place, calculate_rewards,
}
use ne_mo_rl_enhanced_math_r.Rollouts.Feedbacks.Rows.{
  weigh, group_from-weigh, IsMember, Grouped, group_from-Grouped,
}

abbrev pub zip_with : {A B C : Type 0} → (A → B → C) → List A → List B → List C
zip_with f [] ys = []
zip_with f (x ∷ xs) [] = []
zip_with f (x ∷ xs) (y ∷ ys) = f x y ∷ zip_with f xs ys

get_elem?-map :
    {A B : Type 0} (f : A → B) (xs : List A) (i : ℕ) (x : A)
    → get_elem? xs i ≡ some x
    → get_elem? (map f xs) i ≡ some (f x)
get_elem?-map f [] i x e = cc
get_elem?-map f (y ∷ ys) zero x e = ap (λ o. elim o [ none ↦ some (f y) | some z ↦ some (f z) ]) e
get_elem?-map f (y ∷ ys) (suc i) x e = get_elem?-map f ys i x e

in_order :
    {R : Type 0} (answers : List R) (j : ℕ) (rest : List R) (ps : List (ℕ × R))
    → ((i : ℕ) → get_elem? answers (j + i) ≡ get_elem? rest i)
    → map (λ (p : ℕ × R). p.0) ps ≡ range_from j (length rest)
    → All (λ (p : ℕ × R). get_elem? answers (p.0) ≡ some (p.1)) ps
    → map (λ (p : ℕ × R). p.1) ps ≡ rest
in_order answers j [] [] at e h = refl
in_order answers j [] (p ∷ ps) at e h = cc
in_order answers j (r ∷ rest) [] at e h = cc
in_order {R} answers j (r ∷ rest) (p ∷ ps) at e h =
    let place : p.0 ≡ j = ap (λ is. elim is [ [] ↦ j | i ∷ _ ↦ i ]) e in
    let places : map (λ (q : ℕ × R). q.0) ps ≡ range_from (suc j) (length rest) =
      ap (λ is. elim is [ [] ↦ [] | _ ∷ js ↦ js ]) e in
    let found : ◌≡◌ {A = Option R} (some (p.1)) (some r) =
      sym (h.0) ∙ ap (get_elem? answers) (place ∙ omega arith) ∙ at 0 in
    let same : p.1 ≡ r = cc in
    ap (λ x. x ∷ map (λ (q : ℕ × R). q.1) ps) same
    ∙ ap (λ xs. r ∷ xs)
        (in_order answers (suc j) rest ps (λ i. ap (get_elem? answers) (omega arith) ∙ at (suc i))
          places (h.1))

module _ {M I R E : Type 0} (task_to_env : ℕ → Option (List M → List I → Result E (List R)))
    (row : ℕ → M → I → R) (samples : List (Sample M I))
    (row_by_row : (i : ℕ) (s : Sample M I)
      → get_elem? samples i ≡ some s
      → (step : List M → List I → Result E (List R)) × (task_to_env s.task_name ≡ some step)
        × ((ms : List M) (infos : List I)
            → step ms infos ≡ ok (zip_with (row s.task_name) ms infos))) where
  abbrev pub answer : Sample M I → R
  answer s = row s.task_name s.message_log s.env_info

  abbrev Placed : ℕ × R → Type 0
  Placed p = get_elem? (map answer samples) (p.0) ≡ some (p.1)

  group-answers :
      (task : ℕ) (group : List (ℕ × M))
      → All (IsMember samples task) group
      → (infos : List I) × (pairs : List (ℕ × R)) × (infos_of task_to_env samples group ≡ ok infos)
        × (with_places task_to_env group
              (zip_with (row task) (map (λ (p : ℕ × M). p.1) group) infos)
            ≡ ok pairs)
        × ((f : ℕ → ℕ)
            → sum_of (λ (p : ℕ × R). f (p.0)) pairs ≡ sum_of (λ (p : ℕ × M). f (p.0)) group)
        × All Placed pairs
  group-answers task [] h = ([], [], refl, refl, λ f. refl, tt)
  group-answers task ((i, m) ∷ group) h =
      let (s, found, of_task, shown) = h.0 in
      let (infos, pairs, e, g, w, placed) = group-answers task group (h.1) in
      let entry : get_elem? (map answer samples) i ≡ some (row task m s.env_info) =
        get_elem?-map answer samples i s found
        ∙ ap (λ t. some (row t s.message_log s.env_info)) of_task
        ∙ ap (λ x. some (row task x s.env_info)) shown in
      (
        s.env_info ∷ infos,
        (i, row task m s.env_info) ∷ pairs,
        rw (found, e) refl,
        rw g refl,
        λ f. ap (λ k. f i + k) (w f),
        (entry, placed),
      )

  env_of :
      (task : ℕ) (group : List (ℕ × M))
      → All (IsMember samples task) group
      → 0 < length group
      → (step : List M → List I → Result E (List R)) × (task_to_env task ≡ some step)
        × ((ms : List M) (infos : List I) → step ms infos ≡ ok (zip_with (row task) ms infos))
  env_of task [] h l = absurd (omega (arith, l))
  env_of task ((i, m) ∷ group) h l =
      let (s, found, of_task, _) = h.0 in
      let (step, e, answers) = row_by_row i s found in
      (
        step,
        ap task_to_env (sym of_task) ∙ e,
        λ ms infos. answers ms infos ∙ ap (λ t. ok (zip_with (row t) ms infos)) of_task,
      )

  groups-answers :
      (groups : Dict (List (ℕ × M)))
      → Grouped samples groups
      → (futures : List (List (ℕ × M) × Result E (List R))) × (pairs : List (ℕ × R)) × (submit
            task_to_env samples groups
          ≡ ok futures)
        × (collect task_to_env futures ≡ ok pairs)
        × ((f : ℕ → ℕ) → sum_of (λ (p : ℕ × R). f (p.0)) pairs ≡ weigh f groups)
        × All Placed pairs
  groups-answers [] h = ([], [], refl, refl, λ f. refl, tt)
  groups-answers ((task, group) ∷ groups) h =
      let (infos, here, e, g, w, placed) = group-answers task group (h.0.0) in
      let (step, known, answers) = env_of task group (h.0.0) (h.0.1) in
      let (futures, rest, e', g', w', placed') = groups-answers groups (h.1) in
      let future = step (map (λ (p : ℕ × M). p.1) group) infos in
      let answered : future ≡ ok (zip_with (row task) (map (λ (p : ℕ × M). p.1) group) infos) =
        answers (map (λ (p : ℕ × M). p.1) group) infos in
      (
        (group, future) ∷ futures,
        here ++ rest,
        rw (known, e, e') refl,
        rw (answered, g, g') refl,
        λ f.
            sum_of-append (λ (p : ℕ × R). f (p.0)) here rest
            ∙ ap (λ k. k + sum_of (λ (p : ℕ × R). f (p.0)) rest) (w f)
            ∙ ap (λ k. sum_of (λ (p : ℕ × M). f (p.0)) group + k) (w' f),
        All-append Placed here rest placed placed',
      )

  -- If every sample's task has an environment, which answers the samples it is given one by one, then
  -- the batch is answered sample by sample, each by the environment of its own task: grouping the
  -- samples by task changes neither an answer nor the order.
  pub calculate_rewards-rows : calculate_rewards task_to_env samples ≡ ok (map answer samples)
  unfolding calculate_rewards
  calculate_rewards-rows =
      let grouped =
        group_from-Grouped samples 0 samples [] (λ k. ap (get_elem? samples) (omega arith)) tt in
      let (futures, pairs, e, g, w, placed) = groups-answers (group_from 0 samples []) grouped in
      let place : ℕ × R → ℕ = λ p. p.0 in
      let same : Same (map place pairs) (range (length samples)) =
        λ f. sum_of-map f place pairs ∙ w f ∙ group_from-weigh f 0 samples [] ∙ omega arith in
      let places : map place (sort_by (le_place task_to_env) pairs)
          ≡ range (length (map answer samples)) =
        map-sort_by place pairs
        ∙ sort_by-range (length samples) (map place pairs)
            (perm-range (length samples) (map place pairs) same)
        ∙ ap range (sym (length-map samples answer)) in
      rw (e, g)
        (ap ok (
          in_order (map answer samples) 0 (map answer samples)
            (sort_by (le_place task_to_env) pairs)
            (λ i. ap (get_elem? (map answer samples)) (omega arith)) places
            (All-sort_by (le_place task_to_env) Placed pairs placed)))
