-- ===== src/Checkpoint/Moves.antt =====
-- The renames that put a checkpoint in its place.
use ne_mo_rl_enhanced_math_r.Common.{
  ℕ, ◌≡◌, refl, ◌∙◌, inl, inr, Bool, true, false, ◌&&◌, not, Option, none, some, Bool-cases, ok,
  raise, Dict, lookup, has, put, delete, lookup-put_self, lookup-put_ne, lookup-delete_self,
  lookup-delete_ne, has-lookup, has→lookup,
}
use ne_mo_rl_enhanced_math_r.Checkpoint.{
  Error, not_found, directory_not_empty, Contents, Directory, rename, move_into_place,
}

-- The temporary checkpoint has become the step's, nothing else of the step is left, and no other
-- step is touched.
pub record Placed (n : ℕ) (c : Contents) (dir dir' : Directory) : Type 0 where
  pub in_place : lookup n dir'.steps ≡ some c
  pub no_tmp : lookup n dir'.tmp_steps ≡ none
  pub no_old : lookup n dir'.old_steps ≡ none
  pub others :
      (j : ℕ)
      → (j ≡ n → ⊥)
      → (lookup j dir'.steps ≡ lookup j dir.steps)
        × (lookup j dir'.tmp_steps ≡ lookup j dir.tmp_steps)
        × (lookup j dir'.old_steps ≡ lookup j dir.old_steps)

rename_ok :
    (n : ℕ) (source target : Dict Contents) (c : Contents)
    → lookup n source ≡ some c
    → has n target ≡ false
    → rename n source target ≡ ok (delete n source, put n c target)
unfolding rename
rename_ok n source target c e f = rw (e, f, rename)

has-delete : (n : ℕ) (d : Dict Contents) → has n (delete n d) ≡ false
has-delete n d = elim (Bool-cases (has n (delete n d))) [
  | inl e ↦
      let (c, f) = has→lookup n (delete n d) e in
      let x = lookup-delete_self n d in absurd (clash f x)
  | inr e ↦ e
]
  where
    clash : {o : Option Contents} {c : Contents} → o ≡ some c → o ≡ none → ⊥
    clash p q = cc

pub move_into_place-Placed :
    (n : ℕ) (dir : Directory) (c : Contents)
    → lookup n dir.tmp_steps ≡ some c
    → has n dir.old_steps ≡ false
    → (dir' : Directory) × (move_into_place n dir ≡ ok dir') × Placed n c dir dir'
unfolding move_into_place
move_into_place-Placed n dir c e f = elim (Bool-cases (has n dir.steps)) [
  | inl g ↦
      let (old, h) = has→lookup n dir.steps g in
      let first = rename_ok n dir.steps dir.old_steps old h f in
      let second = rename_ok n dir.tmp_steps (delete n dir.steps) c e (has-delete n dir.steps) in
      (
        record {
          steps = put n c (delete n dir.steps);
          tmp_steps = delete n dir.tmp_steps;
          old_steps = delete n (put n old dir.old_steps);
        },
        rw (g, first) (rw second refl),
        record {
          in_place = lookup-put_self n c (delete n dir.steps);
          no_tmp = lookup-delete_self n dir.tmp_steps;
          no_old = lookup-delete_self n (put n old dir.old_steps);
          others = λ j ne. (
            lookup-put_ne n j c (delete n dir.steps) ne ∙ lookup-delete_ne n j dir.steps ne,
            lookup-delete_ne n j dir.tmp_steps ne,
            lookup-delete_ne n j (put n old dir.old_steps) ne
                ∙ lookup-put_ne n j old dir.old_steps ne,
          );
        },
      )
  | inr g ↦ (
    record dir { steps = put n c dir.steps; tmp_steps = delete n dir.tmp_steps },
    rw (g, rename_ok n dir.tmp_steps dir.steps c e g) refl,
    record {
      in_place = lookup-put_self n c dir.steps;
      no_tmp = lookup-delete_self n dir.tmp_steps;
      no_old = has-lookup n dir.old_steps f;
      others =
          λ j ne. (lookup-put_ne n j c dir.steps ne, lookup-delete_ne n j dir.tmp_steps ne, refl);
    },
  )
]

rename-raises_missing :
    (n : ℕ) (source target : Dict Contents)
    → has n source ≡ false
    → rename n source target ≡ raise not_found
unfolding rename
rename-raises_missing n source target e = rw (has-lookup n source e, rename)

rename-raises_full :
    (n : ℕ) (source target : Dict Contents)
    → has n source ≡ true
    → has n target ≡ true
    → rename n source target ≡ raise directory_not_empty
unfolding rename
rename-raises_full n source target e f = let (c, g) = has→lookup n source e in rw (g, f, rename)

-- Without the temporary checkpoint, or with the step and an old one of its number both there, the
-- renames fail.
pub move_into_place-raises :
    (n : ℕ) (dir : Directory)
    → (has n dir.tmp_steps && not (has n dir.steps && has n dir.old_steps)) ≡ false
    → (error : Error) × (move_into_place n dir ≡ raise error)
unfolding move_into_place
move_into_place-raises n dir e = elim (Bool-cases (has n dir.steps)) [
  | inl f ↦ elim (Bool-cases (has n dir.old_steps)) [
    | inl g ↦ (directory_not_empty, rw (f, rename-raises_full n dir.steps dir.old_steps f g) refl)
    | inr g ↦
        let (c, h) = has→lookup n dir.steps f in
        let no_tmp : has n dir.tmp_steps ≡ false = no (has n dir.tmp_steps) (rw (f, g) at e) in
        (
          not_found,
          rw (f, rename_ok n dir.steps dir.old_steps c h g)
              (rw (rename-raises_missing n dir.tmp_steps (delete n dir.steps) no_tmp) refl),
        )
  ]
  | inr f ↦
      let no_tmp : has n dir.tmp_steps ≡ false = no (has n dir.tmp_steps) (rw f at e) in
      (not_found, rw (f, rename-raises_missing n dir.tmp_steps dir.steps no_tmp) refl)
]
  where
    no : (b : Bool) → (b && true) ≡ false → b ≡ false
    no true e = e
    no false e = refl

pub move_into_place-ok :
    (n : ℕ) (dir : Directory)
    → (has n dir.tmp_steps && not (has n dir.steps && has n dir.old_steps)) ≡ true
    → (dir' : Directory) × (move_into_place n dir ≡ ok dir')
unfolding move_into_place
move_into_place-ok n dir e =
    let has_tmp : has n dir.tmp_steps ≡ true = left (has n dir.tmp_steps) _ e in
    let (c, found) = has→lookup n dir.tmp_steps has_tmp in
    elim (Bool-cases (has n dir.old_steps)) [
      | inl f ↦
          let no_step : has n dir.steps ≡ false =
            right (has n dir.tmp_steps) (has n dir.steps) (rw f at e) in
          (
            record dir { steps = put n c dir.steps; tmp_steps = delete n dir.tmp_steps },
            rw (no_step, rename_ok n dir.tmp_steps dir.steps c found no_step) refl,
          )
      | inr f ↦ let (placed, moved, _) = move_into_place-Placed n dir c found f in (placed, moved)
    ]
  where
    left : (a b : Bool) → (a && b) ≡ true → a ≡ true
    left true b h = refl
    left false b h = h

    right : (a b : Bool) → (a && not (b && true)) ≡ true → b ≡ false
    right true true h = cc
    right true false h = refl
    right false b h = cc
