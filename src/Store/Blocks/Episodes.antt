-- ===== src/Store/Blocks/Episodes.antt =====
-- Opening, closing and reopening a project block of db.py.
use mathlib.Core.Path.{subst}
use text.Mathlib.TextPositions.{eq_refl}
use code_workflow.Prelude.{
  ℕ, ◌≤◌, ◌≡◌, refl, ap, sym, ◌∙◌, eq_iff, String, Option, none, some, List, [], ◌∷◌, ◌++◌, true,
  false, arith, str_eq, any, inl, inr, Bool-cases,
}
use code_workflow.Prelude.Tables.{
  count_where, update_where, first-append, any_of_first, none_of_first, count-update_cleared,
  any-count, count-append, count-update_kept, first-replace_within, first_of-count-zero,
}
use code_workflow.Store.Rows.{Store, ProjectBlock}
use code_workflow.Store.Blocks.{
  is_block_of, is_open_block, block_row, open_project_block, get_open_project_block,
  close_project_block,
}

-- Opening a project's block while one is open changes nothing, whatever the call gives.
pub open_project_block_again :
    (now : ℕ) (key reason : String) (session : Option String) (issue comment : Option ℕ) (s : Store)
    {b : ProjectBlock}
    → get_open_project_block key s ≡ some b
    → open_project_block now key reason session issue comment s ≡ s
unfolding open_project_block get_open_project_block
open_project_block_again now key reason session issue comment s h =
    rw (any_of_first (is_open_block key) s.project_blocks h) refl

-- A block that is opened while none is open is found open with what the call gave, also where the
-- project had one before that was closed.
pub open_project_block_fresh :
    (now : ℕ) (key reason : String) (session : Option String) (issue comment : Option ℕ) (s : Store)
    → get_open_project_block key s ≡ none
    → get_open_project_block key (open_project_block now key reason session issue comment s)
      ≡ some (block_row now key reason session issue comment)
unfolding open_project_block get_open_project_block
open_project_block_fresh now key reason session issue comment s h =
    let row = block_row now key reason session issue comment in
    let shut = none_of_first (is_open_block key) s.project_blocks h in
    let opened : is_open_block key row ≡ true = ground (arith, eq_refl key) in
    elim (Bool-cases (any (is_block_of key) s.project_blocks)) [
      | inl old ↦
          rw (shut, old)
            (first-replace_within (is_block_of key) (is_open_block key) row s.project_blocks opened
              (λ b e. ground arith) old)
      | inr new ↦ rw (shut, new) (first-append (is_open_block key) s.project_blocks row shut opened)
    ]

-- Closing a project's block leaves none open for it.
pub close_project_block_lem :
    (now : ℕ) (key : String) (s : Store)
    → (get_open_project_block key (close_project_block now key s).0 ≡ none)
      × ((close_project_block now key s).1 ≡ count_where (is_open_block key) s.project_blocks)
unfolding close_project_block get_open_project_block
close_project_block_lem now key s = (
  first_of-count-zero (is_open_block key) _ (
      count-update_cleared (is_open_block key) (λ b. record b { resolved_at = some now })
        (λ b. ground arith) s.project_blocks),
  refl,
)

module _ (key other : String) (row : ProjectBlock) (keyed : row.project_key ≡ key) where
  replaced_unique :
      (bs : List ProjectBlock)
      → count_where (is_block_of other) bs ≤ 1
      → count_where (is_block_of other) (update_where (is_block_of key) (λ b. row) bs) ≤ 1
  replaced_unique bs h = omega (
    arith,
    count-update_kept (is_block_of key) (λ b. row) (is_block_of other)
        (λ b e. ap (λ k. str_eq k other) (keyed ∙ sym ((eq_iff b.project_key key).0 e))) bs,
  )

  appended_unique :
      (bs : List ProjectBlock)
      → any (is_block_of key) bs ≡ false
      → count_where (is_block_of other) bs ≤ 1
      → count_where (is_block_of other) (bs ++ row ∷ []) ≤ 1
  appended_unique bs new h = elim (Bool-cases (str_eq key other)) [
    | inl e ↦
        subst (λ o. count_where (is_block_of o) (bs ++ row ∷ []) ≤ 1) ((eq_iff key other).0 e)
          (ground
            (arith, any-count (is_block_of key) bs, count-append (is_block_of key) bs (row ∷ [])))
    | inr e ↦
        let strange : is_block_of other row ≡ false = ap (λ k. str_eq k other) keyed ∙ e in
        ground (arith, count-append (is_block_of other) bs (row ∷ []))
  ]

-- Opening and closing a project's block both keep at most one row for any project that has at most
-- one.
pub project_block_unique :
    (now : ℕ) (key other reason : String) (session : Option String) (issue comment : Option ℕ)
    (s : Store)
    → count_where (is_block_of other) s.project_blocks ≤ 1
    → (count_where
          (is_block_of other)
          (open_project_block now key reason session issue comment s).project_blocks
        ≤ 1)
      × (count_where (is_block_of other) (close_project_block now key s).0.project_blocks ≤ 1)
unfolding open_project_block close_project_block
project_block_unique now key other reason session issue comment s h =
    let row = block_row now key reason session issue comment in
    (
      elim (Bool-cases (any (is_open_block key) s.project_blocks)) [
        | inl busy ↦ rw busy h
        | inr shut ↦ elim (Bool-cases (any (is_block_of key) s.project_blocks)) [
          | inl old ↦ rw (shut, old) (replaced_unique key other row refl s.project_blocks h)
          | inr new ↦ rw (shut, new) (appended_unique key other row refl s.project_blocks new h)
        ]
      ],
      omega (
        arith,
        count-update_kept (is_open_block key) (λ b. record b { resolved_at = some now })
            (is_block_of other) (λ b e. refl) s.project_blocks,
      ),
    )
