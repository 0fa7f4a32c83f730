-- ===== src/ReviewStats/Inline.antt =====
-- Where the inline comments go that `review-stats` counts.
use code_workflow.Prelude.{
  ℕ, ◌+◌, ◌≡◌, refl, Option, none, some, List, [], ◌∷◌, ◌++◌, true, false, ◌==◌, any, length,
  length-append, map, if◌then◌else◌, arith, sym, ap, ◌∙◌, Bool-cases, inl, inr, eq_iff,
}
use code_workflow.Prelude.Tables.{count_where}
use code_workflow.Store.Rows.{Store, Session, Turn, Delivery}
use code_workflow.Store.Deliveries.{list_deliveries_for}
use code_workflow.Store.Turns.{list_turns}
use code_workflow.ReviewStats.{
  Parts, Submitted, Tally, Matched, ReviewOut, is_submitted, submitted_by, session_issue_nums,
  add_id, is_inline_comment, new_tally, no_matches, match_comment, match_comments, inline_of,
  review_out, tally_row, tally_rows, collect_session_review_stats,
}

-- No id stands in the list twice.
abbrev pub IsDistinct : List ℕ → Type 0
IsDistinct [] = Unit
IsDistinct (n ∷ ns) = (any (λ m. m == n) ns ≡ false) × IsDistinct ns

abbrev pub add_first : Option ℕ → List ℕ → List ℕ
add_first none ids = ids
add_first (some id) ids = id ∷ ids

abbrev pub review_ids : List ReviewOut → List ℕ
review_ids [] = []
review_ids (r ∷ rs) = add_first r.review_id (review_ids rs)

abbrev pub total_inline : List ReviewOut → ℕ
total_inline [] = 0
total_inline (r ∷ rs) = r.inline_comments + total_inline rs

abbrev sum_of : (ℕ → ℕ) → List ℕ → ℕ
sum_of f [] = 0
sum_of f (n ∷ ns) = f n + sum_of f ns

sum_of-bump :
    (f : ℕ → ℕ) (k : ℕ) (ns : List ℕ)
    → sum_of (λ n. if n == k then f n + 1 else f n) ns ≡ sum_of f ns + count_where (λ n. n == k) ns
sum_of-bump f k [] = omega arith
sum_of-bump f k (n ∷ ns) = ground (arith, sum_of-bump f k ns)

count_where-none :
    (k : ℕ) (ns : List ℕ) → any (λ n. n == k) ns ≡ false → count_where (λ n. n == k) ns ≡ 0
count_where-none k [] h = refl
count_where-none k (n ∷ ns) h = ground (arith, count_where-none k ns)

fresh_of_eq :
    (n k : ℕ) (ns : List ℕ) → any (λ m. m == n) ns ≡ false → n ≡ k → any (λ m. m == k) ns ≡ false
fresh_of_eq n k ns h e = rw (sym e) h

count_where-one :
    (k : ℕ) (ns : List ℕ)
    → IsDistinct ns
    → any (λ n. n == k) ns ≡ true
    → count_where (λ n. n == k) ns ≡ 1
count_where-one k [] d h = cc h
count_where-one k (n ∷ ns) (fresh, d) h =
    ground (arith, count_where-one k ns d, count_where-none k ns, fresh_of_eq n k ns fresh)

-- Each comment is added to one review or to the unmatched ones.
match_comment-total :
    (ids : List ℕ) (c : Option ℕ) (m : Matched)
    → IsDistinct ids
    → sum_of (match_comment ids c m).comments_by_review ids + (match_comment ids c m).unmatched
      ≡ sum_of m.comments_by_review ids + m.unmatched + 1
unfolding match_comment
match_comment-total ids none m d = omega arith
match_comment-total ids (some k) m d = elim (Bool-cases (any (λ id. id == k) ids)) [
  | inl e ↦ rw e (omega (arith, sum_of-bump m.comments_by_review k ids, count_where-one k ids d e))
  | inr e ↦ rw e (omega arith)
]

match_comments-total :
    (ids : List ℕ) (cs : List (Option ℕ)) (m : Matched)
    → IsDistinct ids
    → sum_of (match_comments ids cs m).comments_by_review ids + (match_comments ids cs m).unmatched
      ≡ sum_of m.comments_by_review ids + m.unmatched + length cs
unfolding match_comments
match_comments-total ids [] m d = omega arith
match_comments-total ids (c ∷ cs) m d =
    omega
      (arith, match_comment-total ids c m d, match_comments-total ids cs (match_comment ids c m) d)

sum_of-zero : (ids : List ℕ) → sum_of (λ id. 0) ids ≡ 0
sum_of-zero [] = refl
sum_of-zero (id ∷ ids) = omega (arith, sum_of-zero ids)

abbrev ids_of : List Submitted → List ℕ
ids_of [] = []
ids_of (x ∷ xs) = add_first x.review_id (ids_of xs)

add_first-add_id :
    (o : Option ℕ) (ids : List ℕ) (p : Option ℕ)
    → add_first o (add_id p ids) ≡ add_id p (add_first o ids)
add_first-add_id none ids p = refl
add_first-add_id (some n) ids none = refl
add_first-add_id (some n) ids (some m) = refl

add_id-nil : (p : Option ℕ) → add_first p [] ≡ add_id p []
add_id-nil none = refl
add_id-nil (some n) = refl

ids_of-append :
    (xs : List Submitted) (x : Submitted) → ids_of (xs ++ x ∷ []) ≡ add_id x.review_id (ids_of xs)
ids_of-append [] x = add_id-nil x.review_id
ids_of-append (y ∷ xs) x =
    ap (add_first y.review_id) (ids_of-append xs x)
    ∙ add_first-add_id y.review_id (ids_of xs) x.review_id

not_both : (row : Delivery) → is_submitted row ≡ true → is_inline_comment row ≡ false
not_both row h = ground (
  arith,
  eq_iff row.event "pull_request_review",
  eq_iff row.event "pull_request_review_comment",
  eq_iff "pull_request_review" "pull_request_review_comment",
)

module _ (turns : List Turn) (m : Matched) where
  review_ids-map : (xs : List Submitted) → review_ids (map (review_out turns m) xs) ≡ ids_of xs
  unfolding review_out
  review_ids-map [] = refl
  review_ids-map (x ∷ xs) = ap (add_first x.review_id) (review_ids-map xs)

  sum_of-add_first :
      (o : Option ℕ) (ids : List ℕ)
      → inline_of m o + sum_of m.comments_by_review ids
        ≡ sum_of m.comments_by_review (add_first o ids)
  sum_of-add_first none ids = omega arith
  sum_of-add_first (some n) ids = refl

  total_inline-map :
      (xs : List Submitted)
      → total_inline (map (review_out turns m) xs) ≡ sum_of m.comments_by_review (ids_of xs)
  unfolding review_out
  total_inline-map [] = refl
  total_inline-map (x ∷ xs) =
      ap (λ n. inline_of m x.review_id + n) (total_inline-map xs)
      ∙ sum_of-add_first x.review_id (ids_of xs)

module _ (parts : Delivery → Parts) where
  tally_row-comments :
      (row : Delivery) (t : Tally)
      → length (tally_row parts row t).comment_review_ids
        ≡ length t.comment_review_ids + (if is_inline_comment row then 1 else 0)
  unfolding tally_row
  tally_row-comments row t = elim (Bool-cases (is_submitted row)) [
    | inl e ↦ rw e (rw (not_both row e) (omega arith))
    | inr e ↦
        rw e
          (ground (arith, length-append t.comment_review_ids ((parts row).comment_review_id ∷ [])))
  ]

  tally_rows-comments :
      (rows : List Delivery) (t : Tally)
      → length (tally_rows parts rows t).comment_review_ids
        ≡ length t.comment_review_ids + count_where is_inline_comment rows
  unfolding tally_rows
  tally_rows-comments [] t = omega arith
  tally_rows-comments (row ∷ rows) t =
      ground (arith, tally_row-comments row t, tally_rows-comments rows (tally_row parts row t))

  tally_row-ids :
      (row : Delivery) (t : Tally)
      → t.submitted_ids ≡ ids_of t.submitted
      → (tally_row parts row t).submitted_ids ≡ ids_of (tally_row parts row t).submitted
  unfolding tally_row
  tally_row-ids row t h = elim (Bool-cases (is_submitted row)) [
    | inl e ↦ rw e (
        ap (add_id (parts row).review_id) h
        ∙ sym (ids_of-append t.submitted (submitted_by parts row)))
    | inr e ↦ rw e (ground (arith, h))
  ]

  tally_rows-ids :
      (rows : List Delivery) (t : Tally)
      → t.submitted_ids ≡ ids_of t.submitted
      → (tally_rows parts rows t).submitted_ids ≡ ids_of (tally_rows parts rows t).submitted
  unfolding tally_rows
  tally_rows-ids [] t h = h
  tally_rows-ids (row ∷ rows) t h =
      tally_rows-ids rows (tally_row parts row t) (tally_row-ids row t h)

  -- Where no review is listed twice, the report accounts for every inline comment that was made in the
  -- session: each is counted at one review, or among the comments without a review.
  pub collect_session_review_stats-total :
      (s : Store) (sess : Session)
      → IsDistinct (review_ids (collect_session_review_stats parts s sess).reviews)
      → total_inline (collect_session_review_stats parts s sess).reviews
          + (collect_session_review_stats parts s sess).unmatched_inline_comments
        ≡ count_where is_inline_comment (list_deliveries_for sess.repo (session_issue_nums sess) s)
  unfolding collect_session_review_stats
  collect_session_review_stats-total s sess d =
      let rows = list_deliveries_for sess.repo (session_issue_nums sess) s in
      let t = tally_rows parts rows new_tally in
      let m = match_comments t.submitted_ids t.comment_review_ids no_matches in
      let turns = list_turns sess.session_key s in
      let same = tally_rows-ids rows new_tally refl in
      let distinct : IsDistinct t.submitted_ids =
        rw (same ∙ sym (review_ids-map turns m t.submitted)) d in
      omega (
        arith,
        tally_rows-comments rows new_tally,
        match_comments-total t.submitted_ids t.comment_review_ids no_matches distinct,
        sum_of-zero t.submitted_ids,
        total_inline-map turns m t.submitted,
        ap (sum_of m.comments_by_review) same,
      )
