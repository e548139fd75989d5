-- ===== src/Feedback/Lawful.antt =====
-- When a row of the review queue (internal/store/decision_feedback.go) fits its status, and the quota
-- of a workspace.
use kasane_mcp.Prelude.{
  ℕ, ◌≤◌, ◌≡◌, Bool, true, false, List, [], ◌∷◌, some, Str, is_some, arith, Bool-cases, inl, inr,
  subst,
}
use kasane_mcp.Feedback.Rows.{Status, Evaluation, Db, find_where, map_where, count_where, live}

-- What the status says of the payload, the review and the permission.
abbrev pub Fits : Status → Bool → Bool → Bool → Type 0
Fits Status.unreviewed payload review permission =
    (payload ≡ true) × (review ≡ false) × (permission ≡ false)
Fits Status.agent_generated payload review permission =
    (payload ≡ true) × (review ≡ false) × (permission ≡ true)
Fits Status.reviewed payload review permission =
    (payload ≡ true) × (review ≡ true) × (permission ≡ true)
Fits Status.withdrawn payload review permission = (payload ≡ false) × (review ≡ false)

abbrev pub Lawful : Evaluation → Type 0
Lawful e =
    Fits e.review_status (is_some e.payload) (is_some e.review) (is_some e.permission_granted_at)

abbrev pub AllLawful : List Evaluation → Type 0
AllLawful [] = Unit
AllLawful (e ∷ es) = Lawful e × AllLawful es

-- At the time `now`, every row fits its status, and no workspace has more than 500 live rows.
pub record IsLawful (now : ℕ) (db : Db) : Type 0 where
  pub rows : AllLawful db.evaluations
  pub quota : (w : Str) → count_where (live now w) db.evaluations ≤ 500

pub find-Lawful :
    (p : Evaluation → Bool) (es : List Evaluation) (e : Evaluation)
    → AllLawful es
    → find_where p es ≡ some e
    → Lawful e × (p e ≡ true)
unfolding find_where
find-Lawful p [] e h found = cc
find-Lawful p (x ∷ es) e h found = elim (Bool-cases (p x)) [
  | inl hit ↦
      let same : x ≡ e = ground arith in
      subst (λ (x : Evaluation). Lawful x × (p x ≡ true)) same (h.0, hit)
  | inr miss ↦ find-Lawful p es e h.1 (ground arith)
]

pub map_where-Lawful :
    (p : Evaluation → Bool) (f : Evaluation → Evaluation) (es : List Evaluation)
    → ((e : Evaluation) → p e ≡ true → Lawful e → Lawful (f e))
    → AllLawful es
    → AllLawful (map_where p f es)
unfolding map_where
map_where-Lawful p f [] keeps h = tt
map_where-Lawful p f (e ∷ es) keeps h = elim (Bool-cases (p e)) [
  | inl hit ↦ rw hit (keeps e hit h.0, map_where-Lawful p f es keeps h.1)
  | inr miss ↦ rw miss (h.0, map_where-Lawful p f es keeps h.1)
]

-- A change that revives no row does not raise a count.
pub count-map_where-le :
    (q p : Evaluation → Bool) (f : Evaluation → Evaluation) (es : List Evaluation)
    → ((e : Evaluation) → p e ≡ true → q (f e) ≡ true → q e ≡ true)
    → count_where q (map_where p f es) ≤ count_where q es
unfolding map_where count_where
count-map_where-le q p f [] h = omega arith
count-map_where-le q p f (e ∷ es) h = ground (arith, h e, count-map_where-le q p f es h)

count_mono :
    (q p : Evaluation → Bool) (es : List Evaluation)
    → ((e : Evaluation) → q e ≡ true → p e ≡ true)
    → count_where q es ≤ count_where p es
unfolding count_where
count_mono q p [] h = omega arith
count_mono q p (e ∷ es) h = ground (arith, h e, count_mono q p es h)

live-later :
    (now later : ℕ) (w : Str) (e : Evaluation)
    → now ≤ later
    → live later w e ≡ true
    → live now w e ≡ true
unfolding live
live-later now later w e le h = ground arith

pub IsLawful-later : {now later : ℕ} {db : Db} → now ≤ later → IsLawful now db → IsLawful later db
IsLawful-later {now} {later} {db} le h = record {
  rows = h.rows;
  quota = λ w. omega (
    arith,
    h.quota w,
    count_mono (live later w) (live now w) db.evaluations (λ e. live-later now later w e le),
  );
}

-- A change of rows that fits and revives none.
pub map_where-IsLawful :
    {now : ℕ} {db : Db} (p : Evaluation → Bool) (f : Evaluation → Evaluation)
    → ((e : Evaluation) → p e ≡ true → Lawful e → Lawful (f e))
    → ((w : Str) (e : Evaluation) → p e ≡ true → live now w (f e) ≡ true → live now w e ≡ true)
    → IsLawful now db
    → IsLawful now (record db { evaluations = map_where p f db.evaluations })
map_where-IsLawful {now} {db} p f keeps revives h = record {
  rows = map_where-Lawful p f db.evaluations keeps h.rows;
  quota =
      λ w. omega (arith, h.quota w, count-map_where-le (live now w) p f db.evaluations (revives w));
}
