-- ===== src/Core/Validation/Accepted.antt =====
-- The inputs that `RememberInput.Validate` (internal/core/validation.go) accepts.
use kasane_mcp.Prelude.{
  ◌≤◌, ◌≡◌, refl, sym, true, false, List, [], Str, arith, length, not, Result, ok, err, invalid,
  ok-injective, guard-ok, subst, ltb_ℤ, pos,
}
use kasane_mcp.GoText.{Unicode, len, valid_string, trim_space}
use kasane_mcp.GoText.Trim.{LowerLaws, trim_space_idem}
use kasane_mcp.Core.Types.{RememberInput}
use kasane_mcp.Core.Ids.{valid_id}
use kasane_mcp.Core.Validation.{
  is_empty, known_kind, normalize_tags, bad_text, bad_metadata, bad_update, unsearchable, with_tags,
  trimmed, validate,
}
use kasane_mcp.Core.Validation.Tags.{Fresh, normalize_tags-ok}

-- The bounds that a stored memory meets.
pub record Accepted (u : Unicode) (in' : RememberInput) : Type 0 where
  pub kind_known : known_kind in'.kind ≡ true
  pub title_filled : is_empty in'.title ≡ false
  pub title_trimmed : trim_space in'.title ≡ in'.title
  pub title_short : len in'.title ≤ 240
  pub content_filled : is_empty (trim_space in'.content) ≡ false
  pub content_short : len in'.content ≤ 65536
  pub content_valid : valid_string in'.content ≡ true
  pub title_valid : valid_string in'.title ≡ true
  pub source_short : len in'.source ≤ 2048
  pub key_short : len in'.idempotency_key ≤ 128
  pub few_tags : length in'.tags ≤ 32
  pub tags_fresh : Fresh u [] in'.tags
  pub update_named :
      is_empty in'.id ≡ false
      → (valid_id in'.id ≡ true) × (ltb_ℤ in'.expected_revision (pos 1) ≡ false)

-- The checks that passed, where `Validate` returned no error.
record Passed (u : Unicode) (raw out : RememberInput) : Type 0 where
  known : known_kind (trimmed raw).kind ≡ true
  text : bad_text (trimmed raw) ≡ false
  words : unsearchable u (trimmed raw) ≡ false
  metadata : bad_metadata (trimmed raw) ≡ false
  update : bad_update (trimmed raw) ≡ false
  tags : List Str
  tags_ok : normalize_tags u raw.tags [] ≡ ok tags
  out_eq : out ≡ record (trimmed raw) { tags = tags }

with_tags-ok :
    (in' : RememberInput) (r : Result (List Str)) {out : RememberInput}
    → with_tags in' r ≡ ok out
    → (tags : List Str) × (r ≡ ok tags) × (out ≡ record in' { tags = tags })
unfolding with_tags
with_tags-ok in' (err e) h = cc
with_tags-ok in' (ok tags) h = (tags, refl, sym (ok-injective h))

validate-Passed :
    (u : Unicode) (raw : RememberInput) {out : RememberInput}
    → validate u raw ≡ ok out
    → Passed u raw out
unfolding validate
validate-Passed u raw h =
    let (known, h1) = guard-ok (not (known_kind (trimmed raw).kind)) invalid h in
    let (text, h2) = guard-ok (bad_text (trimmed raw)) invalid h1 in
    let (words, h3) = guard-ok (unsearchable u (trimmed raw)) invalid h2 in
    let (metadata, h4) = guard-ok (bad_metadata (trimmed raw)) invalid h3 in
    let (update, h5) = guard-ok (bad_update (trimmed raw)) invalid h4 in
    let (tags, tags_ok, out_eq) = with_tags-ok (trimmed raw) (normalize_tags u raw.tags []) h5 in
    record {
      known = ground arith;
      text = text;
      words = words;
      metadata = metadata;
      update = update;
      tags = tags;
      tags_ok = tags_ok;
      out_eq = out_eq;
    }

-- Where lower case is idempotent and keeps spaces apart from the rest: an input that
-- RememberInput.Validate accepts comes back with a known kind, a trimmed title that is not empty,
-- title and content valid and within their bounds, content that is not blank, source, key and
-- tags within their bounds, tags that are trimmed, in lower case, of 1 to 64 bytes and all
-- different, and, where it names an ID, a valid one with an expected revision of at least 1.
pub validate-Accepted :
    (u : Unicode) (laws : LowerLaws u) (raw : RememberInput) {out : RememberInput}
    → validate u raw ≡ ok out
    → Accepted u out
unfolding trimmed bad_text bad_metadata bad_update
validate-Accepted u laws raw h =
    let p = validate-Passed u raw h in
    let k = normalize_tags-ok u laws raw.tags [] p.tags_ok in
    subst (Accepted u) (sym p.out_eq) (record {
      kind_known = p.known;
      title_filled = ground arith;
      title_trimmed = trim_space_idem raw.title;
      title_short = ground arith;
      content_filled = ground arith;
      content_short = ground arith;
      content_valid = ground arith;
      title_valid = ground arith;
      source_short = ground arith;
      key_short = ground arith;
      few_tags = rw k.out_eq (ground (arith, k.fewer));
      tags_fresh = rw k.out_eq k.fresh;
      update_named = λ named. (ground arith, ground arith);
    })

-- The kind of what was let through, whatever the tables of lower case are.
pub validate-known :
    (u : Unicode) (raw : RememberInput) {out : RememberInput}
    → validate u raw ≡ ok out
    → known_kind out.kind ≡ true
unfolding trimmed
validate-known u raw h =
    let p = validate-Passed u raw h in
    subst (λ (r : RememberInput). known_kind r.kind ≡ true) (sym p.out_eq) p.known
