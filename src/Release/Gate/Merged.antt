-- ===== src/Release/Gate/Merged.antt =====
-- The gate: what is known of a commit that is on the stable line.
use internal.Prelude.{
  ◌≡◌, refl, ap, ◌∙◌, Ordering, Bool, true, Option, none, some, List, [], ◌∷◌, inl, inr, any,
  filter, if◌then◌else◌, is_some, is_gt, Bool-cases, subst, Text, ◌===◌, ===_iff, Memᴰ, Failure,
  Result, ok, err, ◌>>=◌, ◌>>◌, version_not_increased, missing_in_changelog, arith,
}
use internal.Release.Version.{compare_stable_versions}
use internal.Release.Gate.{
  stable_line, canary_line, GitHubPullRequest, Checkout, is_pending, has_heading,
  read_stable_version, no_pending, assert_stable_bump, is_sha, check, release_head,
  is_release_merge, assert_merged_release_pull, stable_gate,
}

-- A sequence of results that is `ok`: both parts are.
then-ok :
    {A B : Type 0} (r : Result A) (f : A → Result B) (b : B)
    → (r >>= f) ≡ ok b
    → (a : A) × (r ≡ ok a) × (f a ≡ ok b)
then-ok (ok a) f b h = (a, refl, h)
then-ok (err e) f b h = absurd (cc)

passes : (b : Bool) (f : Failure) → ◌≡◌ {A = Result (Unit {0})} (check b f) (ok tt) → b ≡ true
passes b f h = ground arith

-- A merged pull request of the release branch, for the commit.
pub record IsReleaseMerge (repository commit tracked : Text) (pull : GitHubPullRequest)
    : Type 0 where
  pub merged : is_some pull.merged_at ≡ true
  pub of_commit : pull.merge_commit_sha ≡ some commit
  pub from_head : pull.head_ref ≡ release_head tracked
  pub onto_base : pull.base_ref ≡ tracked
  pub in_repository : pull.head_repo ≡ repository

is_sha-some : (o : Option Text) (c : Text) → is_sha o c ≡ true → o ≡ some c
unfolding is_sha
is_sha-some none c h = absurd (cc)
is_sha-some (some s) c h = ap some ((===_iff s c).0 h)

release_merge :
    (repository commit tracked : Text) (pull : GitHubPullRequest)
    → is_release_merge repository commit tracked pull ≡ true
    → IsReleaseMerge repository commit tracked pull
unfolding is_release_merge
release_merge repository commit tracked pull h = record {
  merged = ground arith;
  of_commit = is_sha-some pull.merge_commit_sha commit (ground arith);
  from_head = (===_iff pull.head_ref (release_head tracked)).0 (ground arith);
  onto_base = (===_iff pull.base_ref tracked).0 (ground arith);
  in_repository = (===_iff pull.head_repo repository).0 (ground arith);
}

any-Mem :
    (p : GitHubPullRequest → Bool) (xs : List GitHubPullRequest)
    → any p xs ≡ true
    → (x : GitHubPullRequest) × Memᴰ x xs × (p x ≡ true)
any-Mem p [] h = absurd (cc)
any-Mem p (x ∷ xs) h = elim (Bool-cases (p x)) [
  | inl found ↦ (x, Memᴰ.head refl, found)
  | inr other ↦ let (y, m, e) = any-Mem p xs (ground arith) in (y, Memᴰ.tail m, e)
]

no_pending-nil : (names : List Text) → no_pending names ≡ ok tt → names ≡ []
unfolding no_pending
no_pending-nil [] h = refl
no_pending-nil (_ ∷ _) h = absurd (cc)

-- What a complete bump of the version is.
pub record IsBumped (checkout : Checkout) (previous current : Text) : Type 0 where
  pub order : Ordering
  pub compared : compare_stable_versions current previous ≡ ok order
  pub increased : is_gt order ≡ true
  pub names : List Text
  pub listed : checkout.changesets ≡ ok names
  pub consumed : filter is_pending names ≡ []
  pub text_of : Text
  pub changelog : checkout.changelog ≡ ok text_of
  pub heading : has_heading text_of current ≡ true

bumped :
    (checkout : Checkout) (previous current : Text)
    → assert_stable_bump checkout previous current ≡ ok tt
    → IsBumped checkout previous current
unfolding assert_stable_bump
bumped checkout previous current h =
    let (order, compared, h1) = then-ok (compare_stable_versions current previous) _ tt h in
    let (x, above, h2) = then-ok (check (is_gt order) version_not_increased) _ tt h1 in
    let (names, listed, h3) = then-ok checkout.changesets _ tt h2 in
    let (y, none_left, h4) = then-ok (no_pending (filter is_pending names)) _ tt h3 in
    let (changelog, written, last) = then-ok checkout.changelog _ tt h4 in
    record {
      order = order;
      compared = compared;
      increased = passes (is_gt order) version_not_increased above;
      names = names;
      listed = listed;
      consumed = no_pending-nil (filter is_pending names) none_left;
      text_of = changelog;
      changelog = written;
      heading = passes (has_heading changelog current) missing_in_changelog last;
    }

-- The gate puts a commit on the stable line only at the version of the checked-out manifest, which
-- is above the previous one; only if no changeset is pending and the changelog has the version's
-- heading; and only if a pull request of the release branch of this repository was merged onto the
-- tracked branch as this commit.
pub stable_gate-merged :
    (checkout : Checkout) (pulls_of : Text → Result (List GitHubPullRequest))
    (repository tracked commit previous version : Text)
    → stable_gate checkout pulls_of repository tracked commit previous ≡ ok (stable_line version)
    → (read_stable_version checkout ≡ ok version)
      × IsBumped checkout previous version
      × ((pulls : List GitHubPullRequest) × (pull : GitHubPullRequest) × (pulls_of commit
            ≡ ok pulls)
          × Memᴰ pull pulls
          × IsReleaseMerge repository commit tracked pull)
unfolding stable_gate assert_merged_release_pull
stable_gate-merged checkout pulls_of repository tracked commit previous version h =
    let (current, read, h1) = then-ok (read_stable_version checkout) _ (stable_line version) h in
    raised current read h1
  where
    raised :
        (current : Text)
        → read_stable_version checkout ≡ ok current
        → (if current === previous
            then ok (canary_line current)
            else (assert_stable_bump checkout previous current
                >> (assert_merged_release_pull pulls_of repository commit tracked
                    >> ok (stable_line current))))
          ≡ ok (stable_line version)
        → (read_stable_version checkout ≡ ok version)
          × IsBumped checkout previous version
          × ((pulls : List GitHubPullRequest) × (pull : GitHubPullRequest) × (pulls_of commit
                ≡ ok pulls)
              × Memᴰ pull pulls
              × IsReleaseMerge repository commit tracked pull)
    raised current read k = elim (Bool-cases (current === previous)) [
      | inl same ↦ absurd (cc (rw same at k))
      | inr other ↦
          let (x, bump, k1) =
            then-ok (assert_stable_bump checkout previous current) _ (stable_line version)
              (rw other at k) in
          let (y, found, last) =
            then-ok (assert_merged_release_pull pulls_of repository commit tracked) _
              (stable_line version) k1 in
          let (pulls, listed, checked) = then-ok (pulls_of commit) _ tt found in
          let (pull, m, passed) =
            any-Mem (is_release_merge repository commit tracked) pulls (passes _ _ checked) in
          let same : current ≡ version = cc in
          (
            read ∙ ap ok same,
            subst (IsBumped checkout previous) same (bumped checkout previous current bump),
            (pulls, pull, listed, m, release_merge repository commit tracked pull passed),
          )
    ]
