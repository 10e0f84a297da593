-- ===== src/Release/Engine/Checks.antt =====
-- `assertCheckedCommit`: what is known of the checkout once it returns.
use internal.Prelude.{
  ◌≡◌, ap, ◌∙◌, Bool, true, not, ◌∷◌, if◌then◌else◌, Text, ◌===◌, ===_iff, Failure, Result, ok, err,
  other_checkout, not_on_branch, arith,
}
use internal.Release.Effects.{Run, lift, call, bind-ok, call-ok, lift-ok}
use internal.Release.Engine.{
  EngineCall, git_branch_tip, git_head, git_clean, EngineDeps, assert_checked_commit,
}

holds :
    (b : Bool) (f : Failure)
    → ◌≡◌ {A = Result (Unit {0})} (if not b then err f else ok tt) (ok tt)
    → b ≡ true
holds b f h = ground arith

-- The checks pass only for the commit that is checked out, on the tracked branch, in a clean
-- checkout; they read the branch tip, the head and the state of the checkout, and do nothing else.
pub assert_checked_commit-passes :
    {World : Type 0} (deps : EngineDeps World) (package_name commit : Text)
    (s s' : Run EngineCall World)
    → assert_checked_commit deps package_name commit s ≡ (ok tt, s')
    → (tip : Text) × (s'.trace
        ≡ git_clean (ok true) ∷ git_head (ok commit) ∷ git_branch_tip (ok tip) ∷ s.trace)
      × (deps.publication.ancestry commit tip ≡ ok true)
unfolding assert_checked_commit
assert_checked_commit-passes {World} deps package_name commit s s' h =
    let (tip, t, tipping, h1) = bind-ok (call git_branch_tip deps.git_branch_tip) _ s h in
    let (head, u, heading, h2) = bind-ok (call git_head deps.git_head) _ t h1 in
    let (x, v, same_head, h3) =
      bind-ok (lift (if not (head === commit) then err (other_checkout head commit) else ok tt)) _ u
        h2 in
    let (on_branch, w, asking, h4) = bind-ok (lift (deps.publication.ancestry commit tip)) _ v h3 in
    let (y, z, placed, h5) =
      bind-ok (lift (if not on_branch then err (not_on_branch commit tip) else ok tt)) _ w h4 in
    let (clean, r, cleaning, last) = bind-ok (call git_clean deps.git_clean) _ z h5 in
    let (head_ok, run1) = lift-ok _ u same_head in
    let (asked, run2) = lift-ok _ v asking in
    let (placed_ok, run3) = lift-ok _ w placed in
    let (clean_ok, run4) = lift-ok _ r last in
    let is_head = (===_iff head commit).0 (holds (head === commit) _ head_ok) in
    (
      tip,
      trace_of s t u z r s' tip head clean (call-ok git_branch_tip deps.git_branch_tip s tipping)
          (call-ok git_head deps.git_head t heading) (run1 ∙ run2 ∙ run3)
          (call-ok git_clean deps.git_clean z cleaning) run4 is_head (holds clean _ clean_ok),
      asked ∙ ap ok (holds on_branch _ placed_ok),
    )
  where
    trace_of :
        (s t u z r s' : Run EngineCall World) (tip head : Text) (clean : Bool)
        → t.trace ≡ git_branch_tip (ok tip) ∷ s.trace
        → u.trace ≡ git_head (ok head) ∷ t.trace
        → u ≡ z
        → r.trace ≡ git_clean (ok clean) ∷ z.trace
        → r ≡ s'
        → head ≡ commit
        → clean ≡ true
        → s'.trace ≡ git_clean (ok true) ∷ git_head (ok commit) ∷ git_branch_tip (ok tip) ∷ s.trace
    trace_of s t u z r s' tip head clean a b c d e f g =
        let c' = ap (λ (x : Run EngineCall World). x.trace) c in
        let e' = ap (λ (x : Run EngineCall World). x.trace) e in cc
