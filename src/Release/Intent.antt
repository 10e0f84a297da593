-- ===== src/Release/Intent.antt =====
-- packages/release/src/intent.ts: the identity of a release.
use internal.Prelude.{
  ℕ, Bool, ◌&&◌, ◌||◌, not, leb, ◌==◌, if◌then◌else◌, Text, length, all, Result, ok, err,
  not_commit,
}

pub data Channel : Type 0 where
  stable canary : Channel

is_hexadecimal : ℕ → Bool
is_hexadecimal c = (leb b'a' c && leb c b'f') || (leb b'0' c && leb c b'9')

-- `/^[a-f0-9]{40}$/`
unfoldable pub is_commit : Text → Bool
unfolding is_hexadecimal
is_commit value = (length value == 40) && all is_hexadecimal value

unfoldable pub assert_commit : Text → Result Text
assert_commit commit = if not (is_commit commit) then err (not_commit commit) else ok commit

-- `StableIntent` and `CanaryIntent` have the same fields, and the channel tells them apart.
pub record ReleaseIntent : Type 0 where
  pub channel : Channel
  pub version : Text
  pub commit : Text

pub record VerifiedRelease : Type 0 where
  pub intent : ReleaseIntent
  pub open intent use *
  pub archive : Text
  pub integrity : Text
