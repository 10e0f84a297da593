-- ===== src/Release/Samples.antt =====
-- A package on npm, commits and ancestry for the tests of the release engine.
use internal.Prelude.{ℕ, some, [], ◌∷◌, leb, Text, text, ok}
use internal.Release.Intent.{stable, canary, ReleaseIntent, VerifiedRelease}
use internal.Release.Npm.{PublishedVersion, Registry}
use internal.Release.Supersession.{CommitAncestry}

abbrev pub commit_a : Text
commit_a = text "aaaaaaaaaaaaaaaaaaaaaaaaaaaaaaaaaaaaaaaa"

abbrev pub commit_b : Text
commit_b = text "bbbbbbbbbbbbbbbbbbbbbbbbbbbbbbbbbbbbbbbb"

abbrev pub commit_c : Text
commit_c = text "cccccccccccccccccccccccccccccccccccccccc"

-- A linear history, in the order of the first letter.
abbrev pub first_letter : Text → ℕ
first_letter [] = 0
first_letter (c ∷ s) = c

abbrev pub linear : CommitAncestry
linear older newer = ok (leb (first_letter older) (first_letter newer))

abbrev pub published_0_2_0 : PublishedVersion
published_0_2_0 = record { integrity = some (text "sha512-a"); commit = some commit_a }

abbrev pub published_canary_0 : PublishedVersion
published_canary_0 = record { integrity = some (text "sha512-b"); commit = some commit_b }

abbrev pub npm_package : Registry
npm_package = record {
  versions = (text "0.2.0", published_0_2_0) ∷ (text "0.3.0-canary.0", published_canary_0) ∷ [];
  tags = (text "latest", text "0.2.0") ∷ (text "canary", text "0.3.0-canary.0") ∷ [];
}

abbrev pub canary_intent : ReleaseIntent
canary_intent = record { channel = canary; version = text "0.3.0-canary.1"; commit = commit_c }

abbrev pub canary_release : VerifiedRelease
canary_release = record {
  intent = canary_intent;
  archive = text "release.tgz";
  integrity = text "sha512-c";
}

abbrev pub stable_release : VerifiedRelease
stable_release = record {
  intent = record { channel = stable; version = text "0.3.0"; commit = commit_c };
  archive = text "release.tgz";
  integrity = text "sha512-d";
}
