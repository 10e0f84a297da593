-- ===== src/Release/Record/Assets.antt =====
-- `classifyReleaseAsset` after an upload.
use internal.Prelude.{◌≡◌, false, some, ok, arith}
use internal.Release.Record.{GitHubReleaseAsset, ReleaseAsset, uploaded, classify_release_asset}

-- An asset that is accepted after an upload holds an archive.
pub classify_uploaded :
    (sent : GitHubReleaseAsset) (asset : ReleaseAsset)
    → classify_release_asset false (some sent) ≡ ok asset
    → asset ≡ uploaded sent.id
unfolding classify_release_asset
classify_uploaded sent asset h = ground arith
